-- ===== src/Simulation/Phase.antt =====
-- libs/simulation/phase/runtime.py: the label that a phase program gives a step of a flight.
-- Metadata, which no operation here reads, is left out.
use s3ntinel.Prelude.{
  ℕ, ◌+◌, ◌-◌, ◌%◌, ◌≤◌, ◌<◌, ◌≡◌, refl, ap, ◌⊎◌, inl, inr, Bool-cases, Bool, true, false, Option,
  none, some, List, [], ◌∷◌, ◌++◌, String, arith, str_eq, if◌then◌else◌, length, any, ltb, leb,
  is_some, get_elem?, min,
}
use native.Mathlib.Nat.{mod-lt}
use s3ntinel.Prelude.Int.{ℤ, pos, negsuc, pos_part, leb_ℤ}
use s3ntinel.Prelude.Dict.{Dict, lookup}

pub data PhaseError : Type 0 where
  unknown_label bad_duration negative_step no_segments no_duration duplicate_envelope : PhaseError

pub data Result {ℓ} (A : Type ℓ) : Type ℓ where
  ok : A → Result A
  err : PhaseError → Result A

infixl 5 ◌>>=◌
abbrev pub ◌>>=◌ {ℓ κ} : {A : Type ℓ} {B : Type κ} → Result A → (A → Result B) → Result B
ok a >>= f = f a
err e >>= f = err e

abbrev pub canonical_phase_labels : List String
canonical_phase_labels =
    "gate_turnaround" ∷ "taxi_out" ∷ "takeoff_climb" ∷ "cruise" ∷ "descent_approach"
    ∷ "landing_rollout" ∷ []

pub record PhaseSegmentSpec : Type 0 where
  pub phase_label : String
  pub duration_steps : ℤ

pub record PhaseScheduleSpec : Type 0 where
  pub segments : List PhaseSegmentSpec
  pub repeat : Bool

unfoldable pub validate_phase_label : Option String → Result (Option String)
validate_phase_label none = ok none
validate_phase_label (some label) =
    if any (λ l. str_eq l label) canonical_phase_labels then ok (some label) else err unknown_label

unfoldable pub validated_phase_segment : PhaseSegmentSpec → Result PhaseSegmentSpec
unfolding validate_phase_label
validated_phase_segment segment = validate_phase_label (some segment.phase_label) >>= λ _.
    if leb_ℤ segment.duration_steps (pos 0) then err bad_duration else ok segment

unfoldable pub validated_segments : List PhaseSegmentSpec → Result (List PhaseSegmentSpec)
unfolding validated_phase_segment
validated_segments [] = ok []
validated_segments (segment ∷ rest) = do
  first ← validated_phase_segment segment
  others ← validated_segments rest
  ok (first ∷ others)

-- The durations of validated segments are positive.
abbrev pub duration : PhaseSegmentSpec → ℕ
duration segment = pos_part segment.duration_steps

unfoldable pub total_duration : List PhaseSegmentSpec → ℕ
total_duration [] = 0
total_duration (segment ∷ rest) = duration segment + total_duration rest

-- The loop over the segments; `last` is the label of the segment before.
unfoldable pub scan : ℕ → ℕ → Option String → List PhaseSegmentSpec → Option String
scan step elapsed last [] = last
scan step elapsed last (segment ∷ rest) =
    let later = scan step (elapsed + duration segment) (some segment.phase_label) rest in
    if ltb step (elapsed + duration segment) then some segment.phase_label else later

unfoldable pub label_in : Bool → ℕ → List PhaseSegmentSpec → Result (Option String)
unfolding scan total_duration
label_in repeat step segments =
    let total = total_duration segments in
    if leb total 0
    then err no_duration
    else ok (scan (if repeat then step % total else step) 0 none segments)

unfoldable pub resolve_phase_label_for_step : Option PhaseScheduleSpec → ℤ → Result (Option String)
unfolding validated_segments label_in
resolve_phase_label_for_step none step = ok none
resolve_phase_label_for_step (some schedule) (negsuc n) = err negative_step
resolve_phase_label_for_step (some schedule) (pos step) =
    if ltb (length schedule.segments) 1
    then err no_segments
    else validated_segments schedule.segments >>= label_in schedule.repeat step

pub record PhaseProgram {ℓ} (Envelope : Type ℓ) : Type ℓ where
  pub explicit_labels_by_step : List (Option String)
  pub schedule : Option PhaseScheduleSpec
  pub envelopes_by_label : Dict Envelope

-- `min(max(step_index, 0), len(labels) - 1)`: a step past the end has the last label.
unfoldable pub label_for_step {ℓ} : {E : Type ℓ} → PhaseProgram E → ℤ → Result (Option String)
unfolding resolve_phase_label_for_step
label_for_step program step =
    let labels = program.explicit_labels_by_step in
    if ltb 0 (length labels)
    then elim (get_elem? labels (min (pos_part step) (length labels - 1))) [
      | none ↦ ok none
      | some label ↦ ok label
    ]
    else resolve_phase_label_for_step program.schedule step

unfoldable pub envelope_for_step {ℓ} : {E : Type ℓ} → PhaseProgram E → ℤ → Result (Option E)
unfolding label_for_step
envelope_for_step program step = label_for_step program step >>= λ label. elim label [
  | none ↦ ok none
  | some l ↦ ok (lookup l program.envelopes_by_label)
]

-- `index_phase_envelopes_by_label`, over the label and the rest of each envelope.
unfoldable pub index_phase_envelopes {ℓ} :
    {E : Type ℓ} → Dict E → List (String × E) → Result (Dict E)
unfolding validate_phase_label
index_phase_envelopes indexed [] = ok indexed
index_phase_envelopes indexed ((label, envelope) ∷ rest) =
    let later = index_phase_envelopes (indexed ++ (label, envelope) ∷ []) rest in
    validate_phase_label (some label) >>= λ _.
    if is_some (lookup label indexed) then err duplicate_envelope else later

-- The segment that holds a step, counted from `elapsed`: those before it end at or before the
-- step, and it ends after it.
pub data HoldsStep (step elapsed : ℕ) (segments : List PhaseSegmentSpec) (label : String)
    : Type 0 where
  holds :
      (before after : List PhaseSegmentSpec) (segment : PhaseSegmentSpec)
      → segments ≡ before ++ segment ∷ after
      → elapsed + total_duration before ≤ step
      → step < elapsed + total_duration before + duration segment
      → label ≡ segment.phase_label
      → HoldsStep step elapsed segments label

HoldsStep-cons :
    {step elapsed : ℕ} {rest : List PhaseSegmentSpec} {label : String} (segment : PhaseSegmentSpec)
    → HoldsStep step (elapsed + duration segment) rest label
    → HoldsStep step elapsed (segment ∷ rest) label
unfolding total_duration
HoldsStep-cons segment (holds before after held e below above named) =
    holds (segment ∷ before) after held (ap (λ l. segment ∷ l) e) (omega arith) (omega arith) named

scan-HoldsStep :
    (segments : List PhaseSegmentSpec) (step elapsed : ℕ) (last : Option String)
    → elapsed ≤ step
    → step < elapsed + total_duration segments
    → (label : String) × (scan step elapsed last segments ≡ some label)
      × HoldsStep step elapsed segments label
unfolding scan total_duration
scan-HoldsStep [] step elapsed last h k = absurd (omega arith)
scan-HoldsStep (segment ∷ rest) step elapsed last h k =
    elim (Bool-cases (ltb step (elapsed + duration segment))) [
      | inl inside ↦ (
        segment.phase_label,
        rw inside refl,
        holds [] rest segment refl (omega arith) (ground arith) refl,
      )
      | inr later ↦
          let (label, found, held) =
            scan-HoldsStep rest step (elapsed + duration segment) (some segment.phase_label)
              (ground arith) (omega arith) in
          (label, rw later found, HoldsStep-cons segment held)
    ]

-- For validated segments of a positive total length, a repeated schedule and a step inside an
-- unrepeated one have the label of the segment that holds the step, taken modulo the total length
-- where the schedule repeats.
pub label_in-HoldsStep :
    (repeat : Bool) (step : ℕ) (segments : List PhaseSegmentSpec)
    → 0 < total_duration segments
    → (repeat ≡ true) ⊎ (step < total_duration segments)
    → (label : String) × (label_in repeat step segments ≡ ok (some label))
      × HoldsStep (if repeat then step % total_duration segments else step) 0 segments label
unfolding label_in
label_in-HoldsStep true step segments h inside =
    let (label, found, held) =
      scan-HoldsStep segments (step % total_duration segments) 0 none (omega arith)
        (omega (arith, mod-lt step h)) in
    (label, rw found (ground arith), held)
label_in-HoldsStep false step segments h inside =
    let (label, found, held) = scan-HoldsStep segments step 0 none (omega arith) (ground arith) in
    (label, rw found (ground arith), held)

-- A step past the end of an unrepeated schedule has the label of its last segment.
scan-past_end :
    (segments : List PhaseSegmentSpec) (last : PhaseSegmentSpec) (step elapsed : ℕ)
    (l : Option String)
    → elapsed + total_duration (segments ++ last ∷ []) ≤ step
    → scan step elapsed l (segments ++ last ∷ []) ≡ some last.phase_label
unfolding scan total_duration
scan-past_end [] last step elapsed l h = ground arith
scan-past_end (segment ∷ rest) last step elapsed l h =
    ground
      (arith, scan-past_end rest last step (elapsed + duration segment) (some segment.phase_label))

total_duration-snoc :
    (segments : List PhaseSegmentSpec) (last : PhaseSegmentSpec)
    → duration last ≤ total_duration (segments ++ last ∷ [])
unfolding total_duration
total_duration-snoc [] last = omega arith
total_duration-snoc (segment ∷ rest) last = omega (arith, total_duration-snoc rest last)

-- A step at or past the end of an unrepeated schedule, whose last segment has a positive length,
-- has the label of the last segment.
pub label_in-past_end :
    (segments : List PhaseSegmentSpec) (last : PhaseSegmentSpec) (step : ℕ)
    → 0 < duration last
    → total_duration (segments ++ last ∷ []) ≤ step
    → label_in false step (segments ++ last ∷ []) ≡ ok (some last.phase_label)
unfolding label_in
label_in-past_end segments last step h past =
    let below = total_duration-snoc segments last in
    let found = scan-past_end segments last step 0 none (omega arith) in
    rw found (ground (arith, below))
