-- ===== src/Phase/Dwell/Swaps.antt =====
-- libs/phase/decode.py: two short runs side by side, each of which would rather be the other.
use s3ntinel.Prelude.{
  ℕ, zero, suc, ◌<◌, ◌≡◌, refl, sym, subst, ap, ◌∙◌, ◌==◌, lt→ltb, true, false, Option, none, some,
  List, [], ◌∷◌, ◌++◌, length, any, is_some, if◌then◌else◌,
}
use s3ntinel.Prelude.Int.{ℤ, pos_part}
use s3ntinel.Windows.Doubles.{Doubles}
use s3ntinel.Phase.Dwell.{
  PhaseRow, PhaseRun, rows_with, phase_runs, nearer_phase, replacement, short_run_replacements,
  apply_phase_run_replacements, dwell_loop, enforce_min_dwell,
}
use s3ntinel.Phase.Dwell.Runs.{StartsOther, phase_runs-block, phase_runs-nil, enforce_min_dwell_on}

module _ (doubles : Doubles) where
  open doubles use {Double}

  -- Some rows, by their costs: a first one and the rest.
  pub record Stretch : Type 0 where
    pub first : List Double
    pub more : List (List Double)

  abbrev pub run_of : ℕ → Stretch → PhaseRun doubles
  run_of phase s = record { run_phase_id = phase; run_costs = s.first ∷ s.more }

  abbrev pub rows : ℕ → Stretch → List (PhaseRow doubles)
  rows phase s = rows_with doubles phase (s.first ∷ s.more)

  -- Four runs in a row, of the phases a, b, c and d.
  abbrev pub four_runs :
      Stretch → Stretch → Stretch → Stretch → ℕ → ℕ → ℕ → ℕ → List (PhaseRow doubles)
  four_runs s t u v a b c d = rows a s ++ (rows b t ++ (rows c u ++ (rows d v ++ [])))

  -- Where the phases of the neighbours are `left` and `right`, the run takes the one named last.
  abbrev pub Prefers : ℕ → ℕ → Stretch → ℕ → Type 0
  Prefers left right s chosen = nearer_phase doubles left right (run_of 0 s) ≡ chosen

  pub record AreApart (a b c d : ℕ) : Type 0 where
    pub ab : (a == b) ≡ false
    pub ac : (a == c) ≡ false
    pub bc : (b == c) ≡ false
    pub cb : (c == b) ≡ false
    pub bd : (b == d) ≡ false
    pub cd : (c == d) ≡ false

  phase_runs-rows :
      (phase : ℕ) (s : Stretch) (rest : List (PhaseRow doubles)) (run : PhaseRun doubles)
      (runs : List (PhaseRun doubles))
      → phase_runs doubles rest ≡ run ∷ runs
      → (phase == run.run_phase_id) ≡ false
      → phase_runs doubles (rows phase s ++ rest) ≡ run_of phase s ∷ run ∷ runs
  phase_runs-rows phase s rest run runs e apart =
      phase_runs-block doubles phase s.first s.more rest
        (subst (StartsOther doubles phase) (sym e) apart)
      ∙ ap (◌∷◌ (run_of phase s)) e

  phase_runs-last : (d : ℕ) (v : Stretch) → phase_runs doubles (rows d v ++ []) ≡ run_of d v ∷ []
  unfolding phase_runs
  phase_runs-last d v = phase_runs-block doubles d v.first v.more [] (phase_runs-nil doubles d)

  phase_runs-four_runs :
      (s t u v : Stretch) (a b c d : ℕ)
      → AreApart a b c d
      → phase_runs doubles (four_runs s t u v a b c d)
        ≡ run_of a s ∷ run_of b t ∷ run_of c u ∷ run_of d v ∷ []
  phase_runs-four_runs s t u v a b c d apart =
      phase_runs-rows a s _ (run_of b t) (run_of c u ∷ run_of d v ∷ [])
        (phase_runs-rows b t _ (run_of c u) (run_of d v ∷ [])
          (phase_runs-rows c u _ (run_of d v) [] (phase_runs-last d v) apart.cd) apart.bc)
        apart.ab

  nearer_phase-run :
      (left right phase : ℕ) (s : Stretch)
      → nearer_phase doubles left right (run_of phase s)
        ≡ nearer_phase doubles left right (run_of 0 s)
  unfolding nearer_phase
  nearer_phase-run left right phase s = refl

  -- A short run that prefers another phase takes it.
  replacement-taken :
      (limit left phase right chosen : ℕ) (s : Stretch)
      → length (s.first ∷ s.more) < limit
      → Prefers left right s chosen
      → (chosen == phase) ≡ false
      → replacement doubles limit (some left) (run_of phase s) (some right) ≡ some chosen
  unfolding replacement
  replacement-taken limit left phase right chosen s short prefers other =
      let takes : nearer_phase doubles left right (run_of phase s) ≡ chosen =
        nearer_phase-run left right phase s ∙ prefers in
      rw (takes, lt→ltb _ limit short, other) refl

  replacement-first :
      (limit : ℕ) (run : PhaseRun doubles) (right : Option ℕ)
      → replacement doubles limit none run right ≡ none
  unfolding replacement
  replacement-first limit run right = refl

  replacement-last :
      (limit left : ℕ) (run : PhaseRun doubles)
      → replacement doubles limit (some left) run none ≡ none
  unfolding replacement
  replacement-last limit left run = refl

  replacements-four_runs :
      (s t u v : Stretch) (a b c d limit : ℕ)
      → AreApart a b c d
      → length (t.first ∷ t.more) < limit
      → length (u.first ∷ u.more) < limit
      → Prefers a c t c
      → Prefers b d u b
      → short_run_replacements doubles limit none
          (run_of a s ∷ run_of b t ∷ run_of c u ∷ run_of d v ∷ [])
        ≡ none ∷ some c ∷ some b ∷ none ∷ []
  unfolding short_run_replacements
  replacements-four_runs s t u v a b c d limit apart short_t short_u to_c to_b =
      let one = replacement-taken limit a b c c t short_t to_c apart.cb in
      let two = replacement-taken limit b c d b u short_u to_b apart.bc in
      let first = replacement-first limit (run_of a s) (some b) in
      let last = replacement-last limit c (run_of d v) in rw (first, one, two, last) refl

  dwell_loop_lem :
      (limit fuel : ℕ) (rs : List (PhaseRow doubles))
      → dwell_loop doubles limit (suc fuel) rs ≡ (
          if any is_some (short_run_replacements doubles limit none (phase_runs doubles rs))
          then dwell_loop doubles limit fuel (
              apply_phase_run_replacements doubles
                (phase_runs doubles rs)
                (short_run_replacements doubles limit none (phase_runs doubles rs)))
          else some rs)
  unfolding dwell_loop
  dwell_loop_lem limit fuel rs = refl

  dwell_loop-step :
      (limit fuel : ℕ) (rs : List (PhaseRow doubles)) (runs : List (PhaseRun doubles))
      (reps : List (Option ℕ))
      → phase_runs doubles rs ≡ runs
      → short_run_replacements doubles limit none runs ≡ reps
      → any is_some reps ≡ true
      → dwell_loop doubles limit (suc fuel) rs
        ≡ dwell_loop doubles limit fuel (apply_phase_run_replacements doubles runs reps)
  dwell_loop-step limit fuel rs runs reps e f some_left =
      dwell_loop_lem limit fuel rs ∙ rw (e, f, some_left) refl

  apply-four_runs :
      (s t u v : Stretch) (a b c d : ℕ)
      → apply_phase_run_replacements doubles
          (run_of a s ∷ run_of b t ∷ run_of c u ∷ run_of d v ∷ [])
          (none ∷ some c ∷ some b ∷ none ∷ [])
        ≡ four_runs s t u v a c b d
  unfolding apply_phase_run_replacements
  apply-four_runs s t u v a b c d = refl

  AreApart-swap : (a b c d : ℕ) → AreApart a b c d → AreApart a c b d
  AreApart-swap a b c d apart = record {
    ab = apart.ac;
    ac = apart.ab;
    bc = apart.cb;
    cb = apart.bc;
    bd = apart.cd;
    cd = apart.bd;
  }

  -- The middle runs of four are shorter than the limit. The second would rather have the third's
  -- phase than the first's, also once it has it, and the third would rather have the second's than
  -- the fourth's, likewise. Then every pass exchanges their phases, and the loop never returns.
  pub dwell_loop-diverges :
      (s t u v : Stretch) (a b c d limit fuel : ℕ)
      → AreApart a b c d
      → length (t.first ∷ t.more) < limit
      → length (u.first ∷ u.more) < limit
      → Prefers a c t c
      → Prefers a b t b
      → Prefers b d u b
      → Prefers c d u c
      → dwell_loop doubles limit fuel (four_runs s t u v a b c d) ≡ none
  dwell_loop-diverges s t u v a b c d limit zero apart st su tc tb ub uc = unfold dwell_loop in refl
  dwell_loop-diverges s t u v a b c d limit (suc fuel) apart st su tc tb ub uc =
      dwell_loop-step limit fuel (four_runs s t u v a b c d) _ _
        (phase_runs-four_runs s t u v a b c d apart)
        (replacements-four_runs s t u v a b c d limit apart st su tc ub) refl
      ∙ ap (dwell_loop doubles limit fuel) (apply-four_runs s t u v a b c d)
      ∙ dwell_loop-diverges s t u v a c b d limit fuel (AreApart-swap a b c d apart) st su tb tc uc
          ub

  -- The same of the whole operation, where the plan asks for dwells of two windows or more: whatever
  -- the fuel, it does not return.
  pub enforce_min_dwell-diverges :
      (s t u v : Stretch) (a b c d limit fuel : ℕ) (phase_min_dwell_windows : ℤ)
      → 1 < pos_part phase_min_dwell_windows
      → AreApart a b c d
      → length (t.first ∷ t.more) < limit
      → length (u.first ∷ u.more) < limit
      → Prefers a c t c
      → Prefers a b t b
      → Prefers b d u b
      → Prefers c d u c
      → enforce_min_dwell doubles phase_min_dwell_windows limit fuel (four_runs s t u v a b c d)
        ≡ none
  enforce_min_dwell-diverges s t u v a b c d limit fuel m long apart st su tc tb ub uc =
      enforce_min_dwell_on doubles limit fuel m (four_runs s t u v a b c d) long
      ∙ dwell_loop-diverges s t u v a b c d limit fuel apart st su tc tb ub uc
