-- ===== src/Simulation/Misbehavior/Labels.antt =====
-- libs/simulation/fault/runtime.py: which value a key has in the context of an active window.
use s3ntinel.Prelude.{
  ℕ, ◌≡◌, refl, ap, ◌∙◌, Bool, true, false, Option, none, some, List, [], ◌∷◌, String, str_eq,
  eq_iff, if◌then◌else◌, is_some, arith,
}
use s3ntinel.Prelude.Int.{pos}
use s3ntinel.Prelude.Dict.{Dict, lookup, insert, lookup-insert}
use s3ntinel.Windows.Doubles.{Doubles}
use s3ntinel.Simulation.Misbehavior.{Value, real, MisbehaviorWindowSpec}
use s3ntinel.Simulation.Misbehavior.Context.{
  set_defaults, misbehavior_defaults, with_score, fault_aliases, resolved_context,
}

-- The first of two that is there.
abbrev pub either {ℓ} : {A : Type ℓ} → Option A → Option A → Option A
either none b = b
either (some a) b = some a

either_assoc {ℓ} : {A : Type ℓ} (a b c : Option A) → either (either a b) c ≡ either a (either b c)
either_assoc none b c = refl
either_assoc (some a) b c = refl

module _ (doubles : Doubles) (printed : Value doubles → String) where
  abbrev V : Type 0
  V = Value doubles

  lookup-default :
      (k key : String) (value : V) (d : Dict V)
      → lookup k (if is_some (lookup key d) then d else insert key value d)
        ≡ either (lookup k d) (if str_eq key k then some value else none)
  lookup-default k key value d = ground (arith, eq_iff key k, lookup-insert k key value d)

  lookup-set_defaults :
      (k : String) (entries : List (String × V)) (d : Dict V)
      → lookup k (set_defaults doubles printed entries d) ≡ either (lookup k d) (lookup k entries)
  unfolding set_defaults lookup
  lookup-set_defaults k [] d = ground arith
  lookup-set_defaults k (entry ∷ entries) d =
      lookup-set_defaults k entries _
      ∙ ap (λ o. either o (lookup k entries)) (lookup-default k entry.0 entry.1 d)
      ∙ either_assoc (lookup k d) _ (lookup k entries)
      ∙ ap (either (lookup k d)) (headed (str_eq entry.0 k))
    where
      headed :
          (b : Bool)
          → either (if b then some entry.1 else none) (lookup k entries)
            ≡ (if b then some entry.1 else lookup k entries)
      headed true = refl
      headed false = refl

  -- The context before the deprecated aliases are added.
  abbrev pub labelled : MisbehaviorWindowSpec doubles → ℕ → Dict V
  labelled window offset = with_score doubles printed window (
      set_defaults doubles printed (misbehavior_defaults doubles printed window offset)
        window.context)

  scored_elsewhere :
      (k : String) (window : MisbehaviorWindowSpec doubles) (d : Dict V)
      → str_eq "anomaly_score_label" k ≡ false
      → lookup k (with_score doubles printed window d) ≡ lookup k d
  unfolding with_score
  scored_elsewhere k window d h =
      ground (arith, lookup-insert k "anomaly_score_label" (real (doubles.of_int (pos 1))) d)

  -- A key other than the score's has the value that the window's own context gives it, otherwise
  -- that of the labels, otherwise that of the deprecated aliases.
  pub lookup-resolved_context :
      (k : String) (window : MisbehaviorWindowSpec doubles) (offset : ℕ)
      → str_eq "anomaly_score_label" k ≡ false
      → lookup k (resolved_context doubles printed window offset)
        ≡ either (lookup k window.context) (
            either
              (lookup k (misbehavior_defaults doubles printed window offset))
              (lookup k (fault_aliases doubles printed window offset (labelled window offset))))
  unfolding resolved_context
  lookup-resolved_context k window offset h =
      let defaults = misbehavior_defaults doubles printed window offset in
      let aliases = fault_aliases doubles printed window offset (labelled window offset) in
      lookup-set_defaults k aliases (labelled window offset)
      ∙ ap (λ o. either o (lookup k aliases))
          (scored_elsewhere k window (set_defaults doubles printed defaults window.context) h
            ∙ lookup-set_defaults k defaults window.context)
      ∙ either_assoc (lookup k window.context) (lookup k defaults) (lookup k aliases)
