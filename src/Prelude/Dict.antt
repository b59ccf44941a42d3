-- ===== src/Prelude/Dict.antt =====
-- Python's `dict` with string keys: an association list in insertion order.
use Prim.Native.String.{String}
use mathlib.Core.Path.{◌≡◌, refl, sym, ap, ◌∙◌}
use mathlib.Core.Logic.{inl, inr}
use mathlib.Core.Bool.{true, false}
use native.Mathlib.Omega.{arith}
use text.Mathlib.TextEquality.{eq_iff}
use mathlib.Core.List.{List, [], ◌∷◌}
use mathlib.Core.Option.{Option, none, some, some-injective}
use text.Mathlib.Text.{◌==◌}
use s3ntinel.Prelude.Tests.{if◌then◌else◌, Bool-cases}

abbrev pub Dict {ℓ} : Type ℓ → Type ℓ
Dict V = List (String × V)

-- `d.get(key)`
unfoldable pub lookup {ℓ} : {V : Type ℓ} → String → Dict V → Option V
lookup key [] = none
lookup key (entry ∷ others) =
    let found_later = lookup key others in if entry.0 == key then some entry.1 else found_later

-- `d[key] = value`: a key that is there keeps its place.
unfoldable pub insert {ℓ} : {V : Type ℓ} → String → V → Dict V → Dict V
insert key value [] = (key, value) ∷ []
insert key value (entry ∷ others) =
    let inserted_later = insert key value others in
    if entry.0 == key then (entry.0, value) ∷ others else entry ∷ inserted_later

pub lookup-insert {ℓ} :
    {V : Type ℓ} (asked key : String) (value : V) (d : Dict V)
    → lookup asked (insert key value d) ≡ (if key == asked then some value else lookup asked d)
unfolding lookup insert
lookup-insert asked key value [] = refl
lookup-insert asked key value (entry ∷ others) = ground (
  arith,
  eq_iff key asked,
  eq_iff entry.0 key,
  eq_iff entry.0 asked,
  lookup-insert asked key value others,
)

-- `{**old, **new}`, `old.update(new)`
unfoldable pub merge {ℓ} : {V : Type ℓ} → Dict V → Dict V → Dict V
unfolding insert
merge old [] = old
merge old (entry ∷ new) = merge (insert entry.0 entry.1 old) new

-- The keys, in order.
unfoldable pub keys {ℓ} : {V : Type ℓ} → Dict V → List String
keys [] = []
keys (entry ∷ others) = entry.0 ∷ keys others

-- The values of a dictionary changed by a function.
unfoldable pub mapped {ℓ κ} : {V : Type ℓ} {W : Type κ} → (V → W) → Dict V → Dict W
mapped f [] = []
mapped f (entry ∷ others) = (entry.0, f entry.1) ∷ mapped f others

-- Writing to a key that is there does not change what a function shows that shows the same of the
-- new value as of the old one.
pub mapped-insert {ℓ κ} :
    {V : Type ℓ} {W : Type κ} (f : V → W) (key : String) (old new : V) (d : Dict V)
    → lookup key d ≡ some old
    → f new ≡ f old
    → mapped f (insert key new d) ≡ mapped f d
unfolding lookup insert mapped
mapped-insert f key old new [] e same = cc
mapped-insert f key old new (entry ∷ others) e same = elim (Bool-cases (entry.0 == key)) [
  | inl h ↦ rw h (
      ap (λ w. (entry.0, w) ∷ mapped f others)
        (same ∙ sym (ap f (some-injective entry.1 old (sym (head_lookup h) ∙ e)))))
  | inr h ↦
      rw h (
        ap (λ r. (entry.0, f entry.1) ∷ r)
          (mapped-insert f key old new others (tail_lookup h) same))
]
  where
    head_lookup : (entry.0 == key) ≡ true → lookup key (entry ∷ others) ≡ some entry.1
    head_lookup h = rw h refl

    tail_lookup : (entry.0 == key) ≡ false → lookup key others ≡ some old
    tail_lookup h = sym (ap (λ b. if b then some entry.1 else lookup key others) h) ∙ e

-- A function of the value that a key may have.
abbrev pub over {ℓ κ} : {V : Type ℓ} {W : Type κ} → (V → W) → Option V → Option W
over f none = none
over f (some value) = some (f value)

pub lookup-mapped {ℓ κ} :
    {V : Type ℓ} {W : Type κ} (f : V → W) (key : String) (d : Dict V)
    → lookup key (mapped f d) ≡ over f (lookup key d)
unfolding lookup mapped
lookup-mapped f key [] = refl
lookup-mapped f key (entry ∷ others) = elim (Bool-cases (entry.0 == key)) [
  | inl h ↦ rw h refl
  | inr h ↦ rw h (lookup-mapped f key others)
]
