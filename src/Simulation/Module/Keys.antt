-- ===== src/Simulation/Module/Keys.antt =====
-- The keys of dictionaries and the calls that raise nothing, for libs/simulation/module.
use mathlib.Core.Option.{some-injective}
use s3ntinel.Prelude.{
  ◌≡◌, refl, sym, ap, ◌∙◌, Bool, true, false, Option, none, some, [], ◌∷◌, String, str_eq, eq_refl,
  if◌then◌else◌, is_some, arith, subst,
}
use s3ntinel.Prelude.Dict.{Dict, lookup, insert, mapped, over, lookup-mapped}
use s3ntinel.Simulation.Coupling.Config.{◌>>=◌}

abbrev pub AllKeys {ℓ} : {V : Type ℓ} → (String → Type 0) → Dict V → Type 0
AllKeys P [] = Unit
AllKeys P (entry ∷ entries) = P entry.0 × AllKeys P entries

-- Whether a dictionary has the key.
abbrev pub Has {ℓ} : {V : Type ℓ} → Dict V → String → Type 0
Has d key = is_some (lookup key d) ≡ true

-- A call that raises nothing.
abbrev pub Returns {ℓ} : {A : Type ℓ} → Option A → Type ℓ
Returns {A} o = (a : A) × (o ≡ some a)

pub some_of {ℓ} : {A : Type ℓ} (o : Option A) → is_some o ≡ true → Returns o
some_of none h = cc
some_of (some a) h = (a, refl)

pub bind-Returns {ℓ κ} :
    {A : Type ℓ} {B : Type κ} (o : Option A) (f : A → Option B)
    → Returns o
    → ((a : A) → o ≡ some a → Returns (f a))
    → Returns (o >>= f)
bind-Returns none f r g = cc
bind-Returns (some a) f r g = g a refl

-- A call that raises nothing and returns what has a property.
abbrev pub ReturnsWith {ℓ} : {A : Type ℓ} → (A → Type 0) → Option A → Type ℓ
ReturnsWith {A} P o = (a : A) × ((o ≡ some a) × P a)

pub bind-With {ℓ κ} :
    {A : Type ℓ} {B : Type κ} (P : A → Type 0) (R : Option B → Type κ) (o : Option A)
    (f : A → Option B)
    → ReturnsWith P o
    → ((a : A) → P a → R (f a))
    → R (o >>= f)
bind-With P R none f (a, (e, p)) g = cc
bind-With P R (some b) f (a, (e, p)) g = g b (subst P (sym (some-injective b a e)) p)

is_some-over {ℓ κ} :
    {V : Type ℓ} {W : Type κ} (f : V → W) (o : Option V) → is_some (over f o) ≡ is_some o
is_some-over f none = refl
is_some-over f (some value) = refl

pub Has-mapped {ℓ κ} :
    {V : Type ℓ} {W : Type κ} (f : V → W) (d : Dict V) (key : String)
    → Has d key
    → Has (mapped f d) key
Has-mapped f d key h = ap is_some (lookup-mapped f key d) ∙ is_some-over f (lookup key d) ∙ h

pub Has-unmapped {ℓ κ} :
    {V : Type ℓ} {W : Type κ} (f : V → W) (d : Dict V) (key : String)
    → Has (mapped f d) key
    → Has d key
Has-unmapped f d key h =
    sym (is_some-over f (lookup key d)) ∙ sym (ap is_some (lookup-mapped f key d)) ∙ h

pub AllKeys-insert {ℓ} :
    {V : Type ℓ} (P : String → Type 0) (key : String) (value : V) (d : Dict V)
    → P key
    → AllKeys P d
    → AllKeys P (insert key value d)
unfolding insert
AllKeys-insert P key value [] p all = (p, tt)
AllKeys-insert P key value (entry ∷ entries) p all =
    pick (AllKeys-insert P key value entries p all.1) (str_eq entry.0 key)
  where
    pick :
        AllKeys P (insert key value entries)
        → (b : Bool)
        → AllKeys P (if b then (entry.0, value) ∷ entries else entry ∷ insert key value entries)
    pick rest true = all
    pick rest false = (all.0, rest)

pub AllKeys-weaken {ℓ} :
    {V : Type ℓ} (P Q : String → Type 0) (d : Dict V)
    → ((key : String) → P key → Q key)
    → AllKeys P d
    → AllKeys Q d
AllKeys-weaken P Q [] f all = tt
AllKeys-weaken P Q (entry ∷ entries) f all = (f entry.0 all.0, AllKeys-weaken P Q entries f all.1)

pub own_keys {ℓ} : {V : Type ℓ} (d : Dict V) → AllKeys (Has d) d
unfolding lookup
own_keys [] = tt
own_keys (entry ∷ entries) = (
  rw (eq_refl entry.0) refl,
  AllKeys-weaken (Has entries) (Has (entry ∷ entries)) entries (λ key h. ground (arith, h))
      (own_keys entries),
)
