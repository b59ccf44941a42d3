-- ===== src/Simulation/Aircraft/Spec/Distinct.antt =====
-- libs/simulation/aircraft/spec.py: the dictionary of modules is as long as their list exactly if
-- their ids are distinct.
use s3ntinel.Prelude.{
  suc, ◌+◌, ◌≤◌, ◌≡◌, refl, sym, ap, ◌∙◌, arith, false, List, [], ◌∷◌, any, length, String, str_eq,
  if◌then◌else◌, Bool-cases, inl, inr, is_some,
}
use s3ntinel.Prelude.Dict.{Dict, lookup, insert, lookup-insert}
use s3ntinel.Simulation.Aircraft.Spec.{ModuleSpec, module_by_id}

-- The ids are not among those seen before.
abbrev pub AllDistinct : List String → List ModuleSpec → Type 0
AllDistinct seen [] = Unit
AllDistinct seen (self ∷ specs) =
    (any (λ id. str_eq id self.module_id) seen ≡ false) × AllDistinct (self.module_id ∷ seen) specs

length-insert :
    (key : String) (value : ModuleSpec) (d : Dict ModuleSpec)
    → length (insert key value d) ≡ (if is_some (lookup key d) then length d else suc (length d))
unfolding insert lookup
length-insert key value [] = refl
length-insert key value (entry ∷ entries) = elim (Bool-cases (str_eq entry.0 key)) [
  | inl e ↦ rw e refl
  | inr e ↦ rw e (
      ap suc (length-insert key value entries)
      ∙ elim (Bool-cases (is_some (lookup key entries))) [ inl h ↦ rw h refl | inr h ↦ rw h refl ])
]

length-module_by_id :
    (specs : List ModuleSpec) (found : Dict ModuleSpec)
    → length (module_by_id specs found) ≤ length found + length specs
unfolding module_by_id
length-module_by_id [] found = omega arith
length-module_by_id (self ∷ specs) found = ground (
  arith,
  length-module_by_id specs (insert self.module_id self found),
  length-insert self.module_id self found,
)

-- A dictionary has the keys that were seen.
abbrev pub Seen : Dict ModuleSpec → List String → Type 0
Seen found seen = (key : String) → is_some (lookup key found) ≡ any (λ id. str_eq id key) seen

Seen-insert :
    (self : ModuleSpec) (found : Dict ModuleSpec) (seen : List String)
    → Seen found seen
    → Seen (insert self.module_id self found) (self.module_id ∷ seen)
Seen-insert self found seen agree key =
    ap is_some (lookup-insert key self.module_id self found)
    ∙ elim (Bool-cases (str_eq self.module_id key)) [ inl e ↦ rw e refl | inr e ↦ rw e (agree key) ]

pub module_by_id-AllDistinct :
    (specs : List ModuleSpec) (found : Dict ModuleSpec) (seen : List String)
    → Seen found seen
    → length (module_by_id specs found) ≡ length found + length specs
    → AllDistinct seen specs
unfolding module_by_id
module_by_id-AllDistinct [] found seen agree e = tt
module_by_id-AllDistinct (self ∷ specs) found seen agree e =
    let next = insert self.module_id self found in
    let bound = length-module_by_id specs next in
    let grown = length-insert self.module_id self found in
    let fresh : is_some (lookup self.module_id found) ≡ false = ground arith in
    let longer : length next ≡ suc (length found) = rw fresh at grown in
    (
      sym (agree self.module_id) ∙ fresh,
      module_by_id-AllDistinct specs next (self.module_id ∷ seen)
          (Seen-insert self found seen agree) (ground arith),
    )

pub AllDistinct-module_by_id :
    (specs : List ModuleSpec) (found : Dict ModuleSpec) (seen : List String)
    → Seen found seen
    → AllDistinct seen specs
    → length (module_by_id specs found) ≡ length found + length specs
unfolding module_by_id
AllDistinct-module_by_id [] found seen agree all = omega arith
AllDistinct-module_by_id (self ∷ specs) found seen agree all =
    let next = insert self.module_id self found in
    let longer : length next ≡ suc (length found) =
      length-insert self.module_id self found ∙ rw (agree self.module_id ∙ all.0) refl in
    AllDistinct-module_by_id specs next (self.module_id ∷ seen) (Seen-insert self found seen agree)
      all.1
    ∙ ap (λ n. n + length specs) longer
    ∙ omega arith
