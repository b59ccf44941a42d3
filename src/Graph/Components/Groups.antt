-- ===== src/Graph/Components/Groups.antt =====
-- libs/graph/hierarchy.py: the nodes are grouped by their roots.
use s3ntinel.Prelude.{
  ◌≡◌, refl, ap, ◌∙◌, inl, inr, Bool, true, ◌&&◌, ◌||◌, Bool-cases, some, List, [], ◌∷◌, ◌++◌, map,
  String, str_eq, eq_iff, eq_refl, if◌then◌else◌, arith, coalesce, any,
}
use s3ntinel.Prelude.Dict.{Dict, lookup}
use s3ntinel.Graph.Components.{mem, append_to, before, insert_group, sort_groups}
use s3ntinel.Graph.Components.Roots.{IsNode}

abbrev pub Groups : Type 0
Groups = Dict (List String)

lookup-append_to :
    (j root node : String) (groups : Groups)
    → lookup j (append_to root node groups) ≡ (
        if str_eq root j
        then some (coalesce (lookup root groups) [] ++ node ∷ [])
        else lookup j groups)
unfolding lookup append_to
lookup-append_to j root node [] = ground arith
lookup-append_to j root node ((key, members) ∷ groups) =
    ground
      (arith, eq_iff root j, eq_iff key root, eq_iff key j, lookup-append_to j root node groups)

mem-snoc :
    (x node : String) (xs : List String) → mem x (xs ++ node ∷ []) ≡ (mem x xs || str_eq x node)
mem-snoc x node [] = ground arith
mem-snoc x node (y ∷ xs) = ground (arith, mem-snoc x node xs)

abbrev pub together : String → String → List String → Bool
together x y group = mem x group && mem y group

-- Some group holds both.
abbrev pub AreGrouped : String → String → List (List String) → Type 0
AreGrouped x y groups = any (together x y) groups ≡ true

abbrev pub values : Groups → List (List String)
values groups = map (λ (g : String × List String). g.1) groups

any-insert_group :
    (p : List String → Bool) (g : List String) (gs : List (List String))
    → any p (insert_group g gs) ≡ (p g || any p gs)
unfolding insert_group
any-insert_group p g [] = refl
any-insert_group p g (h ∷ gs) = elim (Bool-cases (before h g)) [
  | inl e ↦ rw e (ground (arith, any-insert_group p g gs))
  | inr e ↦ rw e refl
]

pub any-sort_groups :
    (p : List String → Bool) (gs : List (List String)) → any p (sort_groups gs) ≡ any p gs
unfolding sort_groups
any-sort_groups p [] = refl
any-sort_groups p (g ∷ gs) =
    any-insert_group p g (sort_groups gs) ∙ ap (λ b. p g || b) (any-sort_groups p gs)

any-lookup :
    (p : List String → Bool) (key : String) (group : List String) (groups : Groups)
    → lookup key groups ≡ some group
    → p group ≡ true
    → any p (values groups) ≡ true
unfolding lookup
any-lookup p key group [] e h = cc
any-lookup p key group ((k, g) ∷ groups) e h = ground (arith, any-lookup p key group groups)

module _ (nodes : List String) (root : String → String) where
  -- The members of a group are nodes, and have its key as their root.
  abbrev pub AreKeyed : Groups → Type 0
  AreKeyed [] = Unit
  AreKeyed ((key, members) ∷ groups) =
      ((x : String) → mem x members ≡ true → IsNode nodes x × (root x ≡ key)) × AreKeyed groups

  pub AreKeyed-append_to :
      (node : String) (groups : Groups)
      → IsNode nodes node
      → AreKeyed groups
      → AreKeyed (append_to (root node) node groups)
  unfolding append_to
  AreKeyed-append_to node [] n h = (λ x m. ground (arith, eq_iff x node), tt)
  AreKeyed-append_to node ((key, members) ∷ groups) n h =
      elim (Bool-cases (str_eq key (root node))) [
        | inl e ↦ rw e (
          λ x m.
              ground (arith, eq_iff key (root node), eq_iff x node, mem-snoc x node members, h.0 x),
          h.1,
        )
        | inr e ↦ rw e (h.0, AreKeyed-append_to node groups n h.1)
      ]

  -- A node stands in the group of its root.
  pub record IsPlaced (groups : Groups) (x : String) : Type 0 where
    pub group : List String
    pub found : lookup (root x) groups ≡ some group
    pub member : mem x group ≡ true

  pub IsPlaced-append_to :
      (node x : String) (groups : Groups)
      → IsPlaced groups x
      → IsPlaced (append_to (root node) node groups) x
  IsPlaced-append_to node x groups p = elim (Bool-cases (str_eq (root node) (root x))) [
    | inl e ↦ record {
      group = p.group ++ node ∷ [];
      found =
          lookup-append_to (root x) (root node) node groups
          ∙ rw e (ground (arith, eq_iff (root node) (root x), p.found));
      member = mem-snoc x node p.group ∙ rw p.member refl;
    }
    | inr e ↦ record {
      group = p.group;
      found = lookup-append_to (root x) (root node) node groups ∙ rw e p.found;
      member = p.member;
    }
  ]

  pub IsPlaced-new :
      (node : String) (groups : Groups) → IsPlaced (append_to (root node) node groups) node
  IsPlaced-new node groups = record {
    group = coalesce (lookup (root node) groups) [] ++ node ∷ [];
    found = lookup-append_to (root node) (root node) node groups ∙ rw (eq_refl (root node)) refl;
    member =
        mem-snoc node node (coalesce (lookup (root node) groups) []) ∙ ground (arith, eq_refl node);
  }

  -- Two placed nodes are grouped together exactly if they have one root.
  pub AreGrouped-iff_root :
      (x y : String) (groups : Groups)
      → AreKeyed groups
      → IsPlaced groups x
      → IsPlaced groups y
      → (AreGrouped x y (values groups) → root x ≡ root y)
        × (root x ≡ root y → AreGrouped x y (values groups))
  AreGrouped-iff_root x y groups k p q = (
    one_root groups k,
    λ e.
        any-lookup (together x y) (root x) p.group groups p.found
          (ground (arith, p.member, q.member, p.found, q.found)),
  )
    where
      one_root : (gs : Groups) → AreKeyed gs → AreGrouped x y (values gs) → root x ≡ root y
      one_root [] k h = cc
      one_root ((key, members) ∷ gs) k h = ground (arith, k.0 x, k.0 y, one_root gs k.1)

  pub AreGrouped-IsNode :
      (x y : String) (groups : Groups)
      → AreKeyed groups
      → AreGrouped x y (values groups)
      → IsNode nodes x × IsNode nodes y
  AreGrouped-IsNode x y [] k h = cc
  AreGrouped-IsNode x y ((key, members) ∷ groups) k h =
      ground (arith, k.0 x, k.0 y, AreGrouped-IsNode x y groups k.1)
