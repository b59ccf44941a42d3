-- ===== src/Graph/Components/Union.antt =====
-- libs/graph/hierarchy.py: union puts one root under another, and so the two trees together.
use s3ntinel.Prelude.{
  ℕ, suc, ◌≤◌, ◌<◌, ◌≡◌, refl, sym, subst, ap, ◌∙◌, ◌⊎◌, inl, inr, true, false, Bool-cases, some,
  List, String, str_eq, eq_iff, eq_refl, if◌then◌else◌, arith, coalesce, is_some,
}
use s3ntinel.Graph.Components.{Parents, Ranks, put}
use s3ntinel.Graph.Components.Roots.{level, IsNode, Above, Implements}

-- The roots after the tree of `low` is put under `high`.
abbrev pub linked : (String → String) → String → String → String → String
linked root low high z = if str_eq low (root z) then high else root z

-- The ranks with that of `high` grown above that of `low`.
pub record Grows (rank rank' : Ranks) (low high : String) (top : ℕ) : Type 0 where
  pub grown : (z : String) → level rank z ≤ level rank' z
  pub same : (z : String) → str_eq high z ≡ false → rank' z ≡ rank z
  pub there : is_some (rank' high) ≡ true
  pub less : level rank low < level rank' high
  pub capped : level rank' high ≤ suc top

module _ (nodes : List String) {parent : Parents} {rank rank' : Ranks} {root : String → String}
    {top : ℕ} (low high : String) (i : Implements nodes parent rank root top)
    (low_node : IsNode nodes low) (high_node : IsNode nodes high) (low_root : root low ≡ low)
    (high_root : root high ≡ high) (apart : str_eq low high ≡ false)
    (g : Grows rank rank' low high top) where
  abbrev parent' : Parents
  parent' = put parent low high

  abbrev root' : String → String
  root' = linked root low high

  low_to_high : root' low ≡ high
  low_to_high = rw (low_root, eq_refl low) refl

  high_stays : root' high ≡ high
  high_stays = rw (high_root, apart) refl

  high_parent : parent high ≡ some high
  high_parent = subst (λ z. parent z ≡ some z) high_root (i.root_fixed high high_node)

  low-ne-high : str_eq high low ≡ false
  low-ne-high = ground (arith, eq_iff low high, eq_iff high low)

  Above-low : Above nodes parent' rank' root' low
  Above-low = record {
    next = high;
    is_parent = rw (eq_refl low) refl;
    inside = high_node;
    same_root = high_stays ∙ sym low_to_high;
    higher = inr (ground (arith, g.same low low-ne-high, g.less));
  }

  same_level : (z : String) → str_eq high z ≡ false → level rank' z ≡ level rank z
  same_level z e = ap (λ r. coalesce r 0) (g.same z e)

  higher_kept :
      (z next : String)
      → parent z ≡ some next
      → (next ≡ z) ⊎ (level rank z < level rank next)
      → (next ≡ z) ⊎ (level rank' z < level rank' next)
  higher_kept z next p (inl e) = inl e
  higher_kept z next p (inr less) = elim (Bool-cases (str_eq high z)) [
    | inl e ↦ inl (ground (arith, high_parent, eq_iff high z))
    | inr e ↦ inr (omega (arith, same_level z e, g.grown next))
  ]

  Above-linked : (z : String) → IsNode nodes z → Above nodes parent' rank' root' z
  Above-linked z m = elim (Bool-cases (str_eq low z)) [
    | inl e ↦ subst (Above nodes parent' rank' root') ((eq_iff low z).0 e) Above-low
    | inr e ↦
        let a = i.above z m in
        record {
          next = a.next;
          is_parent = rw e a.is_parent;
          inside = a.inside;
          same_root = ap (λ r. if str_eq low r then high else r) a.same_root;
          higher = higher_kept z a.next a.is_parent a.higher;
        }
  ]

  fixed_linked : (z : String) → IsNode nodes z → parent' z ≡ some z → root' z ≡ z
  fixed_linked z m p = elim (Bool-cases (str_eq low z)) [
    | inl e ↦ ground (arith, eq_iff low z, eq_iff low high)
    | inr e ↦ ground (arith, i.fixed z m)
  ]

  rises_linked :
      (z : String) → IsNode nodes z → (root' z ≡ z) ⊎ (level rank' z < level rank' (root' z))
  rises_linked z m = elim (Bool-cases (str_eq high z)) [
    | inl e ↦ inl (subst (λ w. root' w ≡ w) ((eq_iff high z).0 e) high_stays)
    | inr e ↦ elim (Bool-cases (str_eq low (root z))) [
      | inl at_low ↦ ground (arith, eq_iff low (root z), i.rises z m, same_level z e, g.less)
      | inr off ↦ ground (arith, i.rises z m, same_level z e, g.grown (root z))
    ]
  ]

  pub Implements-linked : Implements nodes parent' rank' root' (suc top)
  Implements-linked = record {
    above = Above-linked;
    root_inside = λ z m. ground (arith, i.root_inside z m);
    root_fixed =
        λ z m. ground (arith, i.root_fixed z m, high_parent, eq_iff low (root z), eq_iff low high);
    root_idem = λ z m. ground (arith, i.root_idem z m, high_root, eq_iff low high);
    fixed = fixed_linked;
    rises = rises_linked;
    ranked = λ z m. elim (Bool-cases (str_eq high z)) [
      | inl e ↦ subst (λ w. is_some (rank' w) ≡ true) ((eq_iff high z).0 e) g.there
      | inr e ↦ rw (g.same z e) (i.ranked z m)
    ];
    bounded = λ z m. elim (Bool-cases (str_eq high z)) [
      | inl e ↦ subst (λ w. level rank' w ≤ suc top) ((eq_iff high z).0 e) g.capped
      | inr e ↦ omega (arith, same_level z e, i.bounded z m)
    ];
  }
