-- ===== src/Graph/Components/Unites.antt =====
-- libs/graph/hierarchy.py: what one call of union does to the roots.
use s3ntinel.Prelude.{
  ℕ, suc, ◌+◌, ◌≤◌, ◌<◌, ◌≡◌, refl, ap, ◌⊎◌, inl, inr, true, false, Bool-cases, Option, none, some,
  List, String, str_eq, eq_iff, eq_refl, if◌then◌else◌, arith, ltb, is_some,
}
use s3ntinel.Graph.Components.{Parents, Ranks, Forest, put, join_roots, union}
use s3ntinel.Graph.Components.Roots.{level, IsNode, Implements, find-Finds}
use s3ntinel.Graph.Components.Union.{Grows, linked, Implements-linked}

module _ (nodes : List String) where
  -- What a union of two nodes leaves: a forest whose roots are the old ones, save that one of the
  -- nodes' roots may stand for the other.
  pub record Unites (root : String → String) (top : ℕ) (left right : String) (out : Option Forest)
      : Type 0 where
    pub forest' : Forest
    pub returns : out ≡ some forest'
    pub root' : String → String
    pub implements : Implements nodes forest'.parent forest'.rank root' (suc top)
    pub keeps : (z w : String) → root z ≡ root w → root' z ≡ root' w
    pub unites : root' left ≡ root' right
    pub changes :
        (z : String)
        → (root' z ≡ root z)
          ⊎ ((root z ≡ root left) × (root' z ≡ root right)
              ⊎ (root z ≡ root right) × (root' z ≡ root left))

  Grows-kept :
      {parent : Parents} {rank : Ranks} {root : String → String} {top : ℕ} (low high : String)
      → Implements nodes parent rank root top
      → IsNode nodes high
      → level rank low < level rank high
      → Grows rank rank low high top
  Grows-kept low high i n h = record {
    grown = λ z. omega arith;
    same = λ z e. refl;
    there = i.ranked high n;
    less = h;
    capped = omega (arith, i.bounded high n);
  }

  Grows-raised :
      {parent : Parents} {rank : Ranks} {root : String → String} {top : ℕ} (low high : String)
      (m : ℕ)
      → Implements nodes parent rank root top
      → IsNode nodes high
      → rank high ≡ some m
      → level rank low ≤ m
      → Grows rank (put rank high (m + 1)) low high top
  Grows-raised low high m i n e h = record {
    grown = λ z. ground (arith, eq_iff high z);
    same = λ z d. rw d refl;
    there = rw (eq_refl high) refl;
    less = rw (eq_refl high) (omega arith);
    capped = rw (eq_refl high) (ground (arith, i.bounded high n));
  }

  -- `low` and `high` are the roots of the two nodes, in some order.
  module _ {parent : Parents} {rank : Ranks} {root : String → String} {top : ℕ}
      (left right : String) (i : Implements nodes parent rank root top) (l : IsNode nodes left)
      (r : IsNode nodes right) (apart : str_eq (root left) (root right) ≡ false) where
    right_under_left :
        (rank' : Ranks)
        → Grows rank rank' (root right) (root left) top
        → Unites root top left right
            (some (record { parent = put parent (root right) (root left); rank = rank' }))
    right_under_left rank' g = record {
      forest' = record { parent = put parent (root right) (root left); rank = rank' };
      returns = refl;
      root' = linked root (root right) (root left);
      implements =
          Implements-linked nodes (root right) (root left) i (i.root_inside right r)
            (i.root_inside left l) (i.root_idem right r) (i.root_idem left l) apart' g;
      keeps = λ z w e. ap (λ t. if str_eq (root right) t then root left else t) e;
      unites = rw (eq_refl (root right), apart') refl;
      changes = λ z. ground (arith, eq_iff (root right) (root z));
    }
      where
        apart' : str_eq (root right) (root left) ≡ false
        apart' = ground (arith, eq_iff (root left) (root right), eq_iff (root right) (root left))

    left_under_right :
        (rank' : Ranks)
        → Grows rank rank' (root left) (root right) top
        → Unites root top left right
            (some (record { parent = put parent (root left) (root right); rank = rank' }))
    left_under_right rank' g = record {
      forest' = record { parent = put parent (root left) (root right); rank = rank' };
      returns = refl;
      root' = linked root (root left) (root right);
      implements =
          Implements-linked nodes (root left) (root right) i (i.root_inside left l)
            (i.root_inside right r) (i.root_idem left l) (i.root_idem right r) apart g;
      keeps = λ z w e. ap (λ t. if str_eq (root left) t then root right else t) e;
      unites = rw (eq_refl (root left), apart) refl;
      changes = λ z. ground (arith, eq_iff (root left) (root z));
    }

    join_roots-Unites :
        (m n : ℕ)
        → rank (root left) ≡ some m
        → rank (root right) ≡ some n
        → Unites root top left right
            (join_roots (record { parent = parent; rank = rank }) (root left) (root right))
    unfolding join_roots
    join_roots-Unites m n p q = elim (Bool-cases (ltb m n)) [
      | inl e ↦
          rw (p, q, e)
            (left_under_right rank
              (Grows-kept (root left) (root right) i (i.root_inside right r) (ground arith)))
      | inr e ↦ elim (Bool-cases (ltb n m)) [
        | inl f ↦
            rw (p, q, e, f)
              (right_under_left rank
                (Grows-kept (root right) (root left) i (i.root_inside left l) (ground arith)))
        | inr f ↦
            rw (p, q, e, f)
              (right_under_left (put rank (root left) (m + 1))
                (Grows-raised (root right) (root left) m i (i.root_inside left l) p (ground arith)))
      ]
    ]

  Implements-suc :
      {parent : Parents} {rank : Ranks} {root : String → String} {top : ℕ}
      → Implements nodes parent rank root top
      → Implements nodes parent rank root (suc top)
  Implements-suc i = record {
    above = i.above;
    root_inside = i.root_inside;
    root_fixed = i.root_fixed;
    root_idem = i.root_idem;
    fixed = i.fixed;
    rises = i.rises;
    ranked = i.ranked;
    bounded = λ z m. omega (arith, i.bounded z m);
  }

  rank_of : (rank : Ranks) (x : String) → is_some (rank x) ≡ true → (n : ℕ) × (rank x ≡ some n)
  rank_of rank x h = from (rank x) h
    where
      from : (o : Option ℕ) → is_some o ≡ true → (n : ℕ) × (o ≡ some n)
      from none e = cc
      from (some n) e = (n, refl)

  pub union-Unites :
      (fuel : ℕ) (forest : Forest) (root : String → String) (top : ℕ) (left right : String)
      → Implements nodes forest.parent forest.rank root top
      → IsNode nodes left
      → IsNode nodes right
      → top < fuel
      → Unites root top left right (union fuel forest left right)
  unfolding union
  union-Unites fuel forest root top left right i l r h =
      let one = find-Finds nodes fuel left forest.parent i l h in
      let two = find-Finds nodes fuel right one.parent' one.implements r h in
      let m = rank_of forest.rank (root left) (i.ranked (root left) (i.root_inside left l)) in
      let n = rank_of forest.rank (root right) (i.ranked (root right) (i.root_inside right r)) in
      elim (Bool-cases (str_eq (root left) (root right))) [
        | inl e ↦
            rw (one.returns, two.returns, e)
              (record {
                forest' = record { parent = two.parent'; rank = forest.rank };
                returns = refl;
                root' = root;
                implements = Implements-suc two.implements;
                keeps = λ z w k. k;
                unites = (eq_iff (root left) (root right)).0 e;
                changes = λ z. inl refl;
              })
        | inr e ↦
            rw (one.returns, two.returns, e)
              (join_roots-Unites left right two.implements l r e m.0 n.0 m.1 n.1)
      ]
