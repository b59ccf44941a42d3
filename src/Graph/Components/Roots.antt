-- ===== src/Graph/Components/Roots.antt =====
-- libs/graph/hierarchy.py: find and union keep a forest of ranked trees, seen through the root that
-- each node has.
use s3ntinel.Prelude.{
  ℕ, zero, suc, ◌+◌, ◌≤◌, ◌<◌, ◌≡◌, refl, sym, subst, ap, ◌∙◌, ◌⊎◌, inl, inr, true, false,
  Bool-cases, Option, some, List, String, str_eq, eq_iff, arith, coalesce, is_some,
}
use s3ntinel.Graph.Components.{Parents, Ranks, put, mem, find_root, compress, find}

abbrev pub level : Ranks → String → ℕ
level rank x = coalesce (rank x) 0

find_root-stop :
    (parent : Parents) (fuel : ℕ) (x next : String)
    → parent x ≡ some next
    → str_eq next x ≡ true
    → find_root parent (suc fuel) x ≡ some x
unfolding find_root
find_root-stop parent fuel x next p e = ground arith

find_root-go :
    (parent : Parents) (fuel : ℕ) (x next : String)
    → parent x ≡ some next
    → str_eq next x ≡ false
    → find_root parent (suc fuel) x ≡ find_root parent fuel next
unfolding find_root
find_root-go parent fuel x next p e = ground arith

compress-stop :
    (parent : Parents) (fuel : ℕ) (root x next : String)
    → parent x ≡ some next
    → str_eq next x ≡ true
    → compress (suc fuel) root parent x ≡ some parent
unfolding compress
compress-stop parent fuel root x next p e = ground arith

compress-go :
    (parent : Parents) (fuel : ℕ) (root x next : String)
    → parent x ≡ some next
    → str_eq next x ≡ false
    → compress (suc fuel) root parent x ≡ compress fuel root (put parent x root) next
unfolding compress
compress-go parent fuel root x next p e = ground arith

module _ (nodes : List String) where
  abbrev pub IsNode : String → Type 0
  IsNode x = mem x nodes ≡ true

  -- A node's parent: a node of the same root, of a higher rank unless it is the node itself.
  pub record Above (parent : Parents) (rank : Ranks) (root : String → String) (x : String)
      : Type 0 where
    pub next : String
    pub is_parent : parent x ≡ some next
    pub inside : IsNode next
    pub same_root : root next ≡ root x
    pub higher : (next ≡ x) ⊎ (level rank x < level rank next)

  -- The forest implements the map `root` from nodes to their roots, with ranks up to `top`.
  pub record Implements (parent : Parents) (rank : Ranks) (root : String → String) (top : ℕ)
      : Type 0 where
    pub above : (x : String) → IsNode x → Above parent rank root x
    pub root_inside : (x : String) → IsNode x → IsNode (root x)
    pub root_fixed : (x : String) → IsNode x → parent (root x) ≡ some (root x)
    pub root_idem : (x : String) → IsNode x → root (root x) ≡ root x
    pub fixed : (x : String) → IsNode x → parent x ≡ some x → root x ≡ x
    pub rises : (x : String) → IsNode x → (root x ≡ x) ⊎ (level rank x < level rank (root x))
    pub ranked : (x : String) → IsNode x → is_some (rank x) ≡ true
    pub bounded : (x : String) → IsNode x → level rank x ≤ top

  module _ {parent : Parents} {rank : Ranks} {root : String → String} {top : ℕ} where
    find_root_lem :
        (fuel : ℕ) (x : String)
        → Implements parent rank root top
        → IsNode x
        → top < fuel + level rank x
        → find_root parent fuel x ≡ some (root x)
    find_root_lem zero x i n h = absurd (omega (arith, i.bounded x n))
    find_root_lem (suc fuel) x i n h =
        let a = i.above x n in
        elim (Bool-cases (str_eq a.next x)) [
          | inl e ↦
              let at_root = i.fixed x n (a.is_parent ∙ ap some ((eq_iff a.next x).0 e)) in
              find_root-stop parent fuel x a.next a.is_parent e ∙ ap some (sym at_root)
          | inr e ↦
              let deep =
                find_root_lem fuel a.next i a.inside (ground (arith, a.higher, eq_iff a.next x)) in
              find_root-go parent fuel x a.next a.is_parent e ∙ deep ∙ ap some a.same_root
        ]

    -- Compression moves a node up to its root.
    Implements-put :
        (x : String)
        → Implements parent rank root top
        → IsNode x
        → Implements (put parent x (root x)) rank root top
    Implements-put x i n = record {
      above = λ z m. elim (Bool-cases (str_eq x z)) [
        | inl e ↦ subst (Above (put parent x (root x)) rank root) ((eq_iff x z).0 e) (record {
          next = root x;
          is_parent = ground (arith, eq_iff x x);
          inside = i.root_inside x n;
          same_root = i.root_idem x n;
          higher = i.rises x n;
        })
        | inr e ↦
            let a = i.above z m in
            record {
              next = a.next;
              is_parent = rw e a.is_parent;
              inside = a.inside;
              same_root = a.same_root;
              higher = a.higher;
            }
      ];
      root_inside = i.root_inside;
      root_fixed = λ z m. ground (arith, eq_iff x (root z), i.root_fixed z m, i.root_idem z m);
      root_idem = i.root_idem;
      fixed = λ z m e. ground (arith, eq_iff x z, i.fixed z m);
      rises = i.rises;
      ranked = i.ranked;
      bounded = i.bounded;
    }

  -- Compression from a node leaves a forest of the same roots.
  pub record Compressed (rank : Ranks) (root : String → String) (top : ℕ) (out : Option Parents)
      : Type 0 where
    pub parent' : Parents
    pub returns : out ≡ some parent'
    pub implements : Implements parent' rank root top

  -- `find` returns the root of the node, whatever it compresses.
  pub record Finds (rank : Ranks) (root : String → String) (top : ℕ) (x : String)
      (out : Option (Parents × String)) : Type 0 where
    pub parent' : Parents
    pub returns : out ≡ some (parent', root x)
    pub implements : Implements parent' rank root top

  module _ {rank : Ranks} {root : String → String} {top : ℕ} where
    compress-Compressed :
        (fuel : ℕ) (x : String) (parent : Parents)
        → Implements parent rank root top
        → IsNode x
        → top < fuel + level rank x
        → Compressed rank root top (compress fuel (root x) parent x)
    compress-Compressed zero x parent i n h = absurd (omega (arith, i.bounded x n))
    compress-Compressed (suc fuel) x parent i n h =
        let a = i.above x n in
        elim (Bool-cases (str_eq a.next x)) [
          | inl e ↦ record {
            parent' = parent;
            returns = compress-stop parent fuel (root x) x a.next a.is_parent e;
            implements = i;
          }
          | inr e ↦
              let deep =
                compress-Compressed fuel a.next (put parent x (root x)) (Implements-put x i n)
                  a.inside (ground (arith, a.higher, eq_iff a.next x)) in
              record {
                parent' = deep.parent';
                returns =
                    compress-go parent fuel (root x) x a.next a.is_parent e
                    ∙ ap (λ r. compress fuel r (put parent x (root x)) a.next) (sym a.same_root)
                    ∙ deep.returns;
                implements = deep.implements;
              }
        ]

    pub find-Finds :
        (fuel : ℕ) (x : String) (parent : Parents)
        → Implements parent rank root top
        → IsNode x
        → top < fuel
        → Finds rank root top x (find fuel parent x)
    unfolding find
    find-Finds fuel x parent i n h =
        let c = compress-Compressed fuel x parent i n (omega arith) in
        record {
          parent' = c.parent';
          returns = rw (find_root_lem fuel x i n (omega arith), c.returns) refl;
          implements = c.implements;
        }
