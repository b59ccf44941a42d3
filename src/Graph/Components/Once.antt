-- ===== src/Graph/Components/Once.antt =====
-- libs/graph/hierarchy.py: how often a node stands among the nodes and in the groups.
use s3ntinel.Prelude.{
  ℕ, ◌+◌, ◌≤◌, ◌≡◌, refl, ap, ◌∙◌, inl, inr, Bool, true, false, Bool-cases, List, [], ◌∷◌, ◌++◌,
  map, not, select, String, str_eq, eq_iff, if◌then◌else◌, arith, any,
}
use s3ntinel.Prelude.Text.{strip, distinct_texts, insert_text, sort_texts, sorted_texts, text_ltb}
use s3ntinel.Graph.Components.{mem, nodes_of, append_to, before, insert_group, sort_groups}
use s3ntinel.Graph.Components.Groups.{Groups, values}

abbrev pub occurrences : String → List String → ℕ
occurrences x [] = 0
occurrences x (y ∷ ys) = (if str_eq x y then 1 else 0) + occurrences x ys

-- How often a node stands in all groups together.
abbrev pub occurrences_in : String → List (List String) → ℕ
occurrences_in x [] = 0
occurrences_in x (g ∷ gs) = occurrences x g + occurrences_in x gs

abbrev pub is_empty : List String → Bool
is_empty [] = true
is_empty (x ∷ xs) = false

occurrences-mem : (x : String) (xs : List String) → mem x xs ≡ false → occurrences x xs ≡ 0
occurrences-mem x [] h = refl
occurrences-mem x (y ∷ ys) h = ground (arith, occurrences-mem x ys)

mem-occurrences : (x : String) (xs : List String) → mem x xs ≡ true → 1 ≤ occurrences x xs
mem-occurrences x [] h = cc
mem-occurrences x (y ∷ ys) h = ground (arith, mem-occurrences x ys)

distinct_texts-once : (x : String) (ts : List String) → occurrences x (distinct_texts ts) ≤ 1
unfolding distinct_texts
distinct_texts-once x [] = omega arith
distinct_texts-once x (t ∷ ts) =
    ground (arith, eq_iff x t, distinct_texts-once x ts, occurrences-mem x (distinct_texts ts))

occurrences-insert_text :
    (x t : String) (ts : List String) → occurrences x (insert_text t ts) ≡ occurrences x (t ∷ ts)
unfolding insert_text
occurrences-insert_text x t [] = refl
occurrences-insert_text x t (u ∷ ts) = elim (Bool-cases (text_ltb u t)) [
  | inl e ↦ rw e (omega (arith, occurrences-insert_text x t ts))
  | inr e ↦ rw e refl
]

occurrences-sort_texts :
    (x : String) (ts : List String) → occurrences x (sort_texts ts) ≡ occurrences x ts
unfolding sort_texts
occurrences-sort_texts x [] = refl
occurrences-sort_texts x (t ∷ ts) =
    occurrences-insert_text x t (sort_texts ts)
    ∙ ap (λ n. (if str_eq x t then 1 else 0) + n) (occurrences-sort_texts x ts)

-- A node stands among the nodes exactly once.
pub nodes_of-once :
    (x : String) (node_ids : List String)
    → mem x (nodes_of node_ids) ≡ true
    → occurrences x (nodes_of node_ids) ≡ 1
unfolding nodes_of sorted_texts
nodes_of-once x node_ids h =
    let texts = select (λ n. not (str_eq n "")) (map strip node_ids) in
    omega (
      arith,
      mem-occurrences x (nodes_of node_ids) h,
      occurrences-sort_texts x (distinct_texts texts),
      distinct_texts-once x texts,
    )

occurrences-snoc :
    (x node : String) (xs : List String)
    → occurrences x (xs ++ node ∷ []) ≡ occurrences x xs + occurrences x (node ∷ [])
occurrences-snoc x node [] = omega arith
occurrences-snoc x node (y ∷ xs) = omega (arith, occurrences-snoc x node xs)

pub occurrences_in-append_to :
    (x root node : String) (groups : Groups)
    → occurrences_in x (values (append_to root node groups))
      ≡ occurrences_in x (values groups) + occurrences x (node ∷ [])
unfolding append_to
occurrences_in-append_to x root node [] = omega arith
occurrences_in-append_to x root node ((key, members) ∷ groups) =
    elim (Bool-cases (str_eq key root)) [
      | inl e ↦ rw e (omega (arith, occurrences-snoc x node members))
      | inr e ↦ rw e (omega (arith, occurrences_in-append_to x root node groups))
    ]

is_empty-snoc : (node : String) (xs : List String) → is_empty (xs ++ node ∷ []) ≡ false
is_empty-snoc node [] = refl
is_empty-snoc node (x ∷ xs) = refl

pub append_to-none_empty :
    (root node : String) (groups : Groups)
    → any is_empty (values groups) ≡ false
    → any is_empty (values (append_to root node groups)) ≡ false
unfolding append_to
append_to-none_empty root node [] h = refl
append_to-none_empty root node ((key, members) ∷ groups) h =
    ground (arith, is_empty-snoc node members, append_to-none_empty root node groups)

occurrences_in-insert_group :
    (x : String) (g : List String) (gs : List (List String))
    → occurrences_in x (insert_group g gs) ≡ occurrences_in x (g ∷ gs)
unfolding insert_group
occurrences_in-insert_group x g [] = refl
occurrences_in-insert_group x g (h ∷ gs) = elim (Bool-cases (before h g)) [
  | inl e ↦ rw e (omega (arith, occurrences_in-insert_group x g gs))
  | inr e ↦ rw e refl
]

pub occurrences_in-sort_groups :
    (x : String) (gs : List (List String)) → occurrences_in x (sort_groups gs) ≡ occurrences_in x gs
unfolding sort_groups
occurrences_in-sort_groups x [] = refl
occurrences_in-sort_groups x (g ∷ gs) =
    occurrences_in-insert_group x g (sort_groups gs)
    ∙ ap (λ n. occurrences x g + n) (occurrences_in-sort_groups x gs)
