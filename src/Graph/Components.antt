-- ===== src/Graph/Components.antt =====
-- libs/graph/hierarchy.py: _connected_components_from_edges, by union and find with ranks and path
-- compression. A missing key of the dictionaries raises; that and a lack of fuel are none here.
pub mod Roots
pub mod Union
pub mod Unites
pub mod Connected
pub mod Groups
pub mod Once
pub mod Partition
use s3ntinel.Prelude.{
  ℕ, zero, suc, ◌+◌, ltb, ◌==◌, Bool, not, ◌&&◌, ◌||◌, Option, none, some, List, [], ◌∷◌, ◌++◌, map,
  String, str_eq, if◌then◌else◌, length, any, select,
}
use s3ntinel.Prelude.Dict.{Dict}
use s3ntinel.Prelude.Text.{strip, sorted_texts, text_ltb}
use s3ntinel.Windows.Doubles.{Doubles}

infixl 5 ◌>>=◌
abbrev pub ◌>>=◌ {ℓ κ} : {A : Type ℓ} {B : Type κ} → Option A → (A → Option B) → Option B
none >>= f = none
some a >>= f = f a

abbrev pub Parents : Type 0
Parents = String → Option String

abbrev pub Ranks : Type 0
Ranks = String → Option ℕ

-- `d[k] = v`
abbrev pub put {ℓ} : {V : Type ℓ} → (String → Option V) → String → V → String → Option V
put d k v j = if str_eq k j then some v else d j

pub record Forest : Type 0 where
  pub parent : Parents
  pub rank : Ranks

abbrev pub mem : String → List String → Bool
mem x xs = any (str_eq x) xs

-- `while parent[root] != root`
unfoldable pub find_root : Parents → ℕ → String → Option String
find_root parent zero root = none
find_root parent (suc fuel) root = elim (parent root) [
  | none ↦ none
  | some next ↦
      let further = find_root parent fuel next in if str_eq next root then some root else further
]

-- `while parent[item] != item`
unfoldable pub compress : ℕ → String → Parents → String → Option Parents
compress zero root parent item = none
compress (suc fuel) root parent item = elim (parent item) [
  | none ↦ none
  | some next ↦
      let further = compress fuel root (put parent item root) next in
      if str_eq next item then some parent else further
]

unfoldable pub find : ℕ → Parents → String → Option (Parents × String)
unfolding find_root compress
find fuel parent item = find_root parent fuel item >>= λ root.
    compress fuel root parent item >>= λ parent'. some (parent', root)

-- The links that `union` sets between two roots.
unfoldable pub join_roots : Forest → String → String → Option Forest
join_roots forest left right = forest.rank left >>= λ rank_left. forest.rank right >>= λ rank_right.
    some (
      if ltb rank_left rank_right
      then record forest { parent = put forest.parent left right }
      else if ltb rank_right rank_left
      then record forest { parent = put forest.parent right left }
      else record {
        parent = put forest.parent right left;
        rank = put forest.rank left (rank_left + 1);
      })

unfoldable pub union : ℕ → Forest → String → String → Option Forest
unfolding find join_roots
union fuel forest left right = find fuel forest.parent left >>= λ (one, root_left).
    find fuel one right >>= λ (two, root_right).
    let found = record forest { parent = two } in
    if str_eq root_left root_right then some found else join_roots found root_left root_right

-- `nodes`
unfoldable pub nodes_of : List String → List String
unfolding sorted_texts strip
nodes_of node_ids = sorted_texts (select (λ n. not (str_eq n "")) (map strip node_ids))

abbrev forest_of : List String → Forest
forest_of nodes = record {
  parent = λ x. if mem x nodes then some x else none;
  rank = λ x. if mem x nodes then some 0 else none;
}

-- The pair that an edge joins, if it is not skipped.
module _ (doubles : Doubles) where
  open doubles use {Double}

  pub record Edge : Type 0 where
    pub left : String
    pub right : String
    pub weight : Double

  unfoldable pub link_of : List String → Double → Edge → Option (String × String)
  unfolding strip
  link_of nodes threshold edge =
      let left = strip edge.left in
      let right = strip edge.right in
      if str_eq left "" || str_eq right "" || str_eq left right
      then none
      else if not (mem left nodes) || not (mem right nodes)
      then none
      else if doubles.ltb edge.weight threshold
      then none
      else some (left, right)

  unfoldable pub links_of : List String → Double → List Edge → List (String × String)
  unfolding link_of
  links_of nodes threshold [] = []
  links_of nodes threshold (edge ∷ edges) =
      let rest = links_of nodes threshold edges in
      elim (link_of nodes threshold edge) [ none ↦ rest | some link ↦ link ∷ rest ]

  -- `for left, right, weight in edges`
  unfoldable pub join_edges : List String → Double → ℕ → Forest → List Edge → Option Forest
  unfolding link_of union
  join_edges nodes threshold fuel forest [] = some forest
  join_edges nodes threshold fuel forest (edge ∷ edges) = elim (link_of nodes threshold edge) [
    | none ↦ join_edges nodes threshold fuel forest edges
    | some (left, right) ↦
        union fuel forest left right >>= λ next. join_edges nodes threshold fuel next edges
  ]

-- `groups.setdefault(root, []).append(node)`
unfoldable pub append_to : String → String → Dict (List String) → Dict (List String)
append_to root node [] = (root, node ∷ []) ∷ []
append_to root node ((key, members) ∷ groups) =
    let later = append_to root node groups in
    if str_eq key root then (key, members ++ node ∷ []) ∷ groups else (key, members) ∷ later

unfoldable pub group_nodes :
    ℕ → Parents → List String → Dict (List String) → Option (Dict (List String))
unfolding find append_to
group_nodes fuel parent [] groups = some groups
group_nodes fuel parent (node ∷ nodes) groups = find fuel parent node >>= λ (next, root).
    group_nodes fuel next nodes (append_to root node groups)

-- By size, the largest first, then by the first member.
abbrev first_of : List String → String
first_of [] = ""
first_of (x ∷ xs) = x

unfoldable pub before : List String → List String → Bool
before a b =
    ltb (length b) (length a) || (length a == length b && text_ltb (first_of a) (first_of b))

unfoldable pub insert_group : List String → List (List String) → List (List String)
unfolding before
insert_group group [] = group ∷ []
insert_group group (g ∷ gs) =
    let later = g ∷ insert_group group gs in if before g group then later else group ∷ g ∷ gs

unfoldable pub sort_groups : List (List String) → List (List String)
unfolding insert_group
sort_groups [] = []
sort_groups (g ∷ gs) = insert_group g (sort_groups gs)

-- The members of the components of the nodes.
unfoldable pub connected_components :
    (doubles : Doubles)
    → ℕ
    → List String
    → List (Edge doubles)
    → doubles.Double
    → Option (List (List String))
unfolding nodes_of join_edges group_nodes sort_groups
connected_components doubles fuel node_ids edges min_edge_weight =
    let nodes = nodes_of node_ids in
    join_edges doubles nodes min_edge_weight fuel (forest_of nodes) edges >>= λ forest.
    group_nodes fuel forest.parent nodes [] >>= λ groups.
    some (sort_groups (map (λ (g : String × List String). g.1) groups))
