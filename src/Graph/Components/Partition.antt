-- ===== src/Graph/Components/Partition.antt =====
-- libs/graph/hierarchy.py: _connected_components_from_edges as a whole.
use s3ntinel.Prelude.{
  ℕ, ◌<◌, ◌≡◌, refl, sym, subst, ◌∙◌, ◌↔◌, inl, inr, Bool, true, false, Bool-cases, Option, some,
  List, [], ◌∷◌, String, str_eq, eq_iff, eq_refl, arith, length, any, ◌+◌,
}
use s3ntinel.Windows.Doubles.{Doubles}
use s3ntinel.Graph.Components.{
  Parents, Ranks, Forest, mem, find, forest_of, append_to, group_nodes, sort_groups, nodes_of, Edge,
  links_of, join_edges, connected_components,
}
use s3ntinel.Graph.Components.Roots.{IsNode, Implements, find-Finds}
use s3ntinel.Graph.Components.Connected.{
  Links, Connected, Represents, Represents-iff, join_edges-Ends, here,
}
use s3ntinel.Graph.Components.Groups.{
  Groups, AreGrouped, AreKeyed, IsPlaced, AreKeyed-append_to, IsPlaced-append_to, IsPlaced-new,
  AreGrouped-iff_root, any-sort_groups, AreGrouped-IsNode, together, values,
}
use s3ntinel.Graph.Components.Once.{
  occurrences, occurrences_in, is_empty, nodes_of-once, occurrences_in-append_to,
  append_to-none_empty, occurrences_in-sort_groups,
}

forest_of-Implements :
    (nodes : List String)
    → Implements nodes (forest_of nodes).parent (forest_of nodes).rank (λ x. x) 0
forest_of-Implements nodes = record {
  above = λ x n. record {
    next = x;
    is_parent = rw n refl;
    inside = n;
    same_root = refl;
    higher = inl refl;
  };
  root_inside = λ x n. n;
  root_fixed = λ x n. rw n refl;
  root_idem = λ x n. refl;
  fixed = λ x n e. refl;
  rises = λ x n. inl refl;
  ranked = λ x n. rw n refl;
  bounded = λ x n. rw n (omega arith);
}

Represents-none : Represents [] (λ x. x)
Represents-none = record { sound = λ z. here; complete = λ a b m. absurd m }

abbrev AllNodes : List String → List String → Type 0
AllNodes nodes [] = Unit
AllNodes nodes (x ∷ xs) = IsNode nodes x × AllNodes nodes xs

AllNodes-cons : (y : String) (nodes xs : List String) → AllNodes nodes xs → AllNodes (y ∷ nodes) xs
AllNodes-cons y nodes [] h = tt
AllNodes-cons y nodes (x ∷ xs) h = (ground arith, AllNodes-cons y nodes xs h.1)

AllNodes-self : (nodes : List String) → AllNodes nodes nodes
AllNodes-self [] = tt
AllNodes-self (x ∷ xs) = (rw (eq_refl x) refl, AllNodes-cons x xs xs (AllNodes-self xs))

false-ne-true : ◌≡◌ {A = Bool} false true → ⊥
false-ne-true e = cc

module _ (nodes : List String) (root : String → String) where
  -- What the loop over some nodes adds to the groups.
  record Adds (groups : Groups) (todo : List String) (out : Option Groups) : Type 0 where
    after : Groups
    returns : out ≡ some after
    keyed : AreKeyed nodes root after
    kept : (x : String) → IsPlaced nodes root groups x → IsPlaced nodes root after x
    placed : (x : String) → mem x todo ≡ true → IsPlaced nodes root after x
    counts :
        (x : String)
        → occurrences_in x (values after) ≡ occurrences_in x (values groups) + occurrences x todo
    filled : any is_empty (values groups) ≡ false → any is_empty (values after) ≡ false

  group_nodes-go :
      (fuel : ℕ) (parent next : Parents) (node r : String) (todo : List String) (groups : Groups)
      → find fuel parent node ≡ some (next, r)
      → group_nodes fuel parent (node ∷ todo) groups
        ≡ group_nodes fuel next todo (append_to r node groups)
  unfolding group_nodes
  group_nodes-go fuel parent next node r todo groups e = rw (e, group_nodes) refl

  group_nodes-Adds :
      {rank : Ranks} {top : ℕ} (fuel : ℕ) (todo : List String) (parent : Parents) (groups : Groups)
      → Implements nodes parent rank root top
      → top < fuel
      → AllNodes nodes todo
      → AreKeyed nodes root groups
      → Adds groups todo (group_nodes fuel parent todo groups)
  group_nodes-Adds fuel [] parent groups i h n k = record {
    after = groups;
    returns = unfold group_nodes in refl;
    keyed = k;
    kept = λ x p. p;
    placed = λ x m. absurd (false-ne-true m);
    counts = λ x. omega arith;
    filled = λ e. e;
  }
  group_nodes-Adds fuel (node ∷ todo) parent groups i h n k =
      let f = find-Finds nodes fuel node parent i n.0 h in
      let rest =
        group_nodes-Adds fuel todo f.parent' (append_to (root node) node groups) f.implements h n.1
          (AreKeyed-append_to nodes root node groups n.0 k) in
      record {
        after = rest.after;
        returns =
            group_nodes-go fuel parent f.parent' node (root node) todo groups f.returns
            ∙ rest.returns;
        keyed = rest.keyed;
        kept = λ x p. rest.kept x (IsPlaced-append_to nodes root node x groups p);
        placed = λ x m. elim (Bool-cases (str_eq x node)) [
          | inl e ↦ rest.kept x (
              subst (IsPlaced nodes root (append_to (root node) node groups))
                (sym ((eq_iff x node).0 e)) (IsPlaced-new nodes root node groups))
          | inr e ↦ rest.placed x (ground arith)
        ];
        counts =
            λ x. omega (arith, rest.counts x, occurrences_in-append_to x (root node) node groups);
        filled = λ e. rest.filled (append_to-none_empty (root node) node groups e);
      }

-- What `_connected_components_from_edges` promises: the groups part the nodes into the connected
-- components of the links. Every node stands in the groups exactly once, in one place of one
-- group, nothing else does, and no group is empty.
pub record IsPartition (nodes : List String) (links : Links) (out : Option (List (List String)))
    : Type 0 where
  pub groups : List (List String)
  pub returns : out ≡ some groups
  pub components :
      (x y : String) → IsNode nodes x → IsNode nodes y → AreGrouped x y groups ↔ Connected links x y
  pub once : (x : String) → IsNode nodes x → occurrences_in x groups ≡ 1
  pub none_empty : any is_empty groups ≡ false
  pub only_nodes : (x y : String) → AreGrouped x y groups → IsNode nodes x × IsNode nodes y

connected_components-go :
    (doubles : Doubles) (fuel : ℕ) (node_ids : List String) (edges : List (Edge doubles))
    (threshold : doubles.Double) (forest : Forest) (groups : Groups)
    → join_edges doubles (nodes_of node_ids) threshold fuel (forest_of (nodes_of node_ids)) edges
      ≡ some forest
    → group_nodes fuel forest.parent (nodes_of node_ids) [] ≡ some groups
    → connected_components doubles fuel node_ids edges threshold
      ≡ some (sort_groups (values groups))
unfolding connected_components sort_groups
connected_components-go doubles fuel node_ids edges threshold forest groups e f =
    rw (connected_components, e, f) refl

-- With fuel above the number of edges, the grouping returns; every node stands in the groups
-- exactly once, the groups hold only nodes and none is empty, and two nodes stand in one group
-- exactly if a path of the edges that are not skipped joins them.
pub connected_components-IsPartition :
    (doubles : Doubles) (fuel : ℕ) (node_ids : List String) (edges : List (Edge doubles))
    (min_edge_weight : doubles.Double)
    → length edges < fuel
    → IsPartition
        (nodes_of node_ids)
        (links_of doubles (nodes_of node_ids) min_edge_weight edges)
        (connected_components doubles fuel node_ids edges min_edge_weight)
connected_components-IsPartition doubles fuel node_ids edges threshold h =
    let nodes = nodes_of node_ids in
    let ends =
      join_edges-Ends doubles nodes threshold edges fuel (forest_of nodes) (λ x. x) 0 []
        (forest_of-Implements nodes) Represents-none (omega arith) in
    let adds =
      group_nodes-Adds nodes ends.root fuel nodes ends.forest'.parent [] ends.implements ends.below
        (AllNodes-self nodes) tt in
    record {
      groups = sort_groups (values adds.after);
      returns =
          connected_components-go doubles fuel node_ids edges threshold ends.forest' adds.after
            ends.returns adds.returns;
      components = λ x y n m.
          let sorted = any-sort_groups (together x y) (values adds.after) in
          let by_root =
            AreGrouped-iff_root nodes ends.root x y adds.after adds.keyed (adds.placed x n)
              (adds.placed y m) in
          let by_path = Represents-iff x y ends.represents in
          (λ g. by_path.0 (by_root.0 (sym sorted ∙ g)), λ c. sorted ∙ by_root.1 (by_path.1 c));
      once = λ x n. omega (
        arith,
        occurrences_in-sort_groups x (values adds.after),
        adds.counts x,
        nodes_of-once x node_ids n,
      );
      none_empty = any-sort_groups is_empty (values adds.after) ∙ adds.filled refl;
      only_nodes = λ x y g.
          AreGrouped-IsNode nodes ends.root x y adds.after adds.keyed
            (sym (any-sort_groups (together x y) (values adds.after)) ∙ g);
    }
