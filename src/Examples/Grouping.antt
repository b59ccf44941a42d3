-- ===== src/Examples/Grouping.antt =====
-- A small sensor graph through libs/graph/hierarchy.py.
use s3ntinel.Prelude.{ℕ, ◌≡◌, refl, some, List, [], ◌∷◌, String, arith}
use s3ntinel.Graph.Components.{Edge, nodes_of, links_of, connected_components}
use s3ntinel.Graph.Components.Partition.{IsPartition, connected_components-IsPartition}
use s3ntinel.Examples.Inputs.{fixed_point}

abbrev sensors : List String
sensors = "oil " ∷ "fuel" ∷ "egt" ∷ "n1" ∷ "oil" ∷ "" ∷ []

abbrev edge : String → String → ℕ → Edge fixed_point
edge left right weight = record { left = left; right = right; weight = weight }

-- The third edge is too light, and no sensor of the fourth's is known.
abbrev edges : List (Edge fixed_point)
edges = edge "n1" "egt" 9 ∷ edge " fuel" "n1" 8 ∷ edge "oil" "fuel" 1 ∷ edge "oil" "flap" 9 ∷ []

known : nodes_of sensors ≡ "egt" ∷ "fuel" ∷ "n1" ∷ "oil" ∷ []
unfolding nodes_of
known = refl

components :
    connected_components fixed_point 5 sensors edges 5
    ≡ some (("egt" ∷ "fuel" ∷ "n1" ∷ []) ∷ ("oil" ∷ []) ∷ [])
unfolding connected_components
components = refl

connected_components-IsPartition_example :
    IsPartition
      (nodes_of sensors)
      (links_of fixed_point (nodes_of sensors) 5 edges)
      (connected_components fixed_point 5 sensors edges 5)
connected_components-IsPartition_example =
    connected_components-IsPartition fixed_point 5 sensors edges 5 (omega arith)
