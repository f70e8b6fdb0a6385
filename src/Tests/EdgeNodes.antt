-- ===== src/Tests/EdgeNodes.antt =====
-- A controller of one edge node, which is cut off.
use ote_stack.Prelude.{Bool-cases, inl, inr, none, List, [], ◌∷◌, Bool-cases, inl, inr}
use ote_stack.EdgeNode.{EdgeNode, Controller, NodeEvent, on_add, on_update}
use ote_stack.EdgeNode.Shown.{Shown}
use ote_stack.Tests.Client.{one_object}
use ote_stack.Tests.Reports.{node_of}

abbrev idle : Controller one_object
idle = record { server = none; update_node_map = [] }

abbrev cut_off : List NodeEvent
cut_off =
    on_add (node_of "Unknown" "1") ∷ on_update (node_of "Unknown" "1") (node_of "True" "1") ∷ []
