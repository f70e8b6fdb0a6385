-- ===== src/Tests/Edges.antt =====
-- Messages between a cluster and its child `a`.
use ote_stack.Prelude.{String, ◌≡◌, refl, Bool, true, none, some, [], ◌∷◌, ok, arith, ◌==◌}
use ote_stack.Maps.{lookup, keys}
use ote_stack.Message.{
  Bytes, subtree_route, control_req, MessageHead, ClusterMessage, ControllerTaskResponse, head_of,
}
use ote_stack.Selector.{new_selector, has}
use ote_stack.Selector.Laws.{AllNames}
use ote_stack.Selector.Tests.{new_selector_example, a_IsName, b_IsName}
use ote_stack.Router.{ClusterRouter, new_router, subtree_clusters, subtree_message}
use ote_stack.Router.Routes.{route}
use ote_stack.Wire.{Wire}
use ote_stack.Handler.Down.{select_child}
use ote_stack.Handler.Down.Directed.{
  narrowed, selected_via, SameTask, lookup-select_child, select_child_complete,
}
use ote_stack.Handler.Up.{handle_message_from_child}
use ote_stack.Edge.{
  Shim, to_tunnel, to_cluster, handle_message, receive_message_from_tunnel, report_subtree,
  send_to_parent,
}
use ote_stack.Edge.Report.{report_subtree_synchronizes}
use ote_stack.Edge.Delivery.{addressed, directed_message_arrives}
use ote_stack.Tests.Codecs.{
  only, only-marshal, only-RoundTrips, mute_wire, message_discrete, subtree_discrete,
  response_discrete,
}
use ote_stack.Tests.Server.{one_slot}
use ote_stack.Tests.Routes.{table}
use ote_stack.Tests.Cluster.{config, handler, reach, state}

-- The child `a` knows itself and a new cluster `e`.
abbrev child_table : ClusterRouter
child_table = record new_router { subtree_router = ("a", "a") ∷ ("e", "e") ∷ [] }

abbrev reported_message : ClusterMessage
reported_message = record {
  head = some (record (head_of subtree_route) { cluster_name = "a" });
  body = 3 ∷ [];
}

abbrev report_wire : Wire
report_wire = record mute_wire {
  message = only message_discrete reported_message (1 ∷ []);
  subtree = only subtree_discrete child_table.subtree_router (3 ∷ []);
}

abbrev shim : Shim
shim msg = (some msg, some (8 ∷ []))

abbrev room : Bytes → Bool
room b = true

reported :
    (report_subtree report_wire shim room (config "a") child_table).1 ≡ to_tunnel (1 ∷ []) ∷ []
unfolding report_subtree subtree_message send_to_parent
reported = ground (
  arith,
  only-marshal subtree_discrete child_table.subtree_router (3 ∷ []),
  only-marshal message_discrete reported_message (1 ∷ []),
)

report_subtree_synchronizes_example :
    route "b"
      (handle_message_from_child report_wire one_slot reach
        (handler "p")
        9
        "a"
        (1 ∷ [])
        state).1.router
    ≡ none
unfolding lookup
report_subtree_synchronizes_example =
    report_subtree_synchronizes report_wire shim room (config "a") one_slot reach (handler "p") 9
      "a" child_table (1 ∷ []) state (only-RoundTrips message_discrete reported_message (1 ∷ []))
      (only-RoundTrips subtree_discrete child_table.subtree_router (3 ∷ [])) reported "b"

-- A request for `a`, `b` and `x`, by names that match themselves alone.
abbrev matches : String → String → Bool
matches p name = p == name

abbrev request : MessageHead
request = record (head_of control_req) { message_id = "task"; cluster_selector = "a, b,x" }

selected : selected_via matches (new_selector request.cluster_selector) "a" table ≡ "a" ∷ "b" ∷ []
unfolding subtree_clusters keys lookup has
selected = rw new_selector_example refl

lookup-select_child_example :
    lookup "a" (select_child matches request [] table)
    ≡ narrowed request [] (selected_via matches (new_selector request.cluster_selector) "a" table)
lookup-select_child_example = lookup-select_child matches request [] table "a"

selects : has matches (new_selector request.cluster_selector) "a" ≡ true
unfolding has
selects = rw new_selector_example refl

selects_b : has matches (new_selector request.cluster_selector) "b" ≡ true
unfolding has
selects_b = rw new_selector_example refl

names : AllNames (selected_via matches (new_selector request.cluster_selector) "a" table)
names = rw selected (a_IsName, (b_IsName, tt))

select_child_complete_example :
    (msg : ClusterMessage) × (lookup "a" (select_child matches request [] table) ≡ some msg)
    × ((head' : MessageHead) × SameTask request [] msg head'
        × (new_selector head'.cluster_selector
            ≡ selected_via matches (new_selector request.cluster_selector) "a" table)
        × (has matches (new_selector head'.cluster_selector) "b" ≡ true))
unfolding lookup
select_child_complete_example =
    select_child_complete matches request [] table "b" "a" refl selects_b refl names

abbrev sent : ClusterMessage
sent = addressed request [] (selected_via matches (new_selector request.cluster_selector) "a" table)

abbrev request_wire : Wire
request_wire = record mute_wire { message = only message_discrete sent (1 ∷ []) }

directed_message_arrives_example :
    (lookup "a" (select_child matches request [] table) ≡ some sent)
    × (receive_message_from_tunnel request_wire shim room (config "a") matches 9 (1 ∷ []) ≡ (
      ok tt,
      to_cluster sent ∷ (handle_message request_wire shim room (config "a") 9 control_req sent).1,
    ))
unfolding lookup
directed_message_arrives_example =
    directed_message_arrives request_wire shim room (config "a") matches request [] (1 ∷ []) table 9
      (only-RoundTrips message_discrete sent (1 ∷ [])) refl selects refl names
      (only-marshal message_discrete sent (1 ∷ []))

abbrev answer : ControllerTaskResponse
answer = record { timestamp = 9; status_code = 500; body = 8 ∷ [] }

abbrev answer_message : ClusterMessage
answer_message = record { head = some (record request { cluster_name = "a" }); body = 4 ∷ [] }

abbrev answer_wire : Wire
answer_wire = record mute_wire {
  message = only message_discrete answer_message (1 ∷ []);
  response = only response_discrete answer (4 ∷ []);
}
