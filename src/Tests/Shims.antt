-- ===== src/Tests/Shims.antt =====
-- A cluster `a` whose apiserver answers 200 to the tasks that it gets.
use ote_stack.Prelude.{
  String, ◌≡◌, refl, Bool, true, some, List, [], ◌∷◌, ok, arith, Fault, ◌==◌, eq_refl, none,
}
use ote_stack.Maps.{Map, lookup}
use ote_stack.Message.{Bytes, control_req, MessageHead, ClusterMessage, ControllerTask, head_of}
use ote_stack.Crd.{ClusterController, cluster_namespace}
use ote_stack.Wire.{Wire}
use ote_stack.Selector.{new_selector, has}
use ote_stack.Selector.Tests.{new_selector_example}
use ote_stack.Handler.{State}
use ote_stack.Handler.Up.{handle_message_from_child}
use ote_stack.Handler.Up.Response.{Merged}
use ote_stack.Edge.{to_cluster, to_tunnel, receive_message_from_tunnel}
use ote_stack.Shim.{Request, Answer, TaskHandler, k8s_handler, as_response}
use ote_stack.Shim.Client.{local_client}
use ote_stack.Shim.Server.{ShimServer, new_shim_server}
use ote_stack.Shim.Signals.{Event, closes, connects, sends}
use ote_stack.Shim.Recorded.{Task, response_of, task_recorded}
use ote_stack.Tests.Codecs.{
  mute_wire, reads, two, two-RoundTrips, two-marshal, message_discrete, only, only-marshal,
  only-RoundTrips, response_discrete,
}
use ote_stack.Tests.Server.{one_slot, Slots}
use ote_stack.Tests.Cluster.{config, handler, reach, state, stored}
use ote_stack.Tests.Apiserver.{controller}

-- The state is the requests that the apiserver has got.
abbrev serve : Request → List Request → Answer × List Request
serve r s = (record { status_code = 200; raw = 6 ∷ [] }, r ∷ s)

abbrev task : ControllerTask
task = record { destination = "api"; method = "PATCH"; uri = "/pods"; body = 4 ∷ [] }

abbrev head : MessageHead
head = record (head_of control_req) { message_id = "task"; cluster_selector = "a, b,x" }

abbrev msg : ClusterMessage
msg = record { head = some head; body = 3 ∷ [] }

abbrev answer : Answer
answer = record { status_code = 200; raw = 6 ∷ [] }

abbrev reply : ClusterMessage
reply = record { head = some (record (as_response head) { cluster_name = "a" }); body = 7 ∷ [] }

abbrev wire : Wire
wire = record mute_wire {
  message = two message_discrete msg reply;
  task = reads task;
  response = only response_discrete (response_of 9 answer) (7 ∷ []);
}

abbrev handlers : Map (TaskHandler (List Request))
handlers = ("api", k8s_handler wire 9 serve) ∷ []

abbrev matches : String → String → Bool
matches p name = p == name

abbrev text : Fault → Bytes
text fault = 8 ∷ []

abbrev room : Bytes → Bool
room b = true

a_selected : has matches (new_selector "a, b,x") "a" ≡ true
unfolding has
a_selected = rw new_selector_example refl

patch_task :
    Task wire (config "a") matches 9 serve handlers [] msg head task (1 ∷ []) (7 ∷ []) (2 ∷ [])
unfolding lookup
patch_task = record {
  carried = refl;
  headed = refl;
  command = refl;
  selected = a_selected;
  read = refl;
  known = refl;
  method = refl;
  wrote = only-marshal response_discrete (response_of 9 answer) (7 ∷ []);
  sent = two-marshal message_discrete msg reply;
}

abbrev root : State Slots
root = record state { server = (some stored, some controller) }

task_recorded_example :
    let (result, root') =
      handle_message_from_child wire one_slot reach (handler "root") 11 "a" (2 ∷ []) root in
    (receive_message_from_tunnel wire
        (local_client wire text 9 handlers [])
        room
        (config "a")
        matches
        9
        (1 ∷ [])
      ≡ (ok tt, to_cluster msg ∷ to_tunnel (2 ∷ []) ∷ []))
    × (result ≡ ok tt)
    × ((new : ClusterController) × (one_slot.get_controller cluster_namespace "task" root'.server
          ≡ some new)
        × Merged "a" (response_of 9 answer) controller new)
task_recorded_example =
    task_recorded wire (config "a") matches 9 serve handlers [] msg head task (1 ∷ []) (7 ∷ [])
      (2 ∷ []) patch_task text room refl one_slot reach (handler "root") 11 "a" controller root
      (two-RoundTrips message_discrete msg reply)
      (only-RoundTrips response_discrete (response_of 9 answer) (7 ∷ []))
      (λ c t. ground (arith, eq_refl c.namespace, eq_refl c.name)) refl refl refl refl

-- The same task, by a shim server whose connection is 5
abbrev server : ShimServer (List Request)
server = record (new_shim_server []) {
  ccclient = some 5;
  cluster_name = "a";
  is_connected = true ∷ [];
}

abbrev made : ClusterMessage
made = record { head = some (as_response head); body = 7 ∷ [] }

abbrev remote_wire : Wire
remote_wire = record wire { message = two message_discrete msg made }

abbrev remote_handlers : Map (TaskHandler (List Request))
remote_handlers = ("api", k8s_handler remote_wire 9 serve) ∷ []

abbrev events : List Event
events =
    closes ∷ connects "b" none ∷ connects "c" (some 6) ∷ sends msg true ∷ connects "d" (some 7) ∷ []
