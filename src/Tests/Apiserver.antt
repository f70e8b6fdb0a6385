-- ===== src/Tests/Apiserver.antt =====
-- The root's apiserver, with one cluster and one clustercontroller.
use ote_stack.Prelude.{ℕ, [], ◌∷◌, arith}
use ote_stack.Message.{cluster_unregist, control_resp, ControllerTaskResponse, MessageHead, head_of}
use ote_stack.Crd.{ClusterController, ClusterControllerStatus, cluster_namespace}
use ote_stack.Crd.Clock.{NotBefore}
use ote_stack.Wire.{Wire}
use ote_stack.Handler.Up.{handle_message_from_child}
use ote_stack.Handler.Up.Timestamps.{handle_message_from_child-NotBefore}
use ote_stack.Tests.Codecs.{mute_wire, reads}
use ote_stack.Tests.Server.{one_slot, one_slot-Reliable}
use ote_stack.Tests.Cluster.{handler, reach, hook_wire, state}

handle_message_from_child-NotBefore_example : NotBefore 3 (
    one_slot.get_cluster cluster_namespace "e"
      (handle_message_from_child
        (hook_wire "e" cluster_unregist)
        one_slot
        reach
        (handler "root")
        9
        "e"
        (1 ∷ [])
        state).1.server)
handle_message_from_child-NotBefore_example =
    handle_message_from_child-NotBefore (hook_wire "e" cluster_unregist) one_slot reach
      one_slot-Reliable cluster_namespace "e" 3 (handler "root") 9 "e" (1 ∷ []) state (omega arith)

abbrev responded : ℕ → ClusterControllerStatus
responded time = record { timestamp = time; status_code = 200; body = [] }

abbrev response : ControllerTaskResponse
response = record { timestamp = 4; status_code = 200; body = [] }

abbrev response_wire : Wire
response_wire = record mute_wire { response = reads response }

abbrev response_head : MessageHead
response_head = record (head_of control_resp) { message_id = "task"; cluster_name = "a" }

abbrev pub controller : ClusterController
controller = record {
  name = "task";
  namespace = cluster_namespace;
  created = 1;
  spec = record {
    parent_cluster_name = "root";
    cluster_selector = "a";
    destination = "api";
    method = "GET";
    url = "/pods";
    body = [];
  };
  status = ("a", responded 7) ∷ ("b", responded 2) ∷ [];
}
