-- ===== src/Namespaces.antt =====
-- pkg/controller/util.go, namespace/namespace_controller.go and clustercrd/clustercrd_controller.go:
-- the namespaces of the center, sent to the clusters as tasks.
pub mod Everywhere
use ote_stack.Prelude.{
  String, Option, none, some, List, [], ◌∷◌, Result, ok, err, marshal_failed, not_found,
}
use ote_stack.Maps.{Map}
use ote_stack.Message.{
  Bytes, Codec, ClusterMessage, MessageHead, ControllerTask, ControlMultiTask, control_req,
  control_multi_req, head_of, controller_task_message, control_multi_task_message,
}
use ote_stack.Crd.{Cluster}

-- `oteNamespace`
pub record OteNamespace : Type 0 where
  pub kind : String
  pub api_version : String
  pub metadata : Map String

-- The namespace object of `SerializeNamespaceObject`
abbrev pub ote_namespace : String → OteNamespace
ote_namespace name = record {
  kind = "Namespace";
  api_version = "v1";
  metadata = ("name", name) ∷ [];
}

-- `SerializeNamespaceObject`
unfoldable pub serialize_namespace_object : Codec OteNamespace → String → Option Bytes
serialize_namespace_object json name = json.marshal (ote_namespace name)

-- The task of `sendNamespaceToCluster`, for the apiserver of a cluster
abbrev pub namespace_task : Bytes → ControllerTask
namespace_task body = record {
  destination = "api";
  method = "POST";
  uri = "/api/v1/namespaces";
  body = body;
}

-- Its head, without a selector
abbrev pub namespace_head : MessageHead
namespace_head = head_of control_req

sent_namespace : Codec ControllerTask → Option Bytes → Result ClusterMessage
sent_namespace task none = err marshal_failed
sent_namespace task (some body) = controller_task_message task (namespace_task body) namespace_head

-- `sendNamespaceToCluster`: the message that it sends, or the error.
unfoldable pub send_namespace_to_cluster :
    Codec OteNamespace → Codec ControllerTask → String → Result ClusterMessage
unfolding sent_namespace
send_namespace_to_cluster json task name =
    sent_namespace task (serialize_namespace_object json name)

-- The loop of `sendNamespaceToNewCluster`: a namespace that cannot be written is left out.
unfoldable pub namespace_bodies : Codec OteNamespace → List String → List Bytes
namespace_bodies json [] = []
namespace_bodies json (name ∷ names) =
    let rest = namespace_bodies json names in
    elim (serialize_namespace_object json name) [ none ↦ rest | some body ↦ body ∷ rest ]

-- `sendNamespaceToNewCluster`; the list of the namespaces is none where it cannot be read.
unfoldable pub send_namespace_to_new_cluster :
    Codec OteNamespace
    → Codec ControlMultiTask
    → Option (List String)
    → Cluster
    → Result ClusterMessage
unfolding namespace_bodies
send_namespace_to_new_cluster json multi_task none cluster = err not_found
send_namespace_to_new_cluster json multi_task (some names) cluster =
    control_multi_task_message multi_task
      (record {
        destination = "api";
        method = "POST";
        uri = "/api/v1/namespaces";
        body = namespace_bodies json names;
      })
      (record (head_of control_multi_req) { cluster_selector = cluster.spec_name })
