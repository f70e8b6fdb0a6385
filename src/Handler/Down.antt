-- ===== src/Handler/Down.antt =====
-- Messages on the way down the tree: from the parent, from a controller manager, from the
-- apiserver's clustercontroller resources, and from the root's edge handler.
pub mod Directed
use ote_stack.Prelude.{
  ◌≡◌, arith, ℕ, String, Bool, true, false, Option, none, some, List, [], ◌∷◌, keep, Result, ok,
  err, unmarshal_failed, head_missing, if◌then◌else◌, ◌==◌, ltb, ◌+◌, is_empty, ◌&&◌,
}
use ote_stack.Maps.{Map, lookup, insert, keys}
use ote_stack.Message.{
  Bytes, Codec, CommandType, neighbor_route, control_req, MessageHead, ClusterMessage,
  ControllerTask,
}
use ote_stack.Selector.{new_selector, clusters_to_selector, has}
use ote_stack.Router.{ClusterRouter, subtree_clusters, ports_to_subtree_clusters, update_router}
use ote_stack.Crd.{ClusterController}
use ote_stack.Wire.{Wire}
use ote_stack.Handler.{Config, Handler, Effect, State, to_root_edge, from_edge, emit, send_to_child}

-- One message for each port, with the selector of the clusters behind it.
port_messages : MessageHead → Bytes → Map (List String) → Map ClusterMessage
port_messages head body [] = []
port_messages head body ((port, subtree) ∷ rest) =
    (
      port,
      record {
        head = some (record head { cluster_selector = clusters_to_selector subtree });
        body = body;
      },
    )
    ∷ port_messages head body rest

-- `selectChild`, for a message with a head.
unfoldable pub select_child :
    (String → String → Bool) → MessageHead → Bytes → ClusterRouter → Map ClusterMessage
unfolding port_messages
select_child matches head body r =
    let patterns = new_selector head.cluster_selector in
    let selected = keep (has matches patterns) (subtree_clusters r) in
    port_messages head body (ports_to_subtree_clusters selected r)

-- `hasToProcessClusterController`: created within the last hour, and without a response.
unfoldable pub has_to_process : ClusterController → ℕ → Bool
has_to_process crd now = ltb now (crd.created + 3600) && is_empty crd.status

-- `clusterControllerCRDToClusterMessage` for a control request; a failed marshal leaves no body.
unfoldable pub controller_message : Wire → ClusterController → MessageHead × Bytes
controller_message wire crd =
    let task : ControllerTask = record {
      destination = crd.spec.destination;
      method = crd.spec.method;
      uri = crd.spec.url;
      body = crd.spec.body;
    } in
    (
      record {
        message_id = crd.name;
        command = control_req;
        cluster_selector = crd.spec.cluster_selector;
        cluster_name = "";
        parent_cluster_name = crd.spec.parent_cluster_name;
      },
      elim (wire.task.marshal task) [ none ↦ [] | some b ↦ b ],
    )

-- A message without a parent's name gets the name of this cluster.
unfoldable pub named_head : Handler → MessageHead → MessageHead
named_head h head =
    if head.parent_cluster_name == ""
    then record head { parent_cluster_name = h.conf.cluster_name }
    else head

pub command-named_head :
    (h : Handler) (head : MessageHead) → (named_head h head).command ≡ head.command
unfolding named_head
command-named_head h head = ground arith

module _ (wire : Wire) (matches : String → String → Bool) {Server : Type 0} where
  send_selected : Map ClusterMessage → State Server → State Server
  send_selected [] s = s
  send_selected ((port, msg) ∷ rest) s =
      send_selected rest (send_to_child wire.message (some msg) (port ∷ []) s)

  -- The notifier of `UpdateRouter`: each message goes to all children.
  notify : List (Option ClusterMessage) → State Server → State Server
  notify [] s = s
  notify (note ∷ rest) s = notify rest (send_to_child wire.message note [] s)

  directed : MessageHead → Bytes → State Server → State Server
  unfolding send_selected
  directed head body s = send_selected (select_child matches head body s.router) s

  from_parent : CommandType → MessageHead → ClusterMessage → State Server → State Server
  unfolding notify directed
  from_parent neighbor_route head msg s =
      let (r, notes) = update_router wire.neighbors msg s.router in
      notify notes (record s { router = r })
  from_parent _ head msg s = directed head msg.body s

  -- One round of `handleMessageFromParent`. Reading the command of a nil head panics: `none`.
  unfoldable pub handle_message_from_parent : ClusterMessage → State Server → Option (State Server)
  unfolding from_parent
  handle_message_from_parent msg s = elim msg.head [
    | none ↦ none
    | some head ↦ some (from_parent head.command head msg s)
  ]

  -- `addClusterController`
  unfoldable pub add_cluster_controller :
      Handler → ClusterController → ℕ → State Server → State Server
  unfolding controller_message directed
  add_cluster_controller h crd now s =
      let named = record crd {
        spec = record (crd.spec) { parent_cluster_name = h.conf.cluster_name };
      } in
      let (head, body) = controller_message wire named in
      if has_to_process crd now
      then (if h.root_cluster_enable
          then emit (to_root_edge (record { head = some head; body = body }) ∷ []) s
          else directed head body s)
      else s

  -- `controllerMsgHandler`
  unfoldable pub controller_msg_handler :
      Handler → Bytes → State Server → Result (Unit {0}) × State Server
  unfolding named_head
  controller_msg_handler h data' s = elim (wire.message.unmarshal data') [
    | none ↦ (err unmarshal_failed, s)
    | some msg ↦ elim msg.head [
      | none ↦ (err head_missing, s)
      | some head ↦
          let msg' : ClusterMessage = record msg { head = some (named_head h head) } in
          (
            ok tt,
            emit (if h.root_cluster_enable then to_root_edge msg' ∷ [] else from_edge msg' ∷ []) s,
          )
    ]
  ]
