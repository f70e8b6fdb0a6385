-- ===== src/Handler/Connect.antt =====
-- What a child's connection does: the hooks that the cloud tunnel calls, and the child queue.
pub mod Lifecycle
pub mod Queue
use ote_stack.Prelude.{
  ℕ, String, Bool, true, false, Option, none, some, List, [], ◌∷◌, ◌++◌, Result, ok, err,
  channel_full, if◌then◌else◌, elem, length, ltb,
}
use ote_stack.Maps.{Map, keys}
use ote_stack.Message.{
  Bytes, Codec, CommandType, cluster_regist, cluster_unregist, ClusterMessage, ClusterRegistry,
  wrapper_to_cluster_message, serialize, root_cluster_name,
}
use ote_stack.Router.{ClusterRouter, add_child, del_child}
use ote_stack.Crd.{Api}
use ote_stack.Wire.{Wire}
use ote_stack.Handler.{Config, Handler, State, handle_later, emit, send_to_child}
use ote_stack.Handler.Up.{handle_message_from_child}

-- The capacity of `ChildMessageChan`
abbrev pub child_message_cap : ℕ
child_message_cap = 10000

-- `handleMessageFromCloudTunnel`: a full channel refuses the message.
unfoldable pub handle_message_from_cloud_tunnel :
    String → Bytes → List (String × Bytes) → Result (List (String × Bytes))
handle_message_from_cloud_tunnel client data' queue =
    if ltb (length queue) child_message_cap
    then ok (queue ++ (client, data') ∷ [])
    else err channel_full

-- `isInParentPool`
unfoldable pub is_in_parent_pool : String → ClusterRouter → Bool
is_in_parent_pool name r = elim r.parent_neighbor [ none ↦ false | some m ↦ elem name (keys m) ]

-- `WrapperToClusterMessage` and `Serialize`, as the two hooks chain them.
unfoldable pub registry_bytes : Wire → CommandType → ClusterRegistry → Option Bytes
registry_bytes wire command cr = elim (wrapper_to_cluster_message wire.registry cr command) [
  | err e ↦ none
  | ok msg ↦ elim (serialize wire.message msg) [ err e ↦ none | ok b ↦ some b ]
]

module _ (wire : Wire) {Server : Type 0} where
  -- `checkClusterName`, for a registry that is not nil.
  unfoldable pub check_cluster_name : Handler → ClusterRegistry → State Server → Bool × State Server
  unfolding is_in_parent_pool registry_bytes
  check_cluster_name h cr s =
      let named = record cr { parent_name = h.conf.cluster_name } in
      if is_in_parent_pool cr.name s.router
      then (false, s)
      else elim (registry_bytes wire cluster_regist named) [
        | none ↦ (false, s)
        | some b ↦ (true, emit (handle_later cr.name b ∷ []) s)
      ]

  -- `afterClusterConnect`; an error of `AddChild` is dropped.
  unfoldable pub after_cluster_connect : ClusterRegistry → State Server → State Server
  after_cluster_connect cr s = elim (add_child wire.neighbors cr.name cr.listen s.router) [
    | err e ↦ s
    | ok (r, note) ↦ send_to_child wire.message note [] (record s { router = r })
  ]

  -- `closeChild`, for a registry that is not nil.
  unfoldable pub close_child : Handler → ClusterRegistry → State Server → State Server
  unfolding registry_bytes
  close_child h cr s =
      let named = record cr { parent_name = h.conf.cluster_name } in
      let (r, note) = del_child wire.neighbors cr.name s.router in
      let s' = send_to_child wire.message note [] (record s { router = r }) in
      elim (registry_bytes wire cluster_unregist named) [
        | none ↦ s'
        | some b ↦ emit (handle_later cr.name b ∷ []) s'
      ]

-- One round of `handleMessageFromEdgeHandler`.
unfoldable pub handle_message_from_edge_handler :
    (wire : Wire) (api : Api)
    → (Bytes → Bool)
    → Handler
    → ℕ
    → ClusterMessage
    → State api.Server
    → State api.Server
handle_message_from_edge_handler wire api reach h now msg s = elim (wire.message.marshal msg) [
  | none ↦ s
  | some b ↦ (handle_message_from_child wire api reach h now root_cluster_name b s).1
]
