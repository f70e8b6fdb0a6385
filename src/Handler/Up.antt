-- ===== src/Handler/Up.antt =====
-- Messages on the way up the tree: what a child sends, and what its connection causes.
pub mod Subtree
pub mod Registration
pub mod Merge
pub mod Response
pub mod Dispatch
pub mod Timestamps
use ote_stack.Prelude.{
  ℕ, String, Bool, true, false, Option, none, some, List, [], ◌∷◌, Result, ok, err,
  unmarshal_failed, head_missing, no_registry, nil_dereference, if◌then◌else◌, ◌==◌, ltb, elem,
  is_some,
}
use ote_stack.Maps.{Map, lookup, insert, keys}
use ote_stack.Message.{
  Bytes, Codec, CommandType, cluster_regist, cluster_unregist, subtree_route, control_resp,
  MessageHead, ClusterMessage, ClusterRegistry, ControllerTaskResponse, wrapper_to_cluster_message,
  serialize,
}
use ote_stack.Router.{
  ClusterRouter, add_route, del_route, add_child, del_child, subtree_of_port, subtree_from_message,
}
use ote_stack.Crd.{
  Api, Cluster, ClusterStatus, ClusterController, ClusterControllerStatus, cluster_namespace,
  online, offline, update_status,
}
use ote_stack.Wire.{Wire}
use ote_stack.Handler.{
  Config, Handler, Effect, State, handle_later, emit, is_root, transmit_to_parent, send_to_child,
  send_to_controller_manager,
}
use ote_stack.Handler.Down.{named_head}

-- `getClusterFromClusterRegistry`
abbrev pub cluster_of : ClusterRegistry → Cluster
cluster_of cr = record {
  name = cr.name;
  namespace = cluster_namespace;
  spec_name = cr.user_define_name;
  status = record {
    listen = cr.listen;
    parent_name = cr.parent_name;
    status = "";
    timestamp = cr.time;
    capacity = [];
    allocatable = [];
  };
}

-- One round of the first loop of `updateRouteToSubtree`: an error is logged and passed over.
unfoldable pub try_route : String → String → ClusterRouter → ClusterRouter
try_route to port r = elim (add_route to port r) [ ok r' ↦ r' | err e ↦ r ]

add_routes : List String → String → ClusterRouter → ClusterRouter
unfolding try_route
add_routes [] port r = r
add_routes (to ∷ rest) port r = add_routes rest port (try_route to port r)

-- One round of the second loop: what the child no longer lists goes.
unfoldable pub drop_route : String → Map String → String → ClusterRouter → ClusterRouter
drop_route c subtrees port r = if is_some (lookup c subtrees) then r else del_route c port r

del_routes : List String → Map String → String → ClusterRouter → ClusterRouter
unfolding drop_route
del_routes [] subtrees port r = r
del_routes (c ∷ rest) subtrees port r = del_routes rest subtrees port (drop_route c subtrees port r)

-- `updateRouteToSubtree`, for a subtree that could be read.
unfoldable pub update_routes : Map String → String → ClusterRouter → ClusterRouter
unfolding add_routes del_routes
update_routes subtrees port r =
    let r' = add_routes (keys subtrees) port r in
    del_routes (subtree_of_port port r') subtrees port r'

-- The loop of `mergeToApiserver` for the one status of a response: the newer one stays.
unfoldable pub merge_status :
    String → ClusterControllerStatus → Map ClusterControllerStatus → Map ClusterControllerStatus
merge_status cn status m = elim (lookup cn m) [
  | none ↦ insert cn status m
  | some origin ↦ if ltb origin.timestamp status.timestamp then insert cn status m else m
]

module _ (wire : Wire) (api : Api) (reach : Bytes → Bool) where
  open api use {Server, get_cluster, create_cluster, get_controller, update_controller}

  -- `createOrUpdateCluster`; `now` is the clock.
  unfoldable pub create_or_update_cluster :
      ℕ → Cluster → State Server → Result (Unit {0}) × State Server
  create_or_update_cluster now cluster s =
      elim (get_cluster cluster.namespace cluster.name s.server) [
        | none ↦
            let status = record (cluster.status) { status = online; timestamp = now } in
            (
              ok tt,
              record s { server = create_cluster (record cluster { status = status }) s.server },
            )
        | some old ↦
            let status = record (old.status) {
              status = online;
              timestamp = cluster.status.timestamp;
              listen = cluster.status.listen;
              parent_name = cluster.status.parent_name;
            } in
            let (result, t) = update_status api (record old { status = status }) s.server in
            (result, record s { server = t })
      ]

  -- `handleRegistClusterMessage`
  unfoldable pub handle_regist :
      Handler → ℕ → String → ClusterMessage → State Server → Result (Unit {0}) × State Server
  handle_regist h now client msg s = elim (wire.registry.unmarshal msg.body) [
    | none ↦ (err no_registry, s)
    | some cr ↦ elim (add_route cr.name client s.router) [
      | err e ↦ (err e, s)
      | ok r ↦
          let s' : State Server = record s { router = r } in
          if is_root h
          then create_or_update_cluster now (cluster_of cr) s'
          else (ok tt, transmit_to_parent msg s')
    ]
  ]

  -- The end of `handleUnregistClusterMessage` at the root: an unknown cluster is no error.
  pub go_offline : ClusterRegistry → State Server → Result (Unit {0}) × State Server
  go_offline cr s = elim (get_cluster cluster_namespace cr.name s.server) [
    | none ↦ (ok tt, s)
    | some old ↦
        let status = record (old.status) { status = offline; timestamp = cr.time } in
        let (result, t) = update_status api (record old { status = status }) s.server in
        (result, record s { server = t })
  ]

  -- `handleUnregistClusterMessage`
  unfoldable pub handle_unregist :
      Handler → String → ClusterMessage → State Server → Result (Unit {0}) × State Server
  unfolding go_offline
  handle_unregist h client msg s = elim (wire.registry.unmarshal msg.body) [
    | none ↦ (err no_registry, s)
    | some cr ↦
        let s' : State Server = record s { router = del_route cr.name client s.router } in
        if is_root h then go_offline cr s' else (ok tt, transmit_to_parent msg s')
  ]

  -- `mergeToApiserver`, for a control response. A body that is no response leaves a nil status,
  -- which `clusterMessageToClusterControllerCRD` dereferences.
  unfoldable pub merge_to_apiserver :
      MessageHead → Bytes → State Server → Result (Unit {0}) × State Server
  unfolding merge_status
  merge_to_apiserver head body s = elim (wire.response.unmarshal body) [
    | none ↦ (err nil_dereference, s)
    | some resp ↦
        let status : ClusterControllerStatus = record {
          timestamp = resp.timestamp;
          status_code = resp.status_code;
          body = resp.body;
        } in
        elim (get_controller cluster_namespace head.message_id s.server) [
          | none ↦ (ok tt, s)
          | some origin ↦
              let new = record origin {
                status = merge_status head.cluster_name status origin.status;
              } in
              (ok tt, record s { server = update_controller new s.server })
        ]
  ]

  -- A message of another kind, at the root: the error of a response is that of its merge.
  pub respond :
      CommandType
      → MessageHead
      → ClusterMessage
      → Result (Unit {0}) × State Server
      → Result (Unit {0}) × State Server
  unfolding merge_to_apiserver
  respond control_resp head msg sent = merge_to_apiserver head msg.body sent.1
  respond _ head msg sent = sent

  pub report : MessageHead → ClusterMessage → State Server → Result (Unit {0}) × State Server
  unfolding respond
  report head msg s =
      respond head.command head msg (send_to_controller_manager wire.message reach msg s)

  -- `updateRouteToSubtree`; the handler drops its error.
  unfoldable pub update_route_to_subtree :
      MessageHead → ClusterMessage → State Server → State Server
  update_route_to_subtree head msg s = elim (subtree_from_message wire.subtree msg) [
    | none ↦ s
    | some subtrees ↦ record s { router = update_routes subtrees head.cluster_name s.router }
  ]

  -- At the root a copy of a registration goes to a controller manager; the error is overwritten.
  pub tell_manager : Handler → ClusterMessage → State Server → State Server
  tell_manager h msg s =
      if is_root h then (send_to_controller_manager wire.message reach msg s).1 else s

  -- The switch of `handleMessageFromChild`.
  unfoldable pub dispatch :
      Handler
      → ℕ
      → String
      → CommandType
      → MessageHead
      → ClusterMessage
      → State Server
      → Result (Unit {0}) × State Server
  unfolding report tell_manager
  dispatch h now client cluster_regist head msg s =
      handle_regist h now client msg (tell_manager h msg s)
  dispatch h now client cluster_unregist head msg s =
      handle_unregist h client msg (tell_manager h msg s)
  dispatch h now client subtree_route head msg s = (ok tt, update_route_to_subtree head msg s)
  dispatch h now client _ head msg s =
      if is_root h then report head msg s else (ok tt, transmit_to_parent msg s)

  -- `handleMessageFromChild`
  unfoldable pub handle_message_from_child :
      Handler → ℕ → String → Bytes → State Server → Result (Unit {0}) × State Server
  unfolding dispatch
  handle_message_from_child h now client data' s = elim (wire.message.unmarshal data') [
    | none ↦ (err unmarshal_failed, s)
    | some msg ↦ elim msg.head [
      | none ↦ (err head_missing, s)
      | some head ↦
          let named = named_head h head in
          dispatch h now client named.command named (record msg { head = some named }) s
    ]
  ]
