-- ===== src/Handler.antt =====
-- pkg/clusterhandler/clusterhandler.go: the handler's state, and what it sends.
-- A goroutine that a method starts, and a message that it puts on a channel, is an `Effect`; the
-- effects of a state are in the order in which the code causes them.
pub mod Start
pub mod Down
pub mod Up
pub mod Connect
use ote_stack.Prelude.{
  ℕ, String, Bool, true, false, Option, none, some, List, [], ◌∷◌, ◌++◌, map, Result, ok, err,
  marshal_failed, no_controller, if◌then◌else◌,
}
use ote_stack.Message.{Bytes, ClusterMessage, Codec, is_root_name}
use ote_stack.Router.{ClusterRouter}

-- The part of `ClusterControllerConfig` that the handlers read; `k8s_client` says that it is not nil.
pub record Config : Type 0 where
  pub tunnel_listen_addr : String
  pub parent_cluster : String
  pub cluster_name : String
  pub cluster_user_define_name : String
  pub remote_shim_addr : String
  pub k8s_client : Bool

-- `clusterHandler`
pub record Handler : Type 0 where
  pub conf : Config
  pub k8s_enable : Bool
  pub root_cluster_enable : Bool

pub data Effect : Type 0 where
  -- `go c.tunn.Send(to, data)` and `go c.tunn.Broadcast(data)`
  send : String → Bytes → Effect
  broadcast : Bytes → Effect
  -- `ClusterToEdgeChan`, `RootClusterToEdgeChan`, `EdgeToClusterChan`
  to_parent : ClusterMessage → Effect
  to_root_edge : ClusterMessage → Effect
  from_edge : ClusterMessage → Effect
  -- `c.tunn.SendToControllerManager(data)`
  to_manager : Bytes → Effect
  -- `go c.handleMessageFromChild(name, data)`
  handle_later : String → Bytes → Effect

-- The state that the handler shares: the router, the apiserver, and the effects so far.
pub record State (Server : Type 0) : Type 0 where
  pub router : ClusterRouter
  pub server : Server
  pub effects : List Effect

-- `isRoot`
abbrev pub is_root : Handler → Bool
is_root h = is_root_name h.conf.cluster_user_define_name

module _ {Server : Type 0} where
  abbrev pub emit : List Effect → State Server → State Server
  emit es s = record s { effects = s.effects ++ es }

  -- `transmitToParent`
  unfoldable pub transmit_to_parent : ClusterMessage → State Server → State Server
  transmit_to_parent msg s = emit (to_parent msg ∷ []) s

  -- `sendToChild`: to the named children, or to all if none is named.
  unfoldable pub send_to_child :
      Codec ClusterMessage → Option ClusterMessage → List String → State Server → State Server
  send_to_child proto none tos s = s
  send_to_child proto (some msg) tos s = elim (proto.marshal msg) [
    | none ↦ s
    | some data' ↦
        emit
          (elim tos [
            | [] ↦ broadcast data' ∷ []
            | to ∷ rest ↦ map (λ name. send name data') (to ∷ rest)
          ])
          s
  ]

  -- `sendToControllerManager`; `reach data` says whether the tunnel got the data to a controller.
  unfoldable pub send_to_controller_manager :
      Codec ClusterMessage
      → (Bytes → Bool)
      → ClusterMessage
      → State Server
      → Result (Unit {0}) × State Server
  send_to_controller_manager proto reach msg s = elim (proto.marshal msg) [
    | none ↦ (err marshal_failed, s)
    | some data' ↦
        if reach data' then (ok tt, emit (to_manager data' ∷ []) s) else (err no_controller, s)
  ]
