-- ===== src/EdgeNode.antt =====
-- pkg/controller/edgenode/edgenode_controller.go: an edge node resource for every node, and the
-- nodes that the controller itself reports as ready while they are cut off.
-- The clients behind it are parameters; `patch` says which nodes' status the apiserver is sent.
pub mod Shown
pub mod Steps
use ote_stack.Prelude.{
  String, Bool, true, false, not, ◌||◌, Option, none, some, List, [], ◌∷◌, ◌++◌, Result, ok, err,
  update_rejected, not_found, if◌then◌else◌, ◌==◌, elem, keep,
}
use ote_stack.Crd.{Answer, done, conflicted, refused, cluster_namespace}
use ote_stack.Kube.{ObjectMeta, Resource, Client, Got, got, missing, failed}
use ote_stack.Reporter.Objects.{Node, NodeCondition}

-- `EdgeNode`
abbrev pub EdgeNode : Type 0
EdgeNode = Resource String String

-- `EdgeNodeReady`
abbrev pub edge_node_ready : String
edge_node_ready = "Ready"

-- `EdgeNodeNotReady`
abbrev pub edge_node_not_ready : String
edge_node_not_ready = "NotReady"

-- `EdgeControllerReady`
abbrev pub edge_controller_ready : String
edge_controller_ready = "EdgeControllerReady"

-- What the informer of the nodes says.
pub data NodeEvent : Type 0 where
  on_add on_delete : Node → NodeEvent
  on_update : Node → Node → NodeEvent

-- `GetNodeCondition`, without the index
unfoldable pub get_node_condition : List NodeCondition → String → Option NodeCondition
get_node_condition [] wanted = none
get_node_condition (c ∷ cs) wanted =
    if c.kind == wanted then some c else get_node_condition cs wanted

module _ (client : Client EdgeNode) where
  open client use {Store, get, create, update, delete}

  -- `EdgeNodeController`: the edge nodes, and `updateNodeMap`.
  pub record Controller : Type 0 where
    pub server : Store
    pub update_node_map : List String

  -- `addUpdatedNode`
  unfoldable pub add_updated_node : String → Controller → Controller
  add_updated_node name c =
      if elem name c.update_node_map
      then c
      else record c { update_node_map = name ∷ c.update_node_map }

  -- `deleteUpdatedNode`
  unfoldable pub delete_updated_node : String → Controller → Controller
  delete_updated_node name c = record c {
    update_node_map = keep (λ x. not (x == name)) c.update_node_map;
  }

  answered : Answer × Store → Result (Unit {0}) × Store
  answered (done, t) = (ok tt, t)
  answered (_, t) = (err update_rejected, t)

  pub with_status : String → Got EdgeNode → Store → Result (Unit {0}) × Store
  unfolding answered
  with_status desired missing t = (err not_found, t)
  with_status desired failed t = (err not_found, t)
  with_status desired (got e) t =
      if e.status == desired
      then (ok tt, t)
      else answered (update (record e { status = desired }) t)

  -- `updateEdgeNodeStatus`
  unfoldable pub update_edge_node_status : String → String → Store → Result (Unit {0}) × Store
  unfolding with_status
  update_edge_node_status name desired t = with_status desired (get cluster_namespace name t) t

  -- A new edge node
  abbrev pub new_edge_node : String → EdgeNode
  new_edge_node name = record {
    meta = record {
      name = name;
      namespace = cluster_namespace;
      uid = "";
      resource_version = "";
      labels = none;
      annotations = [];
      deletion_timestamp = false;
    };
    spec = "";
    status = edge_node_not_ready;
  }

  -- The status is written, whether that fails or not.
  abbrev pub show : String → String → Controller → Controller
  show name desired c = record c { server = (update_edge_node_status name desired c.server).1 }

  -- The end of `handleNodeAdd`
  added_condition : String → Option NodeCondition → Controller → Controller
  unfolding add_updated_node update_edge_node_status
  added_condition name none c = c
  added_condition name (some condition) c =
      if condition.status == "Unknown" || condition.reason == edge_controller_ready
      then add_updated_node name (show name edge_node_not_ready c)
      else c

  -- What `handleNodeAdd` does to the edge nodes first, and whether it goes on.
  added_server : String → Got EdgeNode → Store → Bool × Store
  added_server name (got e) t = (true, t)
  added_server name failed t = (true, t)
  added_server name missing t = create (new_edge_node name) t

  added_node : Node → Controller → Bool × Store → Controller
  unfolding added_condition
  added_node node c (false, t) = record c { server = t }
  added_node node c (true, t) =
      added_condition node.meta.name (get_node_condition node.status.conditions "Ready")
        (record c { server = t })

  -- `handleNodeAdd`
  unfoldable pub handle_node_add : Node → Controller → Controller
  unfolding added_server added_node
  handle_node_add node c =
      added_node node c
        (added_server node.meta.name (get cluster_namespace node.meta.name c.server) c.server)

  updated_condition : String → Option NodeCondition → Controller → Controller
  unfolding add_updated_node delete_updated_node
  updated_condition name none c = show name edge_node_not_ready c
  updated_condition name (some condition) c =
      if condition.status == "Unknown"
      then add_updated_node name (show name edge_node_not_ready c)
      else if condition.reason == edge_controller_ready
      then c
      else delete_updated_node name (show name edge_node_ready c)

  -- `handleNodeUpdate`, and the test of the update handler of `Start`
  unfoldable pub handle_node_update : Node → Node → Controller → Controller
  unfolding updated_condition
  handle_node_update old new c =
      if new.meta.resource_version == old.meta.resource_version
      then c
      else updated_condition new.meta.name (get_node_condition new.status.conditions "Ready") c

  -- `handleNodeDelete`
  unfoldable pub handle_node_delete : Node → Controller → Controller
  unfolding delete_updated_node
  handle_node_delete node c =
      delete_updated_node node.meta.name
        (record c { server = (delete cluster_namespace node.meta.name c.server).1 })

  -- `updateNodeStatus`: the nodes that the apiserver is told are ready.
  unfoldable pub update_node_status : Controller → List String
  update_node_status c = c.update_node_map

  abbrev pub node_step : NodeEvent → Controller → Controller
  node_step (on_add node) c = handle_node_add node c
  node_step (on_update old new) c = handle_node_update old new c
  node_step (on_delete node) c = handle_node_delete node c

  -- The events, the first one first.
  abbrev pub node_steps : List NodeEvent → Controller → Controller
  node_steps [] c = c
  node_steps (e ∷ es) c = node_steps es (node_step e c)
