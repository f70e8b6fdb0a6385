-- ===== src/Reporter/Status.antt =====
-- pkg/reporter/cluster_status_report.go: the status of the edge cluster, and its resources.
-- `zero_quantity` is an empty `resource.Quantity`, and `add` its method `Add`.
pub mod Totals
use ote_stack.Prelude.{
  ℕ, String, Bool, true, false, Option, none, some, List, [], ◌∷◌, if◌then◌else◌, ◌==◌,
}
use ote_stack.Maps.{Map, lookup, insert}
use ote_stack.Crd.{ClusterStatus, online, offline}
use ote_stack.Message.{Codec, ClusterMessage}
use ote_stack.Reporter.{Report, cluster_status, to_cluster_message}
use ote_stack.Reporter.Objects.{Node, NodeCondition}

-- The first condition of the type decides.
condition_true : List NodeCondition → Bool
condition_true [] = false
condition_true (c ∷ cs) = if c.kind == "Ready" then c.status == "True" else condition_true cs

-- `isNodeReady`
unfoldable pub is_node_ready : Node → Bool
unfolding condition_true
is_node_ready n = if n.spec.unschedulable then false else condition_true n.status.conditions

-- `ClusterResource`
pub record ClusterResource : Type 0 where
  pub capacity : Map String
  pub allocatable : Map String

module _ (zero_quantity : String) (add : String → String → String) where
  -- A quantity that may not be there yet, with one more.
  abbrev pub plus : Option String → String → String
  plus none value = add zero_quantity value
  plus (some quantity) value = add quantity value

  -- The loop over the resources of one node.
  unfoldable pub add_all : Map String → Map String → Map String
  add_all [] total = total
  add_all ((name, value) ∷ rest) total =
      add_all rest (insert name (plus (lookup name total) value) total)

  -- The total with what a node has, if it is ready.
  with_node : Bool → Node → ClusterResource → ClusterResource
  unfolding add_all
  with_node false n total = total
  with_node true n total = record {
    capacity = add_all n.status.capacity total.capacity;
    allocatable = add_all n.status.allocatable total.allocatable;
  }

  add_nodes : List Node → ClusterResource → ClusterResource
  unfolding with_node
  add_nodes [] total = total
  add_nodes (n ∷ ns) total = add_nodes ns (with_node (is_node_ready n) n total)

  -- `caculateClusterResource`
  unfoldable pub caculate_cluster_resource : List Node → ClusterResource
  unfolding add_nodes
  caculate_cluster_resource nodes = add_nodes nodes (record { capacity = []; allocatable = [] })

  -- The status that `syncClusterStatus` reports; the list of nodes is none where it has failed.
  unfoldable pub cluster_status_now : ℕ → Option (List Node) → ClusterStatus
  unfolding caculate_cluster_resource
  cluster_status_now now none = record {
    listen = "";
    parent_name = "";
    status = offline;
    timestamp = now;
    capacity = [];
    allocatable = [];
  }
  cluster_status_now now (some nodes) = record {
    listen = "";
    parent_name = "";
    status = online;
    timestamp = now;
    capacity = (caculate_cluster_resource nodes).capacity;
    allocatable = (caculate_cluster_resource nodes).allocatable;
  }

  -- `syncClusterStatus`: the message for the channel, if it can be written.
  unfoldable pub sync_cluster_status :
      Codec ClusterStatus
      → Codec (List Report)
      → String
      → ℕ
      → Option (List Node)
      → Option ClusterMessage
  unfolding cluster_status_now
  sync_cluster_status json reports_json cluster_name now nodes =
      elim (json.marshal (cluster_status_now now nodes)) [
        | none ↦ none
        | some body ↦
            to_cluster_message reports_json cluster_name
              (record { resource_type = cluster_status; body = body } ∷ [])
      ]
