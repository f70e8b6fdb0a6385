-- ===== src/Manager/Upstream.antt =====
-- pkg/controllermanager/upstream_processor.go: the messages from the root cluster controller, and
-- pkg/controllermanager/cluster_status_processor.go.
use ote_stack.Prelude.{
  ℕ, String, Bool, Option, none, some, List, [], ◌∷◌, Result, ok, err, unmarshal_failed,
  head_missing, unsupported,
}
use ote_stack.Crd.{Api, Cluster, ClusterStatus, cluster_namespace, patch_status}
use ote_stack.Message.{Bytes, Codec, ClusterMessage, MessageHead, edge_report, deserialize}
use ote_stack.Kube.{ObjectMeta, Client}
use ote_stack.Reporter.{
  Report, ResourceStatus, ResourceType, node, pod, deployment, daemonset, service, statefulset,
  cluster_status, event, other,
}
use ote_stack.Reporter.Pods.{Pod}
use ote_stack.Manager.Kinds.{
  handle_pod_report, handle_node_report, handle_deployment_report, handle_daemonset_report,
  handle_service_report,
}
use ote_stack.Manager.Events.{handle_event_report}
use ote_stack.Reporter.Objects.{Node, Deployment, DaemonSet, Service, Event, ObjectReference}

-- What the processor calls: the clients of each kind, the apiserver of the custom resources, and
-- the libraries. `patch old new` is the client's `Patch` of the cluster, see `Crd.patch_status`.
pub record Center : Type 1 where
  pub pods : Client Pod
  pub nodes : Client Node
  pub deployments : Client Deployment
  pub daemonsets : Client DaemonSet
  pub services : Client Service
  pub events : Client Event
  pub api : Api
  pub patch : Cluster → Cluster → api.Server → Bool × api.Server
  pub atoi : String → Option ℕ
  pub key_of : ObjectMeta → Option String
  pub reference_of : String → ObjectMeta → Option ObjectReference
  pub mirror_key : String
  pub pods_json : Codec (ResourceStatus Pod)
  pub nodes_json : Codec (ResourceStatus Node)
  pub deployments_json : Codec (ResourceStatus Deployment)
  pub daemonsets_json : Codec (ResourceStatus DaemonSet)
  pub services_json : Codec (ResourceStatus Service)
  pub events_json : Codec (ResourceStatus Event)
  pub status_json : Codec ClusterStatus
  pub reports_json : Codec (List Report)
  pub proto : Codec ClusterMessage

-- All that is stored at the center.
pub record Stored (c : Center) : Type 0 where
  pub pods : c.pods.Store
  pub nodes : c.nodes.Store
  pub deployments : c.deployments.Store
  pub daemonsets : c.daemonsets.Store
  pub services : c.services.Store
  pub events : c.events.Store
  pub server : c.api.Server

module _ (c : Center) where
  -- `UpdateClusterStatus`
  unfoldable pub update_cluster_status :
      String → ClusterStatus → c.api.Server → Result (Unit {0}) × c.api.Server
  update_cluster_status cluster_name status = patch_status c.api c.patch (record {
    name = cluster_name;
    namespace = cluster_namespace;
    spec_name = "";
    status = status;
  })

  -- `handleClusterStatusReport`
  unfoldable pub handle_cluster_status_report :
      String → Bytes → c.api.Server → Result (Unit {0}) × c.api.Server
  unfolding update_cluster_status
  handle_cluster_status_report cluster_name b t = elim (c.status_json.unmarshal b) [
    | none ↦ (err unmarshal_failed, t)
    | some status ↦ update_cluster_status cluster_name status t
  ]

  -- One turn of the loop of `processEdgeReport`, without the error that it had before; it is none
  -- where no handler is called.
  unfoldable pub process_report :
      String → ResourceType → Bytes → Stored c → Option (Result (Unit {0})) × Stored c
  process_report name pod b s =
      let (e, t) = handle_pod_report c.atoi c.key_of c.pods_json c.pods name b s.pods in
      (some e, record s { pods = t })
  process_report name node b s =
      let (e, t) = handle_node_report c.atoi c.key_of c.nodes_json c.nodes name b s.nodes in
      (some e, record s { nodes = t })
  process_report name cluster_status b s =
      let (e, t) = handle_cluster_status_report name b s.server in (some e, record s { server = t })
  process_report name deployment b s =
      let (e, t) =
        handle_deployment_report c.atoi c.key_of c.deployments_json c.deployments name b
          s.deployments in
      (some e, record s { deployments = t })
  process_report name daemonset b s =
      let (e, t) =
        handle_daemonset_report c.atoi c.key_of c.daemonsets_json c.daemonsets name b
          s.daemonsets in
      (some e, record s { daemonsets = t })
  process_report name service b s =
      let (e, t) =
        handle_service_report c.atoi c.key_of c.services_json c.services name b s.services in
      (some e, record s { services = t })
  process_report name event b s =
      let (e, t) =
        handle_event_report c.reference_of c.mirror_key c.pods c.nodes c.events c.events_json s.pods
          s.nodes b s.events in
      (some e, record s { events = t })
  process_report name statefulset b s = (none, s)
  process_report name (other number) b s = (none, s)

  -- The error of the turn, or the one before if there was no call.
  abbrev latest : Result (Unit {0}) → Option (Result (Unit {0})) → Result (Unit {0})
  latest before none = before
  latest before (some e) = e

  -- The loop, with the value of `err` so far.
  unfoldable pub process_reports :
      String → List Report → Result (Unit {0}) → Stored c → Result (Unit {0}) × Stored c
  unfolding process_report
  process_reports name [] e s = (e, s)
  process_reports name (r ∷ rs) e s =
      let (e', s') = process_report name r.resource_type r.body s in
      process_reports name rs (latest e e') s'

  reports_read : String → Stored c → Option (List Report) → Result (Unit {0}) × Stored c
  unfolding process_reports
  reports_read cluster_name s none = (err unmarshal_failed, s)
  reports_read cluster_name s (some reports) = process_reports cluster_name reports (ok tt) s

  -- `processEdgeReport`
  unfoldable pub process_edge_report :
      MessageHead → ClusterMessage → Stored c → Result (Unit {0}) × Stored c
  unfolding reports_read
  process_edge_report head msg s =
      reports_read head.cluster_name s (c.reports_json.unmarshal msg.body)

  unfoldable pub process_command :
      Option MessageHead → ClusterMessage → Stored c → Result (Unit {0}) × Stored c
  unfolding process_edge_report
  process_command none msg s = (err head_missing, s)
  process_command (some head) msg s = elim head.command [
    | edge_report ↦ process_edge_report head msg s
    | _ ↦ (err unsupported, s)
  ]

  received : Result ClusterMessage → Stored c → Result (Unit {0}) × Stored c
  unfolding process_command
  received (err e) s = (err e, s)
  received (ok msg) s = process_command msg.head msg s

  -- `HandleReceivedMessage`
  unfoldable pub handle_received_message : Option Bytes → Stored c → Result (Unit {0}) × Stored c
  unfolding received
  handle_received_message bytes s = received (deserialize c.proto bytes) s
