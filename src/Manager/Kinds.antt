-- ===== src/Manager/Kinds.antt =====
-- pkg/controllermanager/pod_processor.go, node_processor.go, deployment_processor.go,
-- daemonset_processor.go and service_processor.go: the processors, each of its kind of objects.
-- A node has no namespace: the client of nodes ignores the one that it is given.
use ote_stack.Prelude.{
  String, Bool, true, false, Option, none, some, Result, ok, err, unmarshal_failed,
}
use ote_stack.Message.{Bytes, Codec}
use ote_stack.Kube.{ObjectMeta, Resource, Client}
use ote_stack.Reporter.{ResourceStatus}
use ote_stack.Reporter.Pods.{Pod, PodSpec, PodStatus}
use ote_stack.Reporter.Objects.{
  Node, NodeSpec, NodeStatus, Deployment, DeploymentSpec, DeploymentStatus, DaemonSet,
  DaemonSetSpec, DaemonSetStatus, Service, ServiceSpec,
}
use ote_stack.Manager.{Kind, handle_status, ℕ}

-- Only two fields of the specification of a stored pod are changed.
abbrev pub pod_kind : Kind PodSpec PodStatus
pod_kind = record {
  prepare = λ spec. record spec { service_account_name = "" };
  merge_spec = λ stored reported. record stored {
    active_deadline_seconds = reported.active_deadline_seconds;
    tolerations = reported.tolerations;
  };
  deletes_marked = true;
  updates_created = true;
  skips_empty_list = true;
}

abbrev plain_kind : {Spec Status : Type 0} → Bool → Kind Spec Status
plain_kind updates_created = record {
  prepare = λ spec. spec;
  merge_spec = λ stored reported. reported;
  deletes_marked = false;
  updates_created = updates_created;
  skips_empty_list = false;
}

-- A node that is created is not updated at once.
abbrev pub node_kind : Kind NodeSpec NodeStatus
node_kind = plain_kind false

abbrev pub deployment_kind : Kind DeploymentSpec DeploymentStatus
deployment_kind = plain_kind true

abbrev pub daemonset_kind : Kind DaemonSetSpec DaemonSetStatus
daemonset_kind = plain_kind true

abbrev pub service_kind : Kind ServiceSpec String
service_kind = plain_kind true

module _ (atoi : String → Option ℕ) (key_of : ObjectMeta → Option String) where
  -- A report that cannot be read changes nothing; what fails later is not returned.
  handle_read :
      {Spec Status : Type 0}
      → Kind Spec Status
      → (client : Client (Resource Spec Status)) → String
      → client.Store
      → Option (ResourceStatus (Resource Spec Status))
      → Result (Unit {0}) × client.Store
  handle_read kind client cluster_name t none = (err unmarshal_failed, t)
  handle_read kind client cluster_name t (some status) =
      (ok tt, handle_status kind client atoi key_of cluster_name status t)

  abbrev handle_report :
      {Spec Status : Type 0}
      → Kind Spec Status
      → Codec (ResourceStatus (Resource Spec Status))
      → (client : Client (Resource Spec Status)) → String
      → Bytes
      → client.Store
      → Result (Unit {0}) × client.Store
  handle_report kind json client cluster_name b t =
      handle_read kind client cluster_name t (json.unmarshal b)

  -- `handlePodReport`
  unfoldable pub handle_pod_report :
      Codec (ResourceStatus Pod)
      → (client : Client Pod) → String
      → Bytes
      → client.Store
      → Result (Unit {0}) × client.Store
  unfolding handle_read
  handle_pod_report = handle_report pod_kind

  -- `handleNodeReport`
  unfoldable pub handle_node_report :
      Codec (ResourceStatus Node)
      → (client : Client Node) → String
      → Bytes
      → client.Store
      → Result (Unit {0}) × client.Store
  unfolding handle_read
  handle_node_report = handle_report node_kind

  -- `handleDeploymentReport`
  unfoldable pub handle_deployment_report :
      Codec (ResourceStatus Deployment)
      → (client : Client Deployment) → String
      → Bytes
      → client.Store
      → Result (Unit {0}) × client.Store
  unfolding handle_read
  handle_deployment_report = handle_report deployment_kind

  -- `handleDaemonsetReport`
  unfoldable pub handle_daemonset_report :
      Codec (ResourceStatus DaemonSet)
      → (client : Client DaemonSet) → String
      → Bytes
      → client.Store
      → Result (Unit {0}) × client.Store
  unfolding handle_read
  handle_daemonset_report = handle_report daemonset_kind

  -- `handleServiceReport`
  unfoldable pub handle_service_report :
      Codec (ResourceStatus Service)
      → (client : Client Service) → String
      → Bytes
      → client.Store
      → Result (Unit {0}) × client.Store
  unfolding handle_read
  handle_service_report = handle_report service_kind
