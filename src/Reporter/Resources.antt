-- ===== src/Reporter/Resources.antt =====
-- pkg/reporter/node_reporter.go, deployment_reporter.go, daemonset_reporter.go, service_reporter.go
-- and event_reporter.go: each event is one message.
-- A goroutine sends the message; what is modelled is which message that is, and none where the code
-- only logs an error. `key_of` is `cache.MetaNamespaceKeyFunc`.
use ote_stack.Prelude.{String, Bool, Option, none, some, List, [], ◌∷◌, if◌then◌else◌, ◌==◌, ◌||◌}
use ote_stack.Message.{Codec, ClusterMessage}
use ote_stack.Kube.{ObjectMeta, Resource}
use ote_stack.Reporter.{
  Report, ResourceStatus, ResourceType, node, deployment, daemonset, service, event,
  add_label_to_resource, status_message,
}
use ote_stack.Reporter.Objects.{
  Node, Deployment, DaemonSet, Service, Event, light_weight_node, light_weight_deployment,
  light_weight_daemonset, light_weight_service,
}

-- A status with one of its three parts.
abbrev pub update_of : {R : Type 0} → String → R → ResourceStatus R
update_of key r = record { update_map = some ((key, r) ∷ []); del_map = none; full_list = none }

abbrev pub deletion_of : {R : Type 0} → String → R → ResourceStatus R
deletion_of key r = record { update_map = none; del_map = some ((key, r) ∷ []); full_list = none }

abbrev pub list_of : {R : Type 0} → List String → ResourceStatus R
list_of keys' = record { update_map = none; del_map = none; full_list = some keys' }

-- `ReporterContext`: what the reporters use of it, and the library that writes the reports.
pub record Context : Type 0 where
  pub cluster_name : String
  pub is_lightweight_report : Bool
  pub key_of : ObjectMeta → Option String
  pub reports_json : Codec (List Report)

module _ (ctx : Context) where
  -- The events of an informer that a reporter handles.
  pub data InformerEvent (R : Type 0) : Type 0 where
    added : R → InformerEvent R
    updated : R → R → InformerEvent R
    deleted : R → InformerEvent R

  module _ {Spec Status : Type 0} (kind : ResourceType)
      (light_weight : Resource Spec Status → Resource Spec Status)
      (json : Codec (ResourceStatus (Resource Spec Status))) where
    abbrev R : Type 0
    R = Resource Spec Status

    -- The object with its labels, cropped if the reports are to be light.
    abbrev pub reported : R → R
    reported r =
        let r' : R = record r { meta = add_label_to_resource ctx.cluster_name r.meta } in
        if ctx.is_lightweight_report then light_weight r' else r'

    -- `sendToSyncChan`
    abbrev send_to_sync_chan : ResourceStatus R → Option ClusterMessage
    send_to_sync_chan = status_message json ctx.reports_json kind ctx.cluster_name

    keyed : (String → R → ResourceStatus R) → R → Option String → Option ClusterMessage
    keyed part r none = none
    keyed part r (some key) = send_to_sync_chan (part key r)

    handled : R → Option ClusterMessage
    unfolding keyed
    handled r = keyed update_of (reported r) (ctx.key_of (reported r).meta)

    on_event : InformerEvent R → Option ClusterMessage
    unfolding handled keyed
    on_event (added r) = handled r
    on_event (updated old new) =
        if new.meta.resource_version == old.meta.resource_version then none else handled new
    on_event (deleted r) = keyed deletion_of (reported r) (ctx.key_of (reported r).meta)

    on_list : List String → Option ClusterMessage
    on_list keys' = send_to_sync_chan (list_of keys')

  -- `handleNode` and `deleteNode`, and the handlers of `newNodeReporter`
  unfoldable pub node_event :
      Codec (ResourceStatus Node) → InformerEvent Node → Option ClusterMessage
  unfolding on_event
  node_event = on_event node light_weight_node

  -- `reportFullListNode`
  unfoldable pub report_full_list_node :
      Codec (ResourceStatus Node) → List String → Option ClusterMessage
  unfolding on_list
  report_full_list_node = on_list node light_weight_node

  -- `handleDeployment` and `deleteDeployment`, and the handlers of `startDeploymentReporter`
  unfoldable pub deployment_event :
      Codec (ResourceStatus Deployment) → InformerEvent Deployment → Option ClusterMessage
  unfolding on_event
  deployment_event = on_event deployment light_weight_deployment

  -- `reportFullListDeployment`
  unfoldable pub report_full_list_deployment :
      Codec (ResourceStatus Deployment) → List String → Option ClusterMessage
  unfolding on_list
  report_full_list_deployment = on_list deployment light_weight_deployment

  -- `handleDaemonset` and `deleteDaemonset`, and the handlers of `startDaemonsetReporter`
  unfoldable pub daemonset_event :
      Codec (ResourceStatus DaemonSet) → InformerEvent DaemonSet → Option ClusterMessage
  unfolding on_event
  daemonset_event = on_event daemonset light_weight_daemonset

  -- `reportFullListDaemonset`
  unfoldable pub report_full_list_daemonset :
      Codec (ResourceStatus DaemonSet) → List String → Option ClusterMessage
  unfolding on_list
  report_full_list_daemonset = on_list daemonset light_weight_daemonset

  -- `handleService` and `deleteService`, and the handlers of `startServiceReporter`
  unfoldable pub service_event :
      Codec (ResourceStatus Service) → InformerEvent Service → Option ClusterMessage
  unfolding on_event
  service_event = on_event service light_weight_service

  -- `reportFullListService`
  unfoldable pub report_full_list_service :
      Codec (ResourceStatus Service) → List String → Option ClusterMessage
  unfolding on_list
  report_full_list_service = on_list service light_weight_service

  -- `isNeedToReport`
  abbrev pub is_need_to_report : Event → Bool
  is_need_to_report e = e.spec.kind == "Pod" || e.spec.kind == "Node"

  -- An event is never cropped.
  abbrev whole : Event → Event
  whole e = e

  handle_reported : Codec (ResourceStatus Event) → Event → Option ClusterMessage
  unfolding handled
  handle_reported json e = if is_need_to_report e then handled event whole json e else none

  -- `handleEvent` and `deleteEvent`, and the handlers of `startEventReporter`: an update is compared
  -- with itself.
  unfoldable pub event_event :
      Codec (ResourceStatus Event) → InformerEvent Event → Option ClusterMessage
  unfolding handle_reported on_event
  event_event json (added e) = handle_reported json e
  event_event json (updated old new) =
      if new.meta.resource_version == new.meta.resource_version
      then none
      else handle_reported json new
  event_event json (deleted e) =
      if is_need_to_report e then on_event event whole json (deleted e) else none
