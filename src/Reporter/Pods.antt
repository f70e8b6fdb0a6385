-- ===== src/Reporter/Pods.antt =====
-- pkg/reporter/pod_reporter.go: the pods' events are collected, and sent at every tick.
-- `key_of` is `cache.MetaNamespaceKeyFunc`.
pub mod Pending
use ote_stack.Prelude.{
  String, Bool, true, false, ◌&&◌, Option, none, some, List, [], ◌∷◌, ◌++◌, if◌then◌else◌, is_empty,
  is_some, ◌==◌,
}
use ote_stack.Maps.{Map, lookup, insert, erase}
use ote_stack.Message.{Codec, ClusterMessage}
use ote_stack.Kube.{ObjectMeta, Resource}
use ote_stack.Reporter.{
  ResourceStatus, Report, pod, edge_node_name, label_with, add_label_to_resource, status_message,
}

-- The fields of a pod that the code names; `others` are all other fields.
pub record PodSpec : Type 0 where
  pub containers : String
  pub node_name : String
  pub volumes : String
  pub tolerations : String
  pub active_deadline_seconds : String
  pub service_account_name : String
  pub others : String

pub record PodStatus : Type 0 where
  pub phase : String
  pub container_statuses : String
  pub others : String

abbrev pub Pod : Type 0
Pod = Resource PodSpec PodStatus

-- `PodReporter`: the maps that are collected, the messages on the channel, and two settings.
pub record PodReporter : Type 0 where
  pub update_map : Map Pod
  pub del_map : Map Pod
  pub full_list : List String
  pub sync_chan : List ClusterMessage
  pub cluster_name : String
  pub is_lightweight_report : Bool

-- `SetUpdateMap`
unfoldable pub set_update_map : String → Pod → PodReporter → PodReporter
set_update_map name p r = record r { update_map = insert name p r.update_map }

-- `SetDelMap`
unfoldable pub set_del_map : String → Pod → PodReporter → PodReporter
set_del_map name p r = record r {
  update_map = if is_some (lookup name r.update_map) then erase name r.update_map else r.update_map;
  del_map = insert name p r.del_map;
}

-- `SetFullListMap`, and so `reportFullListPod` once the caches have synced
unfoldable pub set_full_list_map : List String → PodReporter → PodReporter
set_full_list_map pods r = record r { full_list = pods }

-- `resetPodSpecParameter`
unfoldable pub reset_pod_spec_parameter : Pod → Pod
reset_pod_spec_parameter p = record p {
  meta = record (p.meta) {
    labels = some (label_with edge_node_name p.spec.node_name p.meta.labels);
  };
}

-- `lightWeightPod`
unfoldable pub light_weight_pod : Pod → Pod
light_weight_pod p = record {
  meta = record {
    name = p.meta.name;
    namespace = p.meta.namespace;
    uid = "";
    resource_version = "";
    labels = p.meta.labels;
    annotations = [];
    deletion_timestamp = false;
  };
  spec = record {
    containers = p.spec.containers;
    node_name = p.spec.node_name;
    volumes = p.spec.volumes;
    tolerations = p.spec.tolerations;
    active_deadline_seconds = "";
    service_account_name = "";
    others = "";
  };
  status = record {
    phase = p.status.phase;
    container_statuses = p.status.container_statuses;
    others = "";
  };
}

-- The labelled pod, cropped if the reports are to be light.
unfoldable pub labelled : String → Bool → Pod → Pod
unfolding light_weight_pod
labelled cluster_name is_lightweight_report p =
    let p' : Pod = record p { meta = add_label_to_resource cluster_name p.meta } in
    if is_lightweight_report then light_weight_pod p' else p'

-- Nothing is done where the key cannot be made.
updated_at : Pod → PodReporter → Option String → PodReporter
unfolding set_update_map
updated_at p r none = r
updated_at p r (some key) = set_update_map key p r

deleted_at : Pod → PodReporter → Option String → PodReporter
unfolding set_del_map
deleted_at p r none = r
deleted_at p r (some key) = set_del_map key p r

module _ (key_of : ObjectMeta → Option String) where
  -- `handlePod`
  unfoldable pub handle_pod : Pod → PodReporter → PodReporter
  unfolding updated_at
  handle_pod p r =
      let p' = labelled r.cluster_name r.is_lightweight_report (reset_pod_spec_parameter p) in
      updated_at p' r (key_of p'.meta)

  -- The update handler of the informer: a resync is passed over.
  unfoldable pub update_pod_event : Pod → Pod → PodReporter → PodReporter
  unfolding handle_pod
  update_pod_event old new r =
      if new.meta.resource_version == old.meta.resource_version then r else handle_pod new r

  -- `deletePod`
  unfoldable pub delete_pod : Pod → PodReporter → PodReporter
  unfolding deleted_at
  delete_pod p r =
      let p' = labelled r.cluster_name r.is_lightweight_report p in deleted_at p' r (key_of p'.meta)

-- The status that is sent at a tick.
abbrev pub collected : PodReporter → ResourceStatus Pod
collected r = record {
  update_map = some r.update_map;
  del_map = some r.del_map;
  full_list = some r.full_list;
}

sent : PodReporter → Option ClusterMessage → PodReporter
sent r none = r
sent r (some msg) = record r {
  update_map = [];
  del_map = [];
  full_list = [];
  sync_chan = r.sync_chan ++ msg ∷ [];
}

-- `sendClusterMessageToSyncChan`: what cannot be written stays for the next tick.
unfoldable pub send_cluster_message_to_sync_chan :
    Codec (ResourceStatus Pod) → Codec (List Report) → PodReporter → PodReporter
unfolding sent
send_cluster_message_to_sync_chan json reports_json r =
    if is_empty r.update_map && is_empty r.del_map && is_empty r.full_list
    then r
    else sent r (status_message json reports_json pod r.cluster_name (collected r))
