-- ===== src/Tests/Ticks.antt =====
-- A tick of a pod reporter, and the center that handles its message.
use mathlib.Core.HLevel.{Discrete}
use native.Mathlib.Decide.{ℕ_discrete}
use ote_stack.Prelude.{◌≡◌, refl, false, none, some, List, [], ◌∷◌, ◌++◌}
use ote_stack.Maps.{insert, lookup}
use ote_stack.Message.{Codec}
use ote_stack.Kube.{missing}
use ote_stack.Reporter.{
  add_label_to_resource, Report, ResourceStatus, pod, status_message, report_message,
  status_message-report_message,
}
use ote_stack.Reporter.Pods.{
  handle_pod, delete_pod, labelled, Pod, PodReporter, collected, send_cluster_message_to_sync_chan,
}
use ote_stack.Reporter.Pods.Pending.{
  PodEvent, written, removed, steps, last_written, last_removed, steps-pending,
}
use ote_stack.Manager.Deleted.{central}
use ote_stack.Manager.Upstream.{Center, Stored, process_command}
use ote_stack.Manager.PodFlow.{tick-removed}
use ote_stack.Tests.Client.{one_object, one_object-Deletes, find-reads}
use ote_stack.Tests.Codecs.{mute, only, only-marshal, only-RoundTrips, String_discrete}
use ote_stack.Tests.Server.{one_slot}
use ote_stack.Tests.Reports.{atoi, key_of, meta}

-- A pod that is deleted, and then made again, between two ticks.
abbrev nginx : Pod
nginx = record {
  meta = meta "nginx" "east" "7";
  spec = record {
    containers = "c";
    node_name = "n";
    volumes = "";
    tolerations = "";
    active_deadline_seconds = "";
    service_account_name = "";
    others = "";
  };
  status = record { phase = "Running"; container_statuses = ""; others = "" };
}

abbrev remade : List PodEvent
remade = removed nginx ∷ written nginx ∷ []

abbrev idle : PodReporter
idle = record {
  update_map = [];
  del_map = [];
  full_list = [];
  sync_chan = [];
  cluster_name = "east";
  is_lightweight_report = false;
}

steps-pending_example :
    (lookup "nginx" (steps key_of remade idle).update_map
      ≡ last_written key_of "east" false "nginx" (lookup "nginx" idle.update_map) remade)
    × (lookup "nginx" (steps key_of remade idle).del_map
        ≡ last_removed key_of "east" false "nginx" (lookup "nginx" idle.del_map) remade)
steps-pending_example = steps-pending key_of "nginx" remade idle

pods_discrete : Discrete (ResourceStatus Pod)
pods_discrete = hlevel (ℕ_discrete, String_discrete)

reports_discrete : Discrete (List Report)
reports_discrete = hlevel (ℕ_discrete, String_discrete)

abbrev gone_nginx : Pod
gone_nginx = labelled "east" false nginx

abbrev after_remade : PodReporter
after_remade = steps key_of remade idle

abbrev pods_codec : Codec (ResourceStatus Pod)
pods_codec = only pods_discrete (collected after_remade) (1 ∷ [])

abbrev reports_codec : Codec (List Report)
reports_codec = only reports_discrete (record { resource_type = pod; body = 1 ∷ [] } ∷ []) (2 ∷ [])

abbrev center : Center
center = record {
  pods = one_object;
  nodes = one_object;
  deployments = one_object;
  daemonsets = one_object;
  services = one_object;
  events = one_object;
  api = one_slot;
  patch = λ old new t. (false, t);
  atoi = atoi;
  key_of = key_of;
  reference_of = λ kind m. none;
  mirror_key = "mirror";
  pods_json = pods_codec;
  nodes_json = mute;
  deployments_json = mute;
  daemonsets_json = mute;
  services_json = mute;
  events_json = mute;
  status_json = mute;
  reports_json = reports_codec;
  proto = mute;
}

abbrev at_center : Stored center
at_center = record {
  pods = some gone_nginx;
  nodes = none;
  deployments = none;
  daemonsets = none;
  services = none;
  events = none;
  server = (none, none);
}

message_written :
    status_message pods_codec reports_codec pod after_remade.cluster_name (collected after_remade)
    ≡ some (report_message "east" (2 ∷ []))
unfolding handle_pod delete_pod
message_written =
    status_message-report_message pods_codec reports_codec pod "east" (collected after_remade)
      (1 ∷ []) (2 ∷ []) (only-marshal pods_discrete (collected after_remade) (1 ∷ []))
      (only-marshal reports_discrete (record { resource_type = pod; body = 1 ∷ [] } ∷ []) (2 ∷ []))

tick-removed_example :
    ((send_cluster_message_to_sync_chan pods_codec reports_codec after_remade).sync_chan
      ≡ after_remade.sync_chan ++ report_message "east" (2 ∷ []) ∷ [])
    × (one_object.get gone_nginx.meta.namespace
          (central gone_nginx.meta).name
          (process_command center
            (report_message "east" (2 ∷ [])).head
            (report_message "east" (2 ∷ []))
            at_center).1.pods
        ≡ missing)
unfolding labelled add_label_to_resource lookup insert
tick-removed_example =
    tick-removed center remade idle "nginx" gone_nginx (report_message "east" (2 ∷ [])) at_center
      (only-RoundTrips pods_discrete (collected after_remade) (1 ∷ []))
      (only-RoundTrips reports_discrete (record { resource_type = pod; body = 1 ∷ [] } ∷ [])
        (2 ∷ []))
      one_object-Deletes (find-reads gone_nginx.meta.namespace (central gone_nginx.meta).name) refl
      refl message_written
