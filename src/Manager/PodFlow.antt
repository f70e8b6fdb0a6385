-- ===== src/Manager/PodFlow.antt =====
-- From the pods' events at an edge cluster to the pods at the center.
use ote_stack.Prelude.{
  ◌⊎◌, inl, inr, String, ◌≡◌, ◌≢◌, refl, sym, ◌∙◌, ap, Bool, true, false, ◌||◌, Option, none, some,
  List, [], ◌∷◌, ◌++◌, if◌then◌else◌, ◌==◌, arith, eq_refl,
}
use ote_stack.Maps.{Map, lookup}
use ote_stack.Message.{RoundTrips, ClusterMessage}
use ote_stack.Kube.{Resource, missing, failed, read_map}
use ote_stack.Kube.Reliable.{Deletes}
use ote_stack.Reporter.{pod, cluster_label, status_message, status_message_parts}
use ote_stack.Reporter.Pods.{Pod, PodReporter, collected, send_cluster_message_to_sync_chan}
use ote_stack.Reporter.Pods.Pending.{PodEvent, steps, last_removed, steps-pending, send-sync_chan}
use mathlib.Core.Path.{subst}
use ote_stack.Manager.Kinds.{pod_kind, handle_pod_report}
use ote_stack.Manager.Upstream.{
  Center, Stored, process_report, process_reports, process_edge_report, process_command,
}
use ote_stack.Manager.Deleted.{central, is_central, is_deleted, handle_status-missing}

-- The first entry of a map, or one of the rest.
found_where :
    {V : Type 0} (b : Bool) (r q : V) (rest : Option V)
    → (if b then some r else rest) ≡ some q
    → (r ≡ q) ⊎ (rest ≡ some q)
found_where true r q rest h = inl (ap (λ o. elim o [ none ↦ r | some x ↦ x ]) h)
found_where false r q rest h = inr h

lookup-is_deleted :
    {Spec Status : Type 0} (key : String) (q : Resource Spec Status)
    (m : Map (Resource Spec Status))
    → lookup key m ≡ some q
    → (read_map cluster_label q.meta.labels == "") ≡ false
    → is_deleted q.meta.namespace (central q.meta).name m ≡ true
unfolding lookup
lookup-is_deleted key q [] h l = absurd (ground arith)
lookup-is_deleted key q ((k, r) ∷ m) h l =
    let ns = q.meta.namespace in
    let n = (central q.meta).name in
    elim (found_where (k == key) r q (lookup key m) h) [
      | inl same ↦
          subst (λ x. (is_central ns n x || is_deleted ns n m) ≡ true) (sym same)
            (ground (arith, l, eq_refl ns, eq_refl n))
      | inr there ↦ ground (arith, lookup-is_deleted key q m there l)
    ]

-- A pod that is among the deleted ones at a tick is not at the center once the message is handled.
tick-deletes :
    (c : Center) (r : PodReporter) (key : String) (q : Pod) (msg : ClusterMessage) (s : Stored c)
    → RoundTrips c.pods_json
    → RoundTrips c.reports_json
    → Deletes c.pods
    → ((t : c.pods.Store) → c.pods.get q.meta.namespace (central q.meta).name t ≢ failed)
    → lookup key r.del_map ≡ some q
    → (read_map cluster_label q.meta.labels == "") ≡ false
    → status_message c.pods_json c.reports_json pod r.cluster_name (collected r) ≡ some msg
    → ((send_cluster_message_to_sync_chan c.pods_json c.reports_json r).sync_chan
        ≡ r.sync_chan ++ msg ∷ [])
      × (c.pods.get q.meta.namespace (central q.meta).name (process_command c msg.head msg s).1.pods
          ≡ missing)
unfolding process_command process_edge_report process_reports process_report handle_pod_report
tick-deletes c r key q msg s pods_back reports_back deletes reads found named h =
    let (body, written, e, e', same) =
      status_message_parts c.pods_json c.reports_json pod r.cluster_name (collected r) msg h in
    let read = pods_back.read_back (collected r) body e in
    let reports =
      reports_back.read_back (record { resource_type = pod; body = body } ∷ []) written e' in
    (
      send-sync_chan c.pods_json c.reports_json r key q msg found h,
      rw (same, reports, read)
          (handle_status-missing pod_kind c.pods c.atoi c.key_of deletes q.meta.namespace
            (central q.meta).name reads r.cluster_name (collected r) r.del_map s.pods refl
            (lookup-is_deleted key q r.del_map found named)),
    )

-- A pod of which a removal has been collected since the last tick is not at the center once the
-- tick's message is handled there, and the message is one for the channel. That holds whatever
-- events of the pod have followed the removal.
pub tick-removed :
    (c : Center) (es : List PodEvent) (r : PodReporter) (key : String) (q : Pod)
    (msg : ClusterMessage) (s : Stored c)
    → RoundTrips c.pods_json
    → RoundTrips c.reports_json
    → Deletes c.pods
    → ((t : c.pods.Store) → c.pods.get q.meta.namespace (central q.meta).name t ≢ failed)
    → last_removed c.key_of r.cluster_name r.is_lightweight_report key (lookup key r.del_map) es
      ≡ some q
    → (read_map cluster_label q.meta.labels == "") ≡ false
    → status_message c.pods_json c.reports_json pod
        (steps c.key_of es r).cluster_name
        (collected (steps c.key_of es r))
      ≡ some msg
    → ((send_cluster_message_to_sync_chan c.pods_json c.reports_json
          (steps c.key_of es r)).sync_chan
        ≡ (steps c.key_of es r).sync_chan ++ msg ∷ [])
      × (c.pods.get q.meta.namespace (central q.meta).name (process_command c msg.head msg s).1.pods
          ≡ missing)
tick-removed c es r key q msg s pods_back reports_back deletes reads removal =
    tick-deletes c (steps c.key_of es r) key q msg s pods_back reports_back deletes reads
      ((steps-pending c.key_of key es r).1 ∙ removal)
