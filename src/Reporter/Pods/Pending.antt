-- ===== src/Reporter/Pods/Pending.antt =====
-- What a pod reporter has collected since its last message, as a function of the pods' events.
use ote_stack.Prelude.{
  Bool-cases, inl, inr, is_empty, ◌++◌, Option-cases, String, ◌≡◌, refl, ◌∙◌, Bool, Option, none,
  some, List, [], ◌∷◌, if◌then◌else◌, arith, eq_iff, holds, false,
}
use ote_stack.Maps.{lookup, lookup-insert, lookup-erase, Map}
use ote_stack.Kube.{ObjectMeta}
use ote_stack.Message.{Codec, ClusterMessage}
use ote_stack.Reporter.{ResourceStatus, Report, pod, status_message}
use ote_stack.Reporter.Pods.{
  collected, sent, send_cluster_message_to_sync_chan, updated_at, deleted_at, Pod, PodReporter,
  set_update_map, set_del_map, reset_pod_spec_parameter, labelled, handle_pod, delete_pod,
}

-- What the informer says of the pods.
pub data PodEvent : Type 0 where
  written removed : Pod → PodEvent

lookup-is_empty :
    {V : Type 0} (key : String) (v : V) (m : Map V) → lookup key m ≡ some v → is_empty m ≡ false
unfolding lookup
lookup-is_empty key v [] h = absurd (ground arith)
lookup-is_empty key v (e ∷ m) h = refl

-- A deleted pod is enough for a message.
pub send-sync_chan :
    (json : Codec (ResourceStatus Pod)) (reports_json : Codec (List Report)) (r : PodReporter)
    (key : String) (q : Pod) (msg : ClusterMessage)
    → lookup key r.del_map ≡ some q
    → status_message json reports_json pod r.cluster_name (collected r) ≡ some msg
    → (send_cluster_message_to_sync_chan json reports_json r).sync_chan ≡ r.sync_chan ++ msg ∷ []
unfolding send_cluster_message_to_sync_chan sent
send-sync_chan json reports_json r key q msg found h =
    let e = lookup-is_empty key q r.del_map found in
    elim (Bool-cases (is_empty r.update_map)) [ inl u ↦ rw (u, e, h) refl | inr u ↦ rw (u, h) refl ]

module _ (key_of : ObjectMeta → Option String) where
  abbrev pub step : PodEvent → PodReporter → PodReporter
  step (written p) r = handle_pod key_of p r
  step (removed p) r = delete_pod key_of p r

  -- The events between two messages, the first one first.
  abbrev pub steps : List PodEvent → PodReporter → PodReporter
  steps [] r = r
  steps (e ∷ es) r = steps es (step e r)

  module _ (cluster_name : String) (light : Bool) (wanted : String) where
    -- The pod as it is reported for an event, by the settings of the reporter.
    abbrev pub reported : PodEvent → Pod
    reported (written p) = labelled cluster_name light (reset_pod_spec_parameter p)
    reported (removed p) = labelled cluster_name light p

    -- Is the event one of the key?
    abbrev pub is_of_key : PodEvent → Bool
    is_of_key e = holds wanted (key_of (reported e).meta)

    -- The pod to be updated is that of the last event of the key, unless that is a removal.
    abbrev pub last_written : Option Pod → List PodEvent → Option Pod
    last_written before [] = before
    last_written before (written p ∷ es) =
        last_written (if is_of_key (written p) then some (reported (written p)) else before) es
    last_written before (removed p ∷ es) =
        last_written (if is_of_key (removed p) then none else before) es

    -- The pod to be deleted is that of the last removal of the key, whatever comes after it.
    abbrev pub last_removed : Option Pod → List PodEvent → Option Pod
    last_removed before [] = before
    last_removed before (written p ∷ es) = last_removed before es
    last_removed before (removed p ∷ es) =
        last_removed (if is_of_key (removed p) then some (reported (removed p)) else before) es

  -- One event on the two maps, for the key that it has.
  updated_at_lem :
      (wanted : String) (p : Pod) (r : PodReporter) (o : Option String)
      → lookup wanted (updated_at p r o).update_map
        ≡ (if holds wanted o then some p else lookup wanted r.update_map)
  unfolding updated_at set_update_map
  updated_at_lem wanted p r none = refl
  updated_at_lem wanted p r (some key) = lookup-insert key wanted p r.update_map

  updated_at-others :
      (p : Pod) (r : PodReporter) (o : Option String)
      → ((updated_at p r o).del_map ≡ r.del_map)
        × ((updated_at p r o).cluster_name ≡ r.cluster_name)
        × ((updated_at p r o).is_lightweight_report ≡ r.is_lightweight_report)
  unfolding updated_at set_update_map
  updated_at-others p r none = (refl, refl, refl)
  updated_at-others p r (some key) = (refl, refl, refl)

  deleted_at_lem :
      (wanted : String) (p : Pod) (r : PodReporter) (o : Option String)
      → (lookup wanted (deleted_at p r o).update_map
          ≡ (if holds wanted o then none else lookup wanted r.update_map))
        × (lookup wanted (deleted_at p r o).del_map
            ≡ (if holds wanted o then some p else lookup wanted r.del_map))
  unfolding deleted_at set_del_map
  deleted_at_lem wanted p r none = (refl, refl)
  deleted_at_lem wanted p r (some key) = (
    ground (
      arith,
      lookup-erase key wanted r.update_map,
      eq_iff key wanted,
      Option-cases (lookup key r.update_map),
    ),
    lookup-insert key wanted p r.del_map,
  )

  deleted_at-others :
      (p : Pod) (r : PodReporter) (o : Option String)
      → ((deleted_at p r o).cluster_name ≡ r.cluster_name)
        × ((deleted_at p r o).is_lightweight_report ≡ r.is_lightweight_report)
  unfolding deleted_at set_del_map
  deleted_at-others p r none = (refl, refl)
  deleted_at-others p r (some key) = (refl, refl)

  -- After any events, the update map has for a key the pod of its last event, unless that is a
  -- removal, and the deletion map the pod of its last removal, whatever comes after; a key without
  -- such events has what it had.
  pub steps-pending :
      (wanted : String) (es : List PodEvent) (r : PodReporter)
      → (lookup wanted (steps es r).update_map
          ≡ last_written r.cluster_name r.is_lightweight_report wanted
              (lookup wanted r.update_map)
              es)
        × (lookup wanted (steps es r).del_map
            ≡ last_removed r.cluster_name r.is_lightweight_report wanted
                (lookup wanted r.del_map)
                es)
  unfolding handle_pod delete_pod
  steps-pending wanted [] r = (refl, refl)
  steps-pending wanted (written p ∷ es) r =
      let p' = reported r.cluster_name r.is_lightweight_report wanted (written p) in
      let o = key_of p'.meta in
      let (u, d) = steps-pending wanted es (updated_at p' r o) in
      let (same, c, l) = updated_at-others p' r o in
      let now = updated_at_lem wanted p' r o in
      (
        u ∙ (λ i. last_written (c i) (l i) wanted (now i) es),
        d ∙ (λ i. last_removed (c i) (l i) wanted (lookup wanted (same i)) es),
      )
  steps-pending wanted (removed p ∷ es) r =
      let p' = reported r.cluster_name r.is_lightweight_report wanted (removed p) in
      let o = key_of p'.meta in
      let (u, d) = steps-pending wanted es (deleted_at p' r o) in
      let (c, l) = deleted_at-others p' r o in
      let (now, gone) = deleted_at_lem wanted p' r o in
      (
        u ∙ (λ i. last_written (c i) (l i) wanted (now i) es),
        d ∙ (λ i. last_removed (c i) (l i) wanted (gone i) es),
      )
