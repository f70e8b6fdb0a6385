-- ===== src/Manager/Events.antt =====
-- pkg/controllermanager/event_processor.go: the events that edge clusters report.
-- `reference_of` is `reference.GetReference`, by the kind and the metadata of the object, and
-- `mirror_key` is `corev1.MirrorPodAnnotationKey`.
use ote_stack.Prelude.{
  String, Option, none, some, Bool, Result, ok, err, no_label, not_found, unsupported,
  unmarshal_failed, if◌then◌else◌, ◌==◌, [], ◌∷◌,
}
use ote_stack.Maps.{Map, lookup}
use ote_stack.Message.{Bytes, Codec}
use ote_stack.Kube.{ObjectMeta, Client, Got, got, missing, failed, read_map}
use ote_stack.Reporter.{ResourceStatus, cluster_label}
use ote_stack.Reporter.Pods.{Pod}
use ote_stack.Manager.{unique_resource_name}
use ote_stack.Manager.Names.{unique_full_resource_name}
use ote_stack.Reporter.Objects.{Node, Event, ObjectReference}

module _ (reference_of : String → ObjectMeta → Option ObjectReference) (mirror_key : String)
    (pods : Client Pod) (nodes : Client Node) (events : Client Event) where
  -- The object of an event on a pod; a mirror pod is known by its annotation.
  pod_reference : Got Pod → Option ObjectReference
  pod_reference missing = none
  pod_reference failed = none
  pod_reference (got stored) = elim (reference_of "Pod" stored.meta) [
    | none ↦ none
    | some reference ↦ some (elim (lookup mirror_key stored.meta.annotations) [
      | none ↦ reference
      | some uid ↦ record reference { uid = uid }
    ])
  ]

  -- The object of an event on a node, whose UID is its name.
  node_reference : Got Node → Option ObjectReference
  node_reference missing = none
  node_reference failed = none
  node_reference (got stored) = elim (reference_of "Node" stored.meta) [
    | none ↦ none
    | some reference ↦ some (record reference { uid = reference.name })
  ]

  related : Event → Option ObjectReference → Result Event
  related e none = err not_found
  related e (some reference) = ok (record e { spec = reference })

  -- `relateToPodOrNode`
  unfoldable pub relate_to_pod_or_node : pods.Store → nodes.Store → Event → Result Event
  unfolding pod_reference node_reference related
  relate_to_pod_or_node ps ns e =
      let cluster = read_map cluster_label e.meta.labels in
      let name = unique_full_resource_name e.spec.name cluster in
      if cluster == ""
      then err no_label
      else if e.spec.kind == "Pod"
      then related e (pod_reference (pods.get e.spec.namespace name ps))
      else if e.spec.kind == "Node"
      then related e (node_reference (nodes.get "" name ns))
      else err unsupported

  -- `CreateEvent`
  unfoldable pub create_event : Event → events.Store → Bool × events.Store
  create_event e = events.create (record e { meta = record (e.meta) { resource_version = "" } })

  event_related : events.Store → Result Event → events.Store
  event_related t (err fault) = t
  event_related t (ok e) = (create_event e t).1

  create_named : pods.Store → nodes.Store → Event → events.Store → Result ObjectMeta → events.Store
  unfolding event_related
  create_named ps ns e t (err fault) = t
  create_named ps ns e t (ok m) =
      event_related t (relate_to_pod_or_node ps ns (record e { meta = m }))

  -- `CenterCreateEvent`
  unfoldable pub center_create_event :
      pods.Store → nodes.Store → Map Event → events.Store → events.Store
  unfolding create_named
  center_create_event ps ns [] t = t
  center_create_event ps ns ((key, e) ∷ rest) t =
      center_create_event ps ns rest (create_named ps ns e t (unique_resource_name e.meta))

  -- `DeleteEvent`
  unfoldable pub delete_event : ObjectMeta → events.Store → Bool × events.Store
  delete_event m = events.delete m.namespace m.name

  event_deleted : events.Store → Result ObjectMeta → events.Store
  event_deleted t (err fault) = t
  event_deleted t (ok m) = (delete_event m t).1

  -- `CenterDeleteEvent`
  unfoldable pub center_delete_event : Map Event → events.Store → events.Store
  unfolding event_deleted
  center_delete_event [] t = t
  center_delete_event ((key, e) ∷ rest) t =
      center_delete_event rest (event_deleted t (unique_resource_name e.meta))

  -- `handleEventReport`
  unfoldable pub handle_event_report :
      Codec (ResourceStatus Event)
      → pods.Store
      → nodes.Store
      → Bytes
      → events.Store
      → Result (Unit {0}) × events.Store
  unfolding center_create_event center_delete_event
  handle_event_report json ps ns b t = elim (json.unmarshal b) [
    | none ↦ (err unmarshal_failed, t)
    | some status ↦
        let t₁ : events.Store = elim status.update_map [
          | none ↦ t
          | some m ↦ center_create_event ps ns m t
        ] in
        (ok tt, elim status.del_map [ none ↦ t₁ | some m ↦ center_delete_event m t₁ ])
  ]
