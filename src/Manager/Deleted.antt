-- ===== src/Manager/Deleted.antt =====
-- What a report says is deleted is not stored at the center after the report.
use ote_stack.Prelude.{
  String, ◌≡◌, ◌≢◌, refl, ◌∙◌, inl, inr, ap, Bool, true, false, not, ◌&&◌, ◌||◌, Option, some, [],
  ◌∷◌, ok, err, no_label, if◌then◌else◌, ◌==◌, arith, Bool-cases,
}
use ote_stack.Maps.{Map}
use ote_stack.Kube.{ObjectMeta, Resource, Client, missing, failed, read_map}
use ote_stack.Kube.Reliable.{Deletes, Got-cases, names, names-eq}
use ote_stack.Reporter.{cluster_label, ResourceStatus}
use ote_stack.Manager.{
  Kind, unique_resource_name, delete_resource, delete_one, delete_named, handle_del_map,
  handle_status, ℕ, with_deletions, with_full_list, full_list_of, with_updates,
}
use ote_stack.Manager.Names.{unique_full_resource_name}

-- The metadata of a reported object at the center.
abbrev pub central : ObjectMeta → ObjectMeta
central m = record m { name = unique_full_resource_name m.name (read_map cluster_label m.labels) }

-- Does the object have a cluster, and is this its name at the center?
abbrev pub is_central : {Spec Status : Type 0} → String → String → Resource Spec Status → Bool
is_central ns n r = not (read_map cluster_label r.meta.labels == "") && names (central r.meta) ns n

-- Is an object of that name at the center among the deleted ones?
abbrev pub is_deleted : {Spec Status : Type 0} → String → String → Map (Resource Spec Status) → Bool
is_deleted ns n [] = false
is_deleted ns n ((key, r) ∷ rest) = is_central ns n r || is_deleted ns n rest

unique-central :
    (m : ObjectMeta)
    → unique_resource_name m
      ≡ (if read_map cluster_label m.labels == "" then err no_label else ok (central m))
unfolding unique_resource_name
unique-central m = refl

module _ {Spec Status : Type 0} (kind : Kind Spec Status) (client : Client (Resource Spec Status))
    (atoi : String → Option ℕ) (key_of : ObjectMeta → Option String) (deletes : Deletes client)
    (ns n : String) (reads : (t : client.Store) → client.get ns n t ≢ failed) where
  open client use {Store, get}

  abbrev R : Type 0
  R = Resource Spec Status

  cleared : (t : Store) → get ns n (client.delete ns n t).1 ≡ missing
  cleared t = elim (Got-cases (get ns n t)) [
    | inl (o, e) ↦ deletes.delete-gone ns n t (deletes.delete-there ns n t o e)
    | inr (inl e) ↦ deletes.delete-missing ns n t e
    | inr (inr e) ↦ absurd (reads t e)
  ]

  abbrev turn : R → Store → Store
  turn r t = delete_one kind client atoi key_of r t

  named_if :
      (b : Bool) (r : R) (t : Store)
      → delete_named kind client atoi key_of r t (if b then err no_label else ok (central r.meta))
        ≡ (if b then t else (client.delete r.meta.namespace (central r.meta).name t).1)
  unfolding delete_named delete_resource
  named_if true r t = refl
  named_if false r t = refl

  turn_lem :
      (r : R) (t : Store)
      → turn r t ≡ (
          if read_map cluster_label r.meta.labels == ""
          then t
          else (client.delete r.meta.namespace (central r.meta).name t).1)
  unfolding delete_one delete_named delete_resource
  turn_lem r t =
      ap (delete_named kind client atoi key_of r t) (unique-central r.meta)
      ∙ named_if (read_map cluster_label r.meta.labels == "") r t

  turn-others : (r : R) (t : Store) → is_central ns n r ≡ false → get ns n (turn r t) ≡ get ns n t
  turn-others r t h = elim (Bool-cases (read_map cluster_label r.meta.labels == "")) [
    | inl e ↦ rw (turn_lem r t, e) refl
    | inr e ↦
        rw (turn_lem r t, e)
          (deletes.delete-others r.meta.namespace (central r.meta).name ns n t (ground arith))
  ]

  turn-deleted : (r : R) (t : Store) → is_central ns n r ≡ true → get ns n (turn r t) ≡ missing
  turn-deleted r t h =
      let (p, q) = names-eq (central r.meta) ns n (ground arith) in
      let e : (read_map cluster_label r.meta.labels == "") ≡ false = ground arith in
      rw (turn_lem r t, e, p, q) (cleared t)

  turn-missing : (r : R) (t : Store) → get ns n t ≡ missing → get ns n (turn r t) ≡ missing
  turn-missing r t gone = elim (Bool-cases (is_central ns n r)) [
    | inl h ↦ turn-deleted r t h
    | inr h ↦ turn-others r t h ∙ gone
  ]

  loop-missing :
      (m : Map R) (t : Store)
      → get ns n t ≡ missing
      → get ns n (handle_del_map kind client atoi key_of m t) ≡ missing
  unfolding handle_del_map
  loop-missing [] t gone = gone
  loop-missing ((key, r) ∷ rest) t gone = loop-missing rest (turn r t) (turn-missing r t gone)

  loop-deleted :
      (m : Map R) (t : Store)
      → is_deleted ns n m ≡ true
      → get ns n (handle_del_map kind client atoi key_of m t) ≡ missing
  unfolding handle_del_map
  loop-deleted [] t h = absurd (ground arith)
  loop-deleted ((key, r) ∷ rest) t h = elim (Bool-cases (is_central ns n r)) [
    | inl here ↦ loop-missing rest (turn r t) (turn-deleted r t here)
    | inr there ↦ loop-deleted rest (turn r t) (ground arith)
  ]

  pub handle_status-missing :
      (cluster_name : String) (status : ResourceStatus R) (m : Map R) (t : Store)
      → status.del_map ≡ some m
      → is_deleted ns n m ≡ true
      → get ns n (handle_status kind client atoi key_of cluster_name status t) ≡ missing
  unfolding handle_status with_deletions
  handle_status-missing cluster_name status m t e h =
      let t₁ =
        with_full_list kind client atoi key_of cluster_name
          (full_list_of kind client atoi key_of status.full_list) t in
      rw e (loop-deleted m (with_updates kind client atoi key_of status.update_map t₁) h)
