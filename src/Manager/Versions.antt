-- ===== src/Manager/Versions.antt =====
-- Updates by reports never put an older edge version in the place of a newer one.
pub mod Compare
pub mod Attempts
use mathlib.Core.Path.{subst, subst₂}
use ote_stack.Prelude.{
  either_way, ℕ, ◌≤◌, String, ◌≡◌, ◌≢◌, refl, sym, ◌∙◌, ◌⊎◌, inl, inr, Bool, true, false, not, ◌&&◌,
  Option, none, some, [], ◌∷◌, Result, if◌then◌else◌, ◌==◌, eq_iff, arith, Bool-cases,
}
use ote_stack.Maps.{Map}
use ote_stack.Crd.{Answer, done, conflicted, refused}
use ote_stack.Kube.{ObjectMeta, Resource, Client, Got, got, missing, failed, read_map}
use ote_stack.Kube.Reliable.{Reliable, names, names-eq}
use ote_stack.Reporter.{cluster_label, edge_version_label}
use ote_stack.Manager.Names.{unique_full_resource_name}
use ote_stack.Manager.{
  merged, adapted, Kind, unique_resource_name, adapt_to_central_resource, not_lower,
  check_edge_version, update_try, status_try, updated, then_status, update_resource, created,
  create_or_update, update_one, handle_update_map, status_on, update_on, written, prepared,
  update_named,
}
use ote_stack.Manager.Versions.Compare.{version, AtLeast, NotOlder, AtLeast-check}
use ote_stack.Manager.Versions.Attempts.{update_resource-Kept}

-- No object of the map is marked as deleted, for a kind whose marked objects are deleted.
abbrev pub unmarked : {Spec Status : Type 0} → Kind Spec Status → Map (Resource Spec Status) → Bool
unmarked kind [] = true
unmarked kind ((key, r) ∷ rest) =
    not (kind.deletes_marked && r.meta.deletion_timestamp) && unmarked kind rest

module _ {Spec Status : Type 0} (kind : Kind Spec Status) (client : Client (Resource Spec Status))
    (atoi : String → Option ℕ) (rel : Reliable client) (key_of : ObjectMeta → Option String)
    (ns n : String) (v : ℕ) where
  open client use {Store, get, create, update, update_status}

  abbrev R : Type 0
  R = Resource Spec Status

  abbrev Kept : Store → Type 0
  Kept t = NotOlder atoi v (get ns n t)

  create-Kept :
      (r : R) (t : Store)
      → get r.meta.namespace r.meta.name t ≡ missing
      → Kept t
      → Kept (create r t).1
  create-Kept r t e kept = elim (Bool-cases (names r.meta ns n)) [
    | inr other ↦ rw (rel.create-others r t ns n other) kept
    | inl same ↦
        let (p, q) = names-eq r.meta ns n same in
        absurd (subst (NotOlder atoi v) (subst₂ (λ a b. get a b t ≡ missing) p q e) kept)
  ]

  created-Kept :
      (r : R) (s : Bool × Store) → Kept s.1 → Kept (created kind client atoi key_of r s).1
  unfolding created
  created-Kept r (false, t) kept = kept
  created-Kept r (true, t) kept =
      either_way (λ (s : Result Unit × Store). Kept s.1) kind.updates_created
        (update_resource-Kept kind client atoi rel key_of ns n v r t kept) kept

  written-Kept :
      (r : R) (t : Store) (g : Got R)
      → get r.meta.namespace r.meta.name t ≡ g
      → Kept t
      → Kept (written kind client atoi key_of r t g).1
  unfolding written
  written-Kept r t (got o) e kept = update_resource-Kept kind client atoi rel key_of ns n v r t kept
  written-Kept r t missing e kept =
      let new = prepared kind client atoi key_of r in
      created-Kept new (create new t) (create-Kept new t e kept)
  written-Kept r t failed e kept = kept

  -- An object that is not marked as deleted.
  create_or_update-Kept :
      (r : R) (t : Store)
      → (kind.deletes_marked && r.meta.deletion_timestamp) ≡ false
      → Kept t
      → Kept (create_or_update kind client atoi key_of r t).1
  unfolding create_or_update
  create_or_update-Kept r t unmarked kept =
      simp unmarked (written-Kept r t (get r.meta.namespace r.meta.name t) refl kept)

  update_one-Kept :
      (r : R) (t : Store)
      → (kind.deletes_marked && r.meta.deletion_timestamp) ≡ false
      → Kept t
      → Kept (update_one kind client atoi key_of r t)
  unfolding update_one update_named unique_resource_name
  update_one-Kept r t unmarked kept =
      let m : ObjectMeta = record (r.meta) {
        name = unique_full_resource_name r.meta.name (read_map cluster_label r.meta.labels);
      } in
      let renamed : R = record r { meta = m } in
      either_way (λ (res : Result ObjectMeta). Kept (update_named kind client atoi key_of r t res))
        (read_map cluster_label r.meta.labels == "") kept
        (create_or_update-Kept renamed t unmarked kept)

  -- With a reliable client, an object that is stored with an edge version of at least `v` is still
  -- stored with one after the updates of a report, whatever objects the report has, if none of them
  -- is marked as deleted where the kind deletes marked objects.
  pub handle_update_map-NotOlder :
      (updates : Map R) (t : Store)
      → unmarked kind updates ≡ true
      → NotOlder atoi v (get ns n t)
      → NotOlder atoi v (get ns n (handle_update_map kind client atoi key_of updates t))
  unfolding handle_update_map
  handle_update_map-NotOlder [] t h kept = kept
  handle_update_map-NotOlder ((key, r) ∷ rest) t h kept =
      handle_update_map-NotOlder rest (update_one kind client atoi key_of r t) (ground arith)
        (update_one-Kept r t (ground arith) kept)
