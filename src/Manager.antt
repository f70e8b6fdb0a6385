-- ===== src/Manager.antt =====
-- pkg/controllermanager: what the reports of the edge clusters change at the center.
-- `atoi` is `strconv.Atoi`, and `key_of` is `cache.MetaNamespaceKeyFunc`. The processors of the
-- different kinds of objects repeat one another; a `Kind` has what they do differently.
pub mod Names
pub mod Kinds
pub mod Events
pub mod Upstream
pub mod Versions
pub mod FullList
pub mod Deleted
pub mod PodFlow
use ote_stack.Prelude.{
  ℕ, String, Bool, true, false, not, ◌&&◌, Option, none, some, List, [], ◌∷◌, map, Result, ok, err,
  update_rejected, not_found, write_failed, no_label, if◌then◌else◌, ◌==◌, leb, elem, is_empty,
}
use ote_stack.Maps.{Map}
use ote_stack.Crd.{Answer, done, conflicted, refused}
use ote_stack.Kube.{ObjectMeta, Resource, Client, Got, got, missing, failed, read_map}
use ote_stack.Reporter.{cluster_label, edge_version_label, ResourceStatus}
use Names.{unique_full_resource_name}

-- `UniqueResourceName`
unfoldable pub unique_resource_name : ObjectMeta → Result ObjectMeta
unique_resource_name m =
    let cluster = read_map cluster_label m.labels in
    if cluster == ""
    then err no_label
    else ok (record m { name = unique_full_resource_name m.name cluster })

-- `adaptToCentralResource`
unfoldable pub adapt_to_central_resource : ObjectMeta → ObjectMeta → ObjectMeta
adapt_to_central_resource report stored = record report {
  resource_version = stored.resource_version;
  uid = stored.uid;
}

-- Both versions can be read, and the reported one is not the lower one.
not_lower : Option ℕ → Option ℕ → Bool
not_lower (some edge) (some stored) = leb stored edge
not_lower _ _ = false

-- `checkEdgeVersion`
unfoldable pub check_edge_version : (String → Option ℕ) → ObjectMeta → ObjectMeta → Bool
unfolding not_lower
check_edge_version atoi report stored =
    let edge = read_map edge_version_label report.labels in
    let old = read_map edge_version_label stored.labels in
    not (edge == "") && not (old == "") && not_lower (atoi edge) (atoi old)

-- What the processors of the kinds do differently: `prepare` is what a create changes first,
-- `merge_spec stored reported` the specification of an update, `deletes_marked` says whether an
-- update with a deletion timestamp deletes, `updates_created` whether an update follows a create,
-- and `skips_empty_list` whether an empty full list is passed over.
pub record Kind (Spec Status : Type 0) : Type 0 where
  pub prepare : Spec → Spec
  pub merge_spec : Spec → Spec → Spec
  pub deletes_marked : Bool
  pub updates_created : Bool
  pub skips_empty_list : Bool

module _ {Spec Status : Type 0} (kind : Kind Spec Status) (client : Client (Resource Spec Status))
    (atoi : String → Option ℕ) (key_of : ObjectMeta → Option String) where
  open client use {Store, get, create, update, update_status, delete, list, retry_on_conflict}

  abbrev R : Type 0
  R = Resource Spec Status

  -- The report with what the stored object has.
  abbrev pub adapted : R → R → R
  adapted r stored = record r { meta = adapt_to_central_resource r.meta stored.meta }

  abbrev pub merged : R → R → Spec → R
  merged r stored copy = record (adapted r stored) { spec = kind.merge_spec stored.spec copy }

  update_on : Spec → R → Store → Got R → Answer × (R × Store)
  update_on copy r t missing = (refused, (r, t))
  update_on copy r t failed = (refused, (r, t))
  update_on copy r t (got stored) =
      let r' = merged r stored copy in
      if check_edge_version atoi r.meta stored.meta
      then ((update r' t).0, (r', (update r' t).1))
      else (refused, (r, t))

  -- The first function that `UpdatePod` retries; it changes the object that it is given. `copy` is
  -- the specification that was reported.
  unfoldable pub update_try : Spec → R × Store → Answer × (R × Store)
  unfolding update_on
  update_try copy (r, t) = update_on copy r t (get r.meta.namespace r.meta.name t)

  status_on : R → Store → Got R → Answer × (R × Store)
  status_on r t missing = (refused, (r, t))
  status_on r t failed = (refused, (r, t))
  status_on r t (got stored) =
      let r' = adapted r stored in
      if check_edge_version atoi r.meta stored.meta
      then ((update_status r' t).0, (r', (update_status r' t).1))
      else (refused, (r, t))

  -- The second one
  unfoldable pub status_try : R × Store → Answer × (R × Store)
  unfolding status_on
  status_try (r, t) = status_on r t (get r.meta.namespace r.meta.name t)

  -- The result of `UpdatePod`, from that of its two retries.
  updated : Answer × (R × Store) → Result (Unit {0}) × Store
  updated (done, (r, t)) = (ok tt, t)
  updated (_, (r, t)) = (err update_rejected, t)

  then_status : Answer × (R × Store) → Result (Unit {0}) × Store
  unfolding updated
  then_status (done, (r, t)) = updated (retry_on_conflict (R × Store) status_try (r, t))
  then_status (_, (r, t)) = (err update_rejected, t)

  -- `UpdatePod`
  unfoldable pub update_resource : R → Store → Result (Unit {0}) × Store
  unfolding then_status
  update_resource r t = then_status (retry_on_conflict (R × Store) (update_try r.spec) (r, t))

  -- `DeletePod`
  unfoldable pub delete_resource : R → Store → Result (Unit {0}) × Store
  delete_resource r t =
      let answer = delete r.meta.namespace r.meta.name t in
      (if answer.0 then ok tt else err write_failed, answer.1)

  -- The object as `CreatePod` makes it.
  abbrev prepared : R → R
  prepared r = record r {
    meta = record (r.meta) { resource_version = "" };
    spec = kind.prepare r.spec;
  }

  -- The end of `CreateOrUpdatePod` for a new object, with the answer to the create.
  created : R → Bool × Store → Result (Unit {0}) × Store
  created r (false, t) = (err write_failed, t)
  created r (true, t) = if kind.updates_created then update_resource r t else (ok tt, t)

  -- `CreateOrUpdatePod` for what the client has of that name.
  written : R → Store → Got R → Result (Unit {0}) × Store
  unfolding created
  written r t (got stored) = update_resource r t
  written r t missing = created (prepared r) (create (prepared r) t)
  written r t failed = (err not_found, t)

  -- `CreateOrUpdatePod`
  unfoldable pub create_or_update : R → Store → Result (Unit {0}) × Store
  unfolding written
  create_or_update r t =
      if kind.deletes_marked && r.meta.deletion_timestamp
      then delete_resource r t
      else written r t (get r.meta.namespace r.meta.name t)

  update_named : R → Store → Result ObjectMeta → Store
  update_named r t (err e) = t
  update_named r t (ok m) = (create_or_update (record r { meta = m }) t).1

  -- One turn of `handlePodUpdateMap`: errors are only logged.
  unfoldable pub update_one : R → Store → Store
  unfolding update_named
  update_one r t = update_named r t (unique_resource_name r.meta)

  -- `handlePodUpdateMap`
  unfoldable pub handle_update_map : Map R → Store → Store
  unfolding update_one
  handle_update_map [] t = t
  handle_update_map ((key, r) ∷ rest) t = handle_update_map rest (update_one r t)

  delete_named : R → Store → Result ObjectMeta → Store
  delete_named r t (err e) = t
  delete_named r t (ok m) = (delete_resource (record r { meta = m }) t).1

  -- One turn of `handlePodDelMap`
  unfoldable pub delete_one : R → Store → Store
  unfolding delete_named
  delete_one r t = delete_named r t (unique_resource_name r.meta)

  -- `handlePodDelMap`
  unfoldable pub handle_del_map : Map R → Store → Store
  unfolding delete_one
  handle_del_map [] t = t
  handle_del_map ((key, r) ∷ rest) t = handle_del_map rest (delete_one r t)

  excess_keyed : List String → R → Store → Option String → Store
  excess_keyed wanted r t none = t
  excess_keyed wanted r t (some key) = if elem key wanted then t else (delete_resource r t).1

  -- One turn of the second loop of `handlePodFullList`: what the edge does not have is deleted.
  unfoldable pub delete_excess : List String → R → Store → Store
  unfolding excess_keyed
  delete_excess wanted r t = excess_keyed wanted r t (key_of r.meta)

  excess_loop : List String → List R → Store → Store
  unfolding delete_excess
  excess_loop wanted [] t = t
  excess_loop wanted (r ∷ rs) t = excess_loop wanted rs (delete_excess wanted r t)

  listed : List String → Store → Option (List R) → Store
  unfolding excess_loop
  listed wanted t none = t
  listed wanted t (some stored) = excess_loop wanted stored t

  -- `handlePodFullList`
  unfoldable pub handle_full_list : String → List String → Store → Store
  unfolding listed
  handle_full_list cluster_name full_list t =
      listed (map (λ key. unique_full_resource_name key cluster_name) full_list) t
        (list cluster_label cluster_name t)

  -- The full list of a report, unless it is nil or an empty one that is passed over.
  abbrev pub full_list_of : Option (List String) → Option (List String)
  full_list_of none = none
  full_list_of (some keys') = if kind.skips_empty_list && is_empty keys' then none else some keys'

  with_full_list : String → Option (List String) → Store → Store
  with_full_list cluster_name none t = t
  with_full_list cluster_name (some keys') t = handle_full_list cluster_name keys' t

  with_updates : Option (Map R) → Store → Store
  with_updates none t = t
  with_updates (some m) t = handle_update_map m t

  with_deletions : Option (Map R) → Store → Store
  with_deletions none t = t
  with_deletions (some m) t = handle_del_map m t

  -- `handlePodReport`, for a report that could be read: the full list comes first, then the
  -- updates, and the deletions last.
  unfoldable pub handle_status : String → ResourceStatus R → Store → Store
  unfolding with_full_list with_updates with_deletions
  handle_status cluster_name status t =
      let t₁ = with_full_list cluster_name (full_list_of status.full_list) t in
      let t₂ = with_updates status.update_map t₁ in with_deletions status.del_map t₂
