-- ===== src/Crd.antt =====
-- pkg/apis/ote/v1/types.go and pkg/k8sclient: the custom resources, and the client methods on them.
-- The apiserver behind the generated client is a parameter, `Api`.
pub mod Clock
use ote_stack.Prelude.{
  ℕ, String, ◌≡◌, ◌<◌, ◌≤◌, Bool, Option, none, some, Result, ok, err, update_rejected, not_found,
  write_failed, if◌then◌else◌, ltb, ◌&&◌, ◌==◌,
}
use ote_stack.Maps.{Map}
use ote_stack.Message.{Bytes}

-- `ClusterNamespace`
abbrev pub cluster_namespace : String
cluster_namespace = "kube-system"

-- `ClusterStatusOnline`
abbrev pub online : String
online = "online"

-- `ClusterStatusOffline`
abbrev pub offline : String
offline = "offline"

-- `ClusterStatus` with the embedded `ClusterResource`; a quantity is its text.
pub record ClusterStatus : Type 0 where
  pub listen : String
  pub parent_name : String
  pub status : String
  pub timestamp : ℕ
  pub capacity : Map String
  pub allocatable : Map String

pub record Cluster : Type 0 where
  pub name : String
  pub namespace : String
  pub spec_name : String
  pub status : ClusterStatus

pub record ClusterControllerStatus : Type 0 where
  pub timestamp : ℕ
  pub status_code : ℕ
  pub body : Bytes

pub record ClusterControllerSpec : Type 0 where
  pub parent_cluster_name : String
  pub cluster_selector : String
  pub destination : String
  pub method : String
  pub url : String
  pub body : Bytes

-- `created` is the creation timestamp in seconds; a nil status map reads as an empty one.
pub record ClusterController : Type 0 where
  pub name : String
  pub namespace : String
  pub created : ℕ
  pub spec : ClusterControllerSpec
  pub status : Map ClusterControllerStatus

-- What the apiserver answers to an update: done, a version conflict, or any other error.
pub data Answer : Type 0 where
  done conflicted refused : Answer

-- The apiserver, as the generated client and `retry.RetryOnConflict` show it.
pub record Api : Type 1 where
  pub Server : Type 0
  pub get_cluster : String → String → Server → Option Cluster
  pub create_cluster : Cluster → Server → Server
  pub update_cluster : Cluster → Server → Answer × Server
  pub get_controller : String → String → Server → Option ClusterController
  pub update_controller : ClusterController → Server → Server
  pub retry_on_conflict : (Server → Answer × Server) → Server → Answer × Server

abbrev pub result_of : {S : Type 0} → Answer × S → Result (Unit {0}) × S
result_of (done, t) = (ok tt, t)
result_of (conflicted, t) = (err update_rejected, t)
result_of (refused, t) = (err update_rejected, t)

-- `updateClusterIsValid`
abbrev pub update_cluster_is_valid : Cluster → Cluster → Bool
update_cluster_is_valid new old = ltb old.status.timestamp new.status.timestamp

module _ (api : Api) where
  open api use {Server, get_cluster, update_cluster, retry_on_conflict}

  -- The function that `UpdateStatus` retries.
  unfoldable pub update_attempt : Cluster → Server → Answer × Server
  update_attempt new t = elim (get_cluster new.namespace new.name t) [
    | none ↦ (refused, t)
    | some old ↦
        if update_cluster_is_valid new old
        then update_cluster (record old { status = new.status }) t
        else (refused, t)
  ]

  -- `ClusterCRD.UpdateStatus`
  unfoldable pub update_status : Cluster → Server → Result (Unit {0}) × Server
  unfolding update_attempt
  update_status new t = result_of (retry_on_conflict (update_attempt new) t)

  -- `ClusterCRD.PatchStatus`; `patch old new` is the client's `Patch` by what `getPatchBytes` returns
  -- of the two, and whether neither has failed.
  unfoldable pub patch_status :
      (Cluster → Cluster → Server → Bool × Server) → Cluster → Server → Result (Unit {0}) × Server
  patch_status patch new t = elim (get_cluster new.namespace new.name t) [
    | none ↦ (err not_found, t)
    | some old ↦
        if update_cluster_is_valid new old
        then (let answer = patch old (record old { status = new.status }) t in
            (if answer.0 then ok tt else err write_failed, answer.1))
        else (err update_rejected, t)
  ]
