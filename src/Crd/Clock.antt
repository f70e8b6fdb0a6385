-- ===== src/Crd/Clock.antt =====
-- Updates of a cluster's status never turn its clock back.
use mathlib.Core.Path.{subst, subst₂}
use native.Mathlib.Nat.{le_trans}
use ote_stack.Prelude.{
  inl, inr, ◌⊎◌, ◌≢◌, sym, Option-cases, Bool-cases, ℕ, String, ◌≡◌, refl, ◌≤◌, Option, none, some,
  if◌then◌else◌, ◌&&◌, ◌==◌, arith, eq_iff, Option-cases, ◌≢◌, true,
}
use ote_stack.Crd.{
  ClusterController, Api, Answer, done, conflicted, refused, Cluster, update_cluster_is_valid,
  update_attempt, update_status, result_of,
}

-- What the client relies on: what a read returns after a write, that a failed write changes
-- nothing, and that a retry only repeats its function.
pub record Reliable (api : Api) : Type 1 where
  pub get-update :
      (c : Cluster) (t : api.Server) (ns n : String)
      → (api.update_cluster c t).0 ≡ done
      → api.get_cluster ns n (api.update_cluster c t).1
        ≡ (if c.namespace == ns && c.name == n then some c else api.get_cluster ns n t)
  pub get-failed :
      (c : Cluster) (t : api.Server) (ns n : String)
      → (api.update_cluster c t).0 ≢ done
      → api.get_cluster ns n (api.update_cluster c t).1 ≡ api.get_cluster ns n t
  pub get-create :
      (c x : Cluster) (t : api.Server) (ns n : String)
      → api.get_cluster ns n t ≡ some x
      → api.get_cluster ns n (api.create_cluster c t) ≡ some x
  pub get-update_controller :
      (c : ClusterController) (t : api.Server) (ns n : String)
      → api.get_cluster ns n (api.update_controller c t) ≡ api.get_cluster ns n t
  pub name-get :
      (t : api.Server) (ns n : String) (c : Cluster)
      → api.get_cluster ns n t ≡ some c
      → (c.namespace ≡ ns) × (c.name ≡ n)
  pub retry_keeps :
      (P : api.Server → Type 0) (f : api.Server → Answer × api.Server) (t : api.Server)
      → ((u : api.Server) → P u → P (f u).1)
      → P t
      → P (api.retry_on_conflict f t).1

-- There is a stored cluster, and its timestamp is at least `n`.
abbrev pub NotBefore : ℕ → Option Cluster → Type 0
NotBefore n none = ⊥
NotBefore n (some c) = n ≤ c.status.timestamp

is_done : (a : Answer) → (a ≡ done) ⊎ (a ≢ done)
is_done done = inl refl
is_done conflicted = inr (λ e. cc)
is_done refused = inr (λ e. cc)

server_result_of : {S : Type 0} (x : Answer × S) → (result_of x).1 ≡ x.1
server_result_of (done, t) = refl
server_result_of (conflicted, t) = refl
server_result_of (refused, t) = refl

module _ (api : Api) (r : Reliable api) where
  open api use {Server, get_cluster}

  -- An update writes a cluster that is no older than the stored one, and so ages nothing.
  update-NotBefore :
      (w old : Cluster) (ns n : String) (k : ℕ) (t : Server)
      → get_cluster w.namespace w.name t ≡ some old
      → old.status.timestamp ≤ w.status.timestamp
      → NotBefore k (get_cluster ns n t)
      → NotBefore k (get_cluster ns n (api.update_cluster w t).1)
  update-NotBefore w old ns n k t e le h = elim (is_done (api.update_cluster w t).0) [
    | inr failed ↦ rw (r.get-failed w t ns n failed) h
    | inl e' ↦ rw (r.get-update w t ns n e') (elim (Bool-cases (w.namespace == ns && w.name == n)) [
      | inr other ↦ rw other h
      | inl same ↦ rw same (kept same)
    ])
  ]
    where
      kept : (w.namespace == ns && w.name == n) ≡ true → k ≤ w.status.timestamp
      kept same =
          let p : w.namespace ≡ ns = (eq_iff w.namespace ns).0 (ground arith) in
          let q : w.name ≡ n = (eq_iff w.name n).0 (ground arith) in
          let found : get_cluster ns n t ≡ some old =
            subst₂ (λ a b. get_cluster a b t ≡ some old) p q e in
          le_trans (subst (NotBefore k) found h) le

  attempt-NotBefore :
      (new : Cluster) (ns n : String) (k : ℕ) (t : Server)
      → NotBefore k (get_cluster ns n t)
      → NotBefore k (get_cluster ns n (update_attempt api new t).1)
  unfolding update_attempt
  attempt-NotBefore new ns n k t h = elim (Option-cases (get_cluster new.namespace new.name t)) [
    | inl e ↦ rw (e, update_attempt) h
    | inr (old, e) ↦ elim (Bool-cases (update_cluster_is_valid new old)) [
      | inr stale ↦ rw (e, update_attempt) (rw stale h)
      | inl newer ↦
          let ids = r.name-get t new.namespace new.name old e in
          let e' : get_cluster old.namespace old.name t ≡ some old =
            subst₂ (λ a b. get_cluster a b t ≡ some old) (sym ids.0) (sym ids.1) e in
          rw (e, update_attempt)
            (rw newer (
              update-NotBefore (record old { status = new.status }) old ns n k t e' (ground arith)
                h))
    ]
  ]

  -- With a reliable apiserver, no update of a status, whatever its outcome, loses a stored cluster
  -- or takes its timestamp below a bound that it has.
  pub update_status-NotBefore :
      (new : Cluster) (ns n : String) (k : ℕ) (t : Server)
      → NotBefore k (get_cluster ns n t)
      → NotBefore k (get_cluster ns n (update_status api new t).1)
  unfolding update_status
  update_status-NotBefore new ns n k t h =
      rw (server_result_of (api.retry_on_conflict (update_attempt api new) t)) (
        r.retry_keeps (λ u. NotBefore k (get_cluster ns n u)) (update_attempt api new) t
          (attempt-NotBefore new ns n k) h)
