-- ===== src/Manager/Versions/Attempts.antt =====
-- The retried functions of the processors, and the updates that are made of them.
use mathlib.Core.Path.{subst, subst₂}
use ote_stack.Prelude.{ℕ, String, ◌≡◌, ◌≢◌, refl, sym, ◌⊎◌, inl, inr, true, Option, Bool-cases}
use ote_stack.Crd.{Answer, done, conflicted, refused}
use ote_stack.Kube.{ObjectMeta, Resource, Client, Got, got, missing, failed}
use ote_stack.Kube.Reliable.{Reliable, names, names-eq}
use ote_stack.Manager.{
  merged, adapted, Kind, adapt_to_central_resource, check_edge_version, update_try, status_try,
  updated, then_status, update_resource, status_on, update_on,
}
use ote_stack.Manager.Versions.Compare.{version, AtLeast, NotOlder, AtLeast-check}

module _ {Spec Status : Type 0} (kind : Kind Spec Status) (client : Client (Resource Spec Status))
    (atoi : String → Option ℕ) (rel : Reliable client) (key_of : ObjectMeta → Option String)
    (ns n : String) (v : ℕ) where
  open client use {Store, get, create, update, update_status}

  abbrev pub R : Type 0
  R = Resource Spec Status

  abbrev pub Kept : Store → Type 0
  Kept t = NotOlder atoi v (get ns n t)

  Kept-here :
      (r : R) (t : Store)
      → names r.meta ns n ≡ true
      → (o : R) × (get r.meta.namespace r.meta.name t ≡ got o)
        × AtLeast v (version atoi o.meta.labels)
      → Kept t
  Kept-here r t same (o, e, le) =
      let (p, q) = names-eq r.meta ns n same in
      let e' : get ns n t ≡ got o = subst₂ (λ a b. get a b t ≡ got o) p q e in rw e' le

  stored_at :
      (r o : R) (t : Store)
      → names r.meta ns n ≡ true
      → get r.meta.namespace r.meta.name t ≡ got o
      → Kept t
      → AtLeast v (version atoi o.meta.labels)
  stored_at r o t same e kept =
      let (p, q) = names-eq r.meta ns n same in
      subst (NotOlder atoi v) (subst₂ (λ a b. get a b t ≡ got o) p q e) kept

  is_done : (a : Answer) → (a ≡ done) ⊎ (a ≢ done)
  is_done done = inl refl
  is_done conflicted = inr (λ e. cc)
  is_done refused = inr (λ e. cc)

  -- A write of an object that is not older than the stored one.
  update-Kept :
      (r o : R) (t : Store)
      → get r.meta.namespace r.meta.name t ≡ got o
      → (AtLeast v (version atoi o.meta.labels) → AtLeast v (version atoi r.meta.labels))
      → Kept t
      → Kept (update r t).1
  update-Kept r o t e newer kept = elim (is_done (update r t).0) [
    | inr bad ↦ rw (rel.update-failed r t ns n bad) kept
    | inl fine ↦ elim (Bool-cases (names r.meta ns n)) [
      | inr other ↦ rw (rel.update-others r t ns n other) kept
      | inl same ↦
          let (o', e', l) = rel.update-stored r t fine in
          Kept-here r (update r t).1 same (o', e', rw l (newer (stored_at r o t same e kept)))
    ]
  ]

  status-Kept :
      (r o : R) (t : Store)
      → get r.meta.namespace r.meta.name t ≡ got o
      → (AtLeast v (version atoi o.meta.labels) → AtLeast v (version atoi r.meta.labels))
      → Kept t
      → Kept (update_status r t).1
  status-Kept r o t e newer kept = elim (is_done (update_status r t).0) [
    | inr bad ↦ rw (rel.status-failed r t ns n bad) kept
    | inl fine ↦ elim (Bool-cases (names r.meta ns n)) [
      | inr other ↦ rw (rel.status-others r t ns n other) kept
      | inl same ↦
          let (o', e', l) = rel.status-stored r o t e fine in
          let old = stored_at r o t same e kept in
          Kept-here r (update_status r t).1 same (
            o',
            e',
            elim l [
              | inl given ↦ subst (λ x. AtLeast v (version atoi x)) (sym given) (newer old)
              | inr kept_labels ↦ subst (λ x. AtLeast v (version atoi x)) (sym kept_labels) old
            ],
          )
    ]
  ]

  -- The check passes only a report that is not older than the stored object.
  update_on-Kept :
      (copy : Spec) (r : R) (t : Store) (g : Got R)
      → get r.meta.namespace r.meta.name t ≡ g
      → Kept t
      → Kept (update_on kind client atoi key_of copy r t g).1.1
  unfolding update_on adapt_to_central_resource
  update_on-Kept copy r t missing e kept = kept
  update_on-Kept copy r t failed e kept = kept
  update_on-Kept copy r t (got o) e kept =
      elim (Bool-cases (check_edge_version atoi r.meta o.meta)) [
        | inr fails ↦ rw fails kept
        | inl passes ↦ rw passes (
            update-Kept (merged kind client atoi key_of r o copy) o t e
              (AtLeast-check atoi v r.meta o.meta passes) kept)
      ]

  status_on-Kept :
      (r : R) (t : Store) (g : Got R)
      → get r.meta.namespace r.meta.name t ≡ g
      → Kept t
      → Kept (status_on kind client atoi key_of r t g).1.1
  unfolding status_on adapt_to_central_resource
  status_on-Kept r t missing e kept = kept
  status_on-Kept r t failed e kept = kept
  status_on-Kept r t (got o) e kept = elim (Bool-cases (check_edge_version atoi r.meta o.meta)) [
    | inr fails ↦ rw fails kept
    | inl passes ↦ rw passes (
        status-Kept (adapted kind client atoi key_of r o) o t e
          (AtLeast-check atoi v r.meta o.meta passes) kept)
  ]

  updated-Kept :
      (s : Answer × (R × Store)) → Kept s.1.1 → Kept (updated kind client atoi key_of s).1
  unfolding updated
  updated-Kept (done, (r, t)) kept = kept
  updated-Kept (conflicted, (r, t)) kept = kept
  updated-Kept (refused, (r, t)) kept = kept

  status_try-Kept : (s : R × Store) → Kept s.1 → Kept (status_try kind client atoi key_of s).1.1
  unfolding status_try
  status_try-Kept (r, t) = status_on-Kept r t (get r.meta.namespace r.meta.name t) refl

  then_status-Kept :
      (s : Answer × (R × Store)) → Kept s.1.1 → Kept (then_status kind client atoi key_of s).1
  unfolding then_status
  then_status-Kept (conflicted, (r, t)) kept = kept
  then_status-Kept (refused, (r, t)) kept = kept
  then_status-Kept (done, (r, t)) kept =
      let attempt = status_try kind client atoi key_of in
      updated-Kept (client.retry_on_conflict (R × Store) attempt (r, t))
        (rel.retry_keeps (R × Store) (λ u. Kept u.1) attempt (r, t) status_try-Kept kept)

  pub update_resource-Kept :
      (r : R) (t : Store) → Kept t → Kept (update_resource kind client atoi key_of r t).1
  unfolding update_resource update_try
  update_resource-Kept r t kept =
      let attempt = update_try kind client atoi key_of r.spec in
      then_status-Kept (client.retry_on_conflict (R × Store) attempt (r, t)) (
        rel.retry_keeps (R × Store) (λ u. Kept u.1) attempt (r, t)
          (λ u. update_on-Kept r.spec u.0 u.1 (get u.0.meta.namespace u.0.meta.name u.1) refl) kept)
