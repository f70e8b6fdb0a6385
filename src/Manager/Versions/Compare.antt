-- ===== src/Manager/Versions/Compare.antt =====
-- checkEdgeVersion of pkg/controllermanager/utils.go: versions of labels, and their order.
use ote_stack.Prelude.{
  ℕ, ◌≤◌, String, ◌≡◌, refl, sym, ◌∙◌, inl, inr, true, false, Option, none, some, if◌then◌else◌,
  ◌==◌, arith, Bool-cases,
}
use ote_stack.Maps.{Map}
use ote_stack.Kube.{ObjectMeta, Resource, Got, got, missing, failed, read_map}
use ote_stack.Reporter.{edge_version_label}
use ote_stack.Manager.{not_lower, check_edge_version}

-- The edge version that labels carry, if it can be read.
abbrev pub version : (String → Option ℕ) → Option (Map String) → Option ℕ
version atoi labels =
    let text = read_map edge_version_label labels in if text == "" then none else atoi text

-- A version of at least `v`.
abbrev pub AtLeast : ℕ → Option ℕ → Type 0
AtLeast v none = ⊥
AtLeast v (some w) = v ≤ w

-- An object of that version is stored.
abbrev pub NotOlder :
    {Spec Status : Type 0} → (String → Option ℕ) → ℕ → Got (Resource Spec Status) → Type 0
NotOlder atoi v (got r) = AtLeast v (version atoi r.meta.labels)
NotOlder atoi v missing = ⊥
NotOlder atoi v failed = ⊥

not_lower-none : (edge : Option ℕ) → not_lower edge none ≡ false
unfolding not_lower
not_lower-none none = refl
not_lower-none (some e) = refl

check-version :
    (atoi : String → Option ℕ) (report stored : ObjectMeta)
    → check_edge_version atoi report stored
      ≡ not_lower (version atoi report.labels) (version atoi stored.labels)
unfolding check_edge_version not_lower
check-version atoi report stored =
    let edge = read_map edge_version_label report.labels in
    let old = read_map edge_version_label stored.labels in
    elim (Bool-cases (edge == "")) [
      | inl e ↦ ground arith
      | inr e ↦ elim (Bool-cases (old == "")) [
        | inl e' ↦ ground (arith, not_lower-none (version atoi report.labels))
        | inr e' ↦ ground arith
      ]
    ]

AtLeast-not_lower :
    (v : ℕ) (edge stored : Option ℕ)
    → not_lower edge stored ≡ true
    → AtLeast v stored
    → AtLeast v edge
unfolding not_lower
AtLeast-not_lower v (some e) (some s) h k = ground arith
AtLeast-not_lower v none stored h k = absurd (ground arith)
AtLeast-not_lower v (some e) none h k = absurd k

-- A report that passes the check is not older than what is stored.
pub AtLeast-check :
    (atoi : String → Option ℕ) (v : ℕ) (report stored : ObjectMeta)
    → check_edge_version atoi report stored ≡ true
    → AtLeast v (version atoi stored.labels)
    → AtLeast v (version atoi report.labels)
AtLeast-check atoi v report stored h =
    AtLeast-not_lower v (version atoi report.labels) (version atoi stored.labels)
      (sym (check-version atoi report stored) ∙ h)
