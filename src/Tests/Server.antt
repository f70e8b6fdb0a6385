-- ===== src/Tests/Server.antt =====
-- An apiserver with room for one cluster and one clustercontroller.
use ote_stack.Prelude.{
  String, ◌≡◌, ◌≢◌, refl, ◌&&◌, Option, none, some, if◌then◌else◌, ◌==◌, eq_iff, arith,
}
use ote_stack.Crd.{Api, Answer, done, refused, Cluster, ClusterController}
use ote_stack.Crd.Clock.{Reliable}

abbrev pub Slots : Type 0
Slots = Option Cluster × Option ClusterController

abbrev pub answer_to : Option Cluster → String → String → Option Cluster
answer_to none ns n = none
answer_to (some c) ns n = if c.namespace == ns && c.name == n then some c else none

abbrev pub controller_named : Option ClusterController → String → String → Option ClusterController
controller_named none ns n = none
controller_named (some c) ns n = if c.namespace == ns && c.name == n then some c else none

abbrev pub put : Cluster → Slots → Answer × Slots
put c (none, cc') = (refused, (none, cc'))
put c (some old, cc') =
    if old.namespace == c.namespace && old.name == c.name
    then (done, (some c, cc'))
    else (refused, (some old, cc'))

abbrev pub create : Cluster → Slots → Slots
create c (none, cc') = (some c, cc')
create c (some old, cc') = (some old, cc')

abbrev pub one_slot : Api
one_slot = record {
  Server = Slots;
  get_cluster = λ ns n t. answer_to t.0 ns n;
  create_cluster = create;
  update_cluster = put;
  get_controller = λ ns n t. controller_named t.1 ns n;
  update_controller = λ c t. (t.0, some c);
  retry_on_conflict = λ f t. f t;
}

get-put :
    (c : Cluster) (t : Slots) (ns n : String)
    → (put c t).0 ≡ done
    → answer_to (put c t).1.0 ns n
      ≡ (if c.namespace == ns && c.name == n then some c else answer_to t.0 ns n)
get-put c (none, cc') ns n e = absurd (ground arith)
get-put c (some old, cc') ns n e =
    ground (arith, eq_iff old.namespace c.namespace, eq_iff old.name c.name)

get-unput :
    (c : Cluster) (t : Slots) (ns n : String)
    → (put c t).0 ≢ done
    → answer_to (put c t).1.0 ns n ≡ answer_to t.0 ns n
get-unput c (none, cc') ns n ne = refl
get-unput c (some old, cc') ns n ne = ground arith

get-create :
    (c x : Cluster) (t : Slots) (ns n : String)
    → answer_to t.0 ns n ≡ some x
    → answer_to (create c t).0 ns n ≡ some x
get-create c x (none, cc') ns n e = absurd (ground arith)
get-create c x (some old, cc') ns n e = e

name-get :
    (t : Slots) (ns n : String) (c : Cluster)
    → answer_to t.0 ns n ≡ some c
    → (c.namespace ≡ ns) × (c.name ≡ n)
name-get (none, cc') ns n c e = absurd (ground arith)
name-get (some old, cc') ns n c e =
    (ground (arith, eq_iff old.namespace ns), ground (arith, eq_iff old.name n))

pub one_slot-Reliable : Reliable one_slot
one_slot-Reliable = record {
  get-update = get-put;
  get-failed = get-unput;
  get-create = get-create;
  get-update_controller = λ c t ns n. refl;
  name-get = name-get;
  retry_keeps = λ P f t step h. step t h;
}
