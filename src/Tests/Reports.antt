-- ===== src/Tests/Reports.antt =====
-- Reports of an edge cluster, and the center that handles them.
use ote_stack.Prelude.{
  ℕ, String, ◌≡◌, refl, false, Option, none, some, List, [], ◌∷◌, if◌then◌else◌, ◌==◌, keep, arith,
}
use ote_stack.Maps.{lookup}
use ote_stack.Kube.{ObjectMeta, got}
use ote_stack.Reporter.{cluster_label, edge_version_label}
use ote_stack.Reporter.Objects.{Node, Deployment}
use ote_stack.Reporter.Status.{is_node_ready, caculate_cluster_resource}
use ote_stack.Reporter.Status.Totals.{sum, offered, caculate_cluster_resource_lem}
use ote_stack.Manager.{handle_update_map, handle_full_list}
use ote_stack.Manager.Kinds.{deployment_kind}
use ote_stack.Manager.Versions.{handle_update_map-NotOlder}
use ote_stack.Manager.Versions.Compare.{NotOlder}
use ote_stack.Manager.FullList.{remaining, handle_full_list-remaining}
use ote_stack.Tests.Client.{one_object, one_object-Reliable, one_object-Deletes, one_object-Lists}

abbrev pub atoi : String → Option ℕ
atoi s = if s == "5" then some 5 else if s == "7" then some 7 else none

abbrev pub key_of : ObjectMeta → Option String
key_of m = some m.name

abbrev pub meta : String → String → String → ObjectMeta
meta name cluster version = record {
  name = name;
  namespace = "default";
  uid = "";
  resource_version = version;
  labels = some ((cluster_label, cluster) ∷ (edge_version_label, version) ∷ []);
  annotations = [];
  deletion_timestamp = false;
}

abbrev web : String → String → Deployment
web name version = record {
  meta = meta name "east" version;
  spec = record { template = "t"; selector = "s"; replicas = "1"; others = "" };
  status = record { replicas = 1; updated_replicas = 1; available_replicas = 1; others = "" };
}

stored-NotOlder : NotOlder atoi 5 (one_object.get "default" "web-east" (some (web "web-east" "5")))
unfolding lookup
stored-NotOlder = omega arith

handle_update_map-NotOlder_example : NotOlder atoi 5 (
    one_object.get "default" "web-east" (
      handle_update_map deployment_kind one_object atoi key_of
        (("web", web "web" "7") ∷ [])
        (some (web "web-east" "5"))))
handle_update_map-NotOlder_example =
    handle_update_map-NotOlder deployment_kind one_object atoi one_object-Reliable key_of "default"
      "web-east" 5 (("web", web "web" "7") ∷ []) (some (web "web-east" "5")) refl stored-NotOlder

handle_full_list-remaining_example :
    one_object.get "default" "web-east" (
      handle_full_list deployment_kind one_object atoi key_of "east"
        ("api" ∷ [])
        (some (web "web-east" "5")))
    ≡ remaining "east" ("api" ∷ []) "web-east" (got (web "web-east" "5"))
unfolding lookup
handle_full_list-remaining_example =
    handle_full_list-remaining deployment_kind one_object atoi key_of (λ ns n. n) (λ m. refl)
      one_object-Deletes "default" "web-east" "east" ("api" ∷ []) (web "web-east" "5" ∷ [])
      (some (web "web-east" "5")) one_object-Lists refl refl

abbrev pub node_of : String → String → Node
node_of ready cpu = record {
  meta = meta "n" "east" "5";
  spec = record { unschedulable = false; others = "" };
  status = record {
    conditions = record { kind = "Ready"; status = ready; reason = "" } ∷ [];
    node_info = "";
    addresses = "";
    capacity = ("cpu", cpu) ∷ [];
    allocatable = ("cpu", cpu) ∷ [];
    others = "";
  };
}

abbrev three_nodes : List Node
three_nodes = node_of "True" "1" ∷ node_of "False" "2" ∷ node_of "True" "3" ∷ []

caculate_cluster_resource_lem_example :
    (lookup "cpu" (caculate_cluster_resource "0" (λ a b. b) three_nodes).capacity
      ≡ sum "0"
          (λ a b. b)
          none
          (offered (λ n. n.status.capacity) "cpu" (keep is_node_ready three_nodes)))
    × (lookup "cpu" (caculate_cluster_resource "0" (λ a b. b) three_nodes).allocatable
        ≡ sum "0"
            (λ a b. b)
            none
            (offered (λ n. n.status.allocatable) "cpu" (keep is_node_ready three_nodes)))
caculate_cluster_resource_lem_example =
    caculate_cluster_resource_lem "0" (λ a b. b) "cpu" three_nodes
