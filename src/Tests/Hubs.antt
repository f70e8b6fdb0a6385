-- ===== src/Tests/Hubs.antt =====
-- An edge hub with one pod, which is asked for another one, `ns/a`.
use ote_stack.Prelude.{
  String, ◌≡◌, refl, true, false, Option, none, some, [], ◌∷◌, keep, not_found, already_exists,
  write_failed, request_failed, err, eq_iff, arith,
}
use ote_stack.Maps.{lookup}
use ote_stack.Message.{Bytes}
use ote_stack.Storage.{EdgehubStorage, Objects, list}
use ote_stack.Storage.Access.{held, WellKeyed}
use ote_stack.Syncer.{SyncObject, WatchEvent, Subscriber, add_watcher}
use ote_stack.Hub.{K8sClient, full_name}
use ote_stack.Hub.Resource.{Fields, get_init_watch_event, check_is_need_to_watch}
use ote_stack.Hub.Kinds.{core_handlers, pod_handler}
use ote_stack.Hub.Service.{
  HubRequest, HubJson, wrote, wrote_error, create_handler, delete_handler, get_handler,
}
use ote_stack.Hub.Lifecycle.{offline_lifecycle, refused_creation_served}
use ote_stack.Hub.Watch.{get_init_watch_event-check_is_need_to_watch}
use ote_stack.Hub.Session.{Watch, registered, do_websocket_watch, second_websocket_watch}

-- An object is its own key; every body reads as the pod `ns/a`, whose JSON form is `9 ∷ []`.
abbrev objects : Objects String
objects = record {
  key_of = λ obj. some obj;
  decode = λ obj_type data'. some "ns/a";
  encode = λ obj. some (9 ∷ []);
}

abbrev storage : EdgehubStorage String
storage = record {
  cache = ("pods", ("ns/b", "ns/b") ∷ []) ∷ [];
  level_db = [];
  remote_enable = false;
}

-- The apiserver does not answer.
abbrev client : K8sClient
client verb uri body = record { status = 0; raw = err request_failed }

abbrev json : HubJson String
json = record {
  marshal_list = λ l. some [];
  unmarshal_endpoints = λ b. none;
  marshal_endpoints = λ ep. none;
}

abbrev fields : Fields String
fields = record { namespace_of = λ o. "ns"; name_of = λ o. o; node_name_of = λ o. "node" }

abbrev request : HubRequest
request = record {
  resource = "pods";
  namespace = "ns";
  name = "a";
  request_uri = "/api/v1/namespaces/ns/pods/a";
  request_body = some (1 ∷ []);
  watch = "";
  field_selector = "";
}

storage-WellKeyed : WellKeyed objects storage.cache
unfolding lookup
storage-WellKeyed t k obj e = ground (arith, eq_iff "pods" t, eq_iff "ns/b" k)

offline_lifecycle_example :
    let (reply, s1) = create_handler client objects true false core_handlers request storage in
    let (reply', s2) = delete_handler client objects true false core_handlers request s1 in
    (reply ≡ wrote (1 ∷ []))
    × (get_handler objects json fields core_handlers request s1 ≡ wrote (9 ∷ []))
    × ((create_handler client objects true false core_handlers request s1).0
        ≡ wrote_error 409 already_exists)
    × (reply' ≡ wrote [])
    × (get_handler objects json fields core_handlers request s2 ≡ wrote_error 404 not_found)
    × ((t k' : String) → held t k' s2.cache ≡ held t k' storage.cache)
unfolding lookup full_name
offline_lifecycle_example =
    offline_lifecycle client objects json fields core_handlers pod_handler request (1 ∷ []) (9 ∷ [])
      "ns/a" (("ns/b", "ns/b") ∷ []) storage refl refl refl refl refl refl refl refl
      storage-WellKeyed refl refl refl

refused_creation_served_example :
    let (reply, s1) = create_handler client objects false false core_handlers request storage in
    (reply ≡ wrote_error 500 write_failed)
    × (get_handler objects json fields core_handlers request s1 ≡ wrote (9 ∷ []))
unfolding lookup full_name
refused_creation_served_example =
    refused_creation_served client objects json fields core_handlers pod_handler request (1 ∷ [])
      (9 ∷ []) "ns/a" (("ns/b", "ns/b") ∷ []) storage refl refl refl refl refl refl refl refl
      storage-WellKeyed refl refl refl

get_init_watch_event-check_is_need_to_watch_example :
    get_init_watch_event fields pod_handler "spec.nodeName=node" "ns" "" storage
    ≡ keep (check_is_need_to_watch fields "pods" "spec.nodeName=node" "ns" "") (list "pods" storage)
get_init_watch_event-check_is_need_to_watch_example =
    get_init_watch_event-check_is_need_to_watch fields pod_handler "spec.nodeName=node" "ns" ""
      storage refl

abbrev object_fields : Fields SyncObject
object_fields = record {
  namespace_of = λ o. o.namespace;
  name_of = λ o. o.name;
  node_name_of = λ o. "node";
}

abbrev bytes_of : WatchEvent → Option Bytes
bytes_of event = some (5 ∷ [])

abbrev second_watch : Watch String
second_watch = record {
  watched_kind = pod_handler;
  selected = "";
  in_namespace = "";
  with_name = "";
  channel = "second";
}

abbrev pods_storage : EdgehubStorage SyncObject
pods_storage = record { cache = []; level_db = []; remote_enable = false }

abbrev one_watch : Subscriber String
one_watch = ("pods", ("1700000000", "first") ∷ []) ∷ []

-- Both watches begin in the same second.
second_websocket_watch_example :
    registered "pods" "1700000000"
      (do_websocket_watch object_fields bytes_of second_watch "1700000000" one_watch pods_storage []
        one_watch).2
    ≡ none
unfolding do_websocket_watch add_watcher lookup
second_websocket_watch_example =
    second_websocket_watch object_fields bytes_of second_watch "1700000000" "1700000000" "first"
      pods_storage [] one_watch one_watch refl refl
