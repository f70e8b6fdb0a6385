-- ===== src/Tests/Syncers.antt =====
-- The syncers of an edge hub with one pod.
use ote_stack.Prelude.{String, ◌≡◌, true, false, none, some, List, [], ◌∷◌}
use ote_stack.Storage.{Objects, update}
use ote_stack.Syncer.{SyncObject, SyncerKind, InformerEvent, on_add, on_delete, removed, Store}
use ote_stack.Syncer.Kinds.{pod_syncer}
use ote_stack.Syncer.Session.{SyncContext, unset, on_healths, failed_start-remote}

abbrev pod_of : String → SyncObject
pod_of name = record {
  api_version = "";
  kind = "";
  namespace = "default";
  name = name;
  resource_version = "1";
  body = "";
}

abbrev objects : Objects SyncObject
objects = record { key_of = λ o. some o.name; decode = λ t b. none; encode = λ o. some (7 ∷ []) }

-- LevelDB has a pod that the apiserver does not have any more.
abbrev store : Store
store = record { cache = []; level_db = ("pods-old", 7 ∷ []) ∷ []; remote_enable = true }

abbrev before : List (SyncerKind × InformerEvent)
before = (pod_syncer, on_add (pod_of "a")) ∷ []

abbrev after : List (SyncerKind × InformerEvent)
after = (pod_syncer, on_add (pod_of "b")) ∷ (pod_syncer, on_delete (removed (pod_of "a"))) ∷ []

abbrev context : SyncContext
context = record { stop_chan = unset; has_factories = false; store = store }

failed_start-remote_example :
    let ctx = on_healths true ((true, none) ∷ (false, none) ∷ []) context in
    (ctx.store.remote_enable ≡ true)
    × ((update objects true "pods" "c" (7 ∷ []) ctx.store).1.cache ≡ ctx.store.cache)
failed_start-remote_example =
    failed_start-remote true context (none ∷ []) objects "pods" "c" (7 ∷ [])
