-- ===== src/Syncer/Mirror.antt =====
-- LevelDB has the JSON forms of the objects that the informers have.
use ote_stack.Prelude.{Bool, true, ◌&&◌, List, [], ◌∷◌}
use ote_stack.Storage.{Objects}
use ote_stack.Storage.KeyName.{is_type}
use ote_stack.Syncer.{
  SyncObject, SyncerKind, InformerEvent, Store, Subscriber, change_of, handle_event,
}
use ote_stack.Syncer.Changes.{Indexers, indexed}

-- No type of a resource has a dash.
abbrev pub all_types : List (SyncerKind × InformerEvent) → Bool
all_types [] = true
all_types ((k, e) ∷ es) = is_type k.obj_type && all_types es

module _ (objects : Objects SyncObject) {Channel : Type 0} (subscriber : Subscriber Channel) where
  -- The indexers and the storage after the events, the first one first.
  abbrev pub run : List (SyncerKind × InformerEvent) → Indexers × Store → Indexers × Store
  run [] x = x
  run ((k, e) ∷ es) (ix, s) = run es (
    indexed objects k.obj_type (change_of objects true k e) ix,
    (handle_event objects true k subscriber e s).1,
  )
