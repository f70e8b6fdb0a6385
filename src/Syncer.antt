-- ===== src/Syncer.antt =====
-- pkg/syncer/syncer.go: the informers' events, kept in LevelDB and passed to the node's watchers.
-- The 14 syncers repeat one another: `SyncerKind` has what they do differently. The libraries that
-- make keys and JSON are the `Objects` of the storage.
pub mod Kinds
pub mod Session
pub mod Changes
pub mod Mirror
use ote_stack.Prelude.{
  String, Bool, true, false, Option, none, some, List, [], ◌∷◌, Result, ok, err, nil_dereference,
  if◌then◌else◌, ◌==◌, map,
}
use ote_stack.Maps.{Map, lookup, insert, erase, keys}
use ote_stack.Message.{Bytes}
use ote_stack.Storage.{EdgehubStorage, Objects, update, delete, merge_delete}

-- An object of the apiserver; `body` is all that the syncers do not name.
pub record SyncObject : Type 0 where
  pub api_version : String
  pub kind : String
  pub namespace : String
  pub name : String
  pub resource_version : String
  pub body : String

-- The resource of a syncer, and what its `addKindAndVersion` sets.
pub record SyncerKind : Type 0 where
  pub obj_type : String
  pub api_version : String
  pub kind : String

-- `watch.Added` and so on
pub data EventType : Type 0 where
  added modified deleted : EventType

pub record WatchEvent : Type 0 where
  pub action : EventType
  pub object : SyncObject

-- What an informer's delete handler is called with: an object, a tombstone with an object or with
-- something else, or anything else.
pub data Removed : Type 0 where
  removed : SyncObject → Removed
  tombstone : Option SyncObject → Removed
  unknown : Removed

pub data InformerEvent : Type 0 where
  on_add : SyncObject → InformerEvent
  on_update : SyncObject → SyncObject → InformerEvent
  on_delete : Removed → InformerEvent

-- `Subscriber`: the channels of the watchers of each resource, by their keys. An entry that is
-- missing is a nil map.
abbrev pub Subscriber : Type 0 → Type 0
Subscriber Channel = Map (Map Channel)

module _ {Channel : Type 0} where
  -- `ResourceSubscriber.Add`; a write to a nil map panics.
  unfoldable pub add_watcher :
      String → String → Channel → Subscriber Channel → Result (Subscriber Channel)
  add_watcher obj_type key channel subscriber = elim (lookup obj_type subscriber) [
    | none ↦ err nil_dereference
    | some watchers ↦ elim (lookup key watchers) [
      | none ↦ ok (insert obj_type (insert key channel watchers) subscriber)
      | some old ↦ ok subscriber
    ]
  ]

  -- `ResourceSubscriber.Delete`
  unfoldable pub delete_watcher : String → String → Subscriber Channel → Subscriber Channel
  delete_watcher obj_type key subscriber = elim (lookup obj_type subscriber) [
    | none ↦ subscriber
    | some watchers ↦ insert obj_type (erase key watchers) subscriber
  ]

  entries : WatchEvent → Map Channel → List (Channel × WatchEvent)
  entries event [] = []
  entries event ((key, channel) ∷ rest) = (channel, event) ∷ entries event rest

  -- `syncToNode`: what is sent to which channel.
  unfoldable pub sync_to_node :
      EventType → String → SyncObject → Subscriber Channel → List (Channel × WatchEvent)
  unfolding entries
  sync_to_node action obj_type object subscriber = elim (lookup obj_type subscriber) [
    | none ↦ []
    | some watchers ↦ entries (record { action = action; object = object }) watchers
  ]

-- `addKindAndVersion`
unfoldable pub add_kind_and_version : SyncerKind → SyncObject → SyncObject
add_kind_and_version k o = record o { api_version = k.api_version; kind = k.kind }

-- The storage of the synced objects
abbrev pub Store : Type 0
Store = EdgehubStorage SyncObject

module _ (objects : Objects SyncObject) (disk : Bool) where
  -- The end of `syncToStorage`, with the key and the JSON form.
  stored : EventType → String → Option String → Option Bytes → Store → Store
  stored action obj_type none bytes s = s
  stored action obj_type (some key) none s = s
  stored added obj_type (some key) (some bytes) s = (update objects disk obj_type key bytes s).1
  stored modified obj_type (some key) (some bytes) s = (update objects disk obj_type key bytes s).1
  stored deleted obj_type (some key) (some bytes) s = (delete objects disk obj_type key s).1

  -- `syncToStorage`
  unfoldable pub sync_to_storage : EventType → String → SyncObject → Store → Store
  unfolding stored
  sync_to_storage action obj_type o s =
      stored action obj_type (objects.key_of o) (objects.encode o) s

  -- The object that a removal is about, if any.
  unfoldable pub removed_object : Removed → Option SyncObject
  removed_object (removed o) = some o
  removed_object (tombstone o) = o
  removed_object unknown = none

  -- What a handler passes on: the action and the object with its kind, or nothing.
  unfoldable pub change_of : SyncerKind → InformerEvent → Option (EventType × SyncObject)
  unfolding removed_object add_kind_and_version
  change_of k (on_add o) = some (added, add_kind_and_version k o)
  change_of k (on_update old new) =
      if new.resource_version == old.resource_version
      then none
      else some (modified, add_kind_and_version k new)
  change_of k (on_delete r) = elim (removed_object r) [
    | none ↦ none
    | some o ↦ some (deleted, add_kind_and_version k o)
  ]

  pub passed_on :
      {Channel : Type 0}
      → String
      → Subscriber Channel
      → Store
      → Option (EventType × SyncObject)
      → List (Channel × WatchEvent) × Store
  passed_on obj_type subscriber s none = ([], s)
  passed_on obj_type subscriber s (some (action, o)) =
      (sync_to_node action obj_type o subscriber, sync_to_storage action obj_type o s)

  -- `handleAddEvent`, `handleUpdateEvent` and `handleDeleteEvent` of a syncer
  unfoldable pub handle_event :
      {Channel : Type 0}
      → SyncerKind
      → Subscriber Channel
      → InformerEvent
      → Store
      → List (Channel × WatchEvent) × Store
  unfolding change_of passed_on
  handle_event k subscriber e s = passed_on k.obj_type subscriber s (change_of k e)

-- `RefreshStorage`: the caches are the indexers from now on, and LevelDB loses what they do not have.
unfoldable pub refresh_storage :
    Bool → Map (Map SyncObject) → EdgehubStorage SyncObject → EdgehubStorage SyncObject
refresh_storage disk indexers s = (merge_delete disk (record s { cache = indexers })).1
