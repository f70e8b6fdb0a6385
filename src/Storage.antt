-- ===== src/Storage.antt =====
-- pkg/storage: the edge hub's objects, in an informer cache for each type and in LevelDB.
-- An object, its key (`MetaNamespaceKeyFunc`), and its JSON form are parameters; `disk` says whether
-- LevelDB takes a write.
pub mod KeyName
pub mod Merge
pub mod Access
pub mod Rebuild
use ote_stack.Prelude.{
  String, Bool, true, false, Option, none, some, List, [], ◌∷◌, Result, ok, err, not_found, no_type,
  marshal_failed, write_failed, bad_key_name, if◌then◌else◌,
}
use ote_stack.Maps.{Map, lookup, insert, erase, keys}
use ote_stack.Message.{Bytes}
use KeyName.{form_key_name, split_key_name}

-- `EdgehubStorage`; an indexer is a map by the objects' keys.
pub record EdgehubStorage (Obj : Type 0) : Type 0 where
  pub cache : Map (Map Obj)
  pub level_db : Map Bytes
  pub remote_enable : Bool

-- What the storage needs of the Kubernetes libraries.
pub record Objects (Obj : Type 0) : Type 0 where
  pub key_of : Obj → Option String
  pub decode : String → Bytes → Option Obj
  pub encode : Obj → Option Bytes

-- What `Get` returns: the object, or its JSON form.
pub data Item (Obj : Type 0) : Type 0 where
  object : Obj → Item Obj
  serialized : Bytes → Item Obj

module _ {Obj : Type 0} (objects : Objects Obj) where
  unfoldable pub item : Bool → Obj → Result (Item Obj)
  item false obj = ok (object obj)
  item true obj = elim (objects.encode obj) [
    | none ↦ err marshal_failed
    | some data' ↦ ok (serialized data')
  ]

  -- `Get`
  unfoldable pub get : String → String → Bool → EdgehubStorage Obj → Result (Item Obj)
  unfolding item
  get obj_type key is_need_serialize s = elim (lookup obj_type s.cache) [
    | none ↦ err no_type
    | some indexer ↦ elim (lookup key indexer) [
      | none ↦ err not_found
      | some obj ↦ item is_need_serialize obj
    ]
  ]

  -- The indexer's `Update`, which is its `Add`: under the key of the object.
  unfoldable pub put_object : Obj → Map Obj → Map Obj
  put_object obj indexer = elim (objects.key_of obj) [
    | none ↦ indexer
    | some key ↦ insert key obj indexer
  ]

  -- The indexer's `Delete`
  unfoldable pub drop_object : Obj → Map Obj → Map Obj
  drop_object obj indexer = elim (objects.key_of obj) [
    | none ↦ indexer
    | some key ↦ erase key indexer
  ]

  -- The first half of `Update`; its errors are only logged.
  unfoldable pub update_cache : String → Bytes → Map (Map Obj) → Map (Map Obj)
  unfolding put_object
  update_cache obj_type data' cache = elim (lookup obj_type cache) [
    | none ↦ cache
    | some indexer ↦ elim (objects.decode obj_type data') [
      | none ↦ cache
      | some obj ↦ insert obj_type (put_object obj indexer) cache
    ]
  ]

  -- `Update`: with the remote side the informers fill the cache.
  unfoldable pub update :
      Bool → String → String → Bytes → EdgehubStorage Obj → Result (Unit {0}) × EdgehubStorage Obj
  unfolding update_cache
  update disk obj_type key data' s =
      let s' : EdgehubStorage Obj = record s {
        cache = if s.remote_enable then s.cache else update_cache obj_type data' s.cache;
      } in
      if disk
      then (ok tt, record s' { level_db = insert (form_key_name obj_type key) data' s.level_db })
      else (err write_failed, s')

  -- The first half of `Delete`
  unfoldable pub delete_cached : String → String → Map (Map Obj) → Map (Map Obj)
  unfolding drop_object
  delete_cached obj_type key cache = elim (lookup obj_type cache) [
    | none ↦ cache
    | some indexer ↦ elim (lookup key indexer) [
      | none ↦ cache
      | some obj ↦ insert obj_type (drop_object obj indexer) cache
    ]
  ]

  -- `Delete`
  unfoldable pub delete :
      Bool → String → String → EdgehubStorage Obj → Result (Unit {0}) × EdgehubStorage Obj
  unfolding delete_cached
  delete disk obj_type key s =
      let s' : EdgehubStorage Obj = record s {
        cache = if s.remote_enable then s.cache else delete_cached obj_type key s.cache;
      } in
      if disk
      then (ok tt, record s' { level_db = erase (form_key_name obj_type key) s.level_db })
      else (err write_failed, s')

-- `db.Write(batch)`, for a batch of deletions
unfoldable pub delete_batch : List String → Map Bytes → Map Bytes
delete_batch [] db = db
delete_batch (name ∷ rest) db = delete_batch rest (erase name db)

module _ {Obj : Type 0} where
  objects_of : Map Obj → List Obj
  objects_of [] = []
  objects_of ((key, obj) ∷ rest) = obj ∷ objects_of rest

  -- `List`; the code's order is any.
  unfoldable pub list : String → EdgehubStorage Obj → List Obj
  unfolding objects_of
  list obj_type s = elim (lookup obj_type s.cache) [ none ↦ [] | some indexer ↦ objects_of indexer ]

  -- Is there such an object in the caches?
  abbrev pub cached : String → String → Map (Map Obj) → Bool
  cached obj_type key cache = elim (lookup obj_type cache) [
    | none ↦ false
    | some indexer ↦ elim (lookup key indexer) [ none ↦ false | some obj ↦ true ]
  ]

  -- The loop of `MergeDelete`: the names for the batch, or the error of a name without a dash.
  unfoldable pub stale_names : List String → Map (Map Obj) → Result (List String)
  stale_names [] cache = ok []
  stale_names (name ∷ rest) cache =
      let later = stale_names rest cache in
      elim (split_key_name name) [
        | none ↦ err bad_key_name
        | some (obj_type, key) ↦ elim later [
          | err e ↦ err e
          | ok names ↦ (if cached obj_type key cache then ok names else ok (name ∷ names))
        ]
      ]

  -- `MergeDelete`; the error of the write is dropped.
  unfoldable pub merge_delete : Bool → EdgehubStorage Obj → Result (Unit {0}) × EdgehubStorage Obj
  unfolding stale_names delete_batch
  merge_delete disk s = elim (stale_names (keys s.level_db) s.cache) [
    | err e ↦ (err e, s)
    | ok names ↦ (ok tt, if disk then record s { level_db = delete_batch names s.level_db } else s)
  ]

module _ {Obj : Type 0} (objects : Objects Obj) where
  -- One turn of `RebuildCache`. The indexer of a type is made before the data are read.
  unfoldable pub add_entry : String → Bytes → Map (Map Obj) → Map (Map Obj)
  unfolding put_object
  add_entry name data' cache = elim (split_key_name name) [
    | none ↦ cache
    | some (obj_type, key) ↦
        let indexer : Map Obj = elim (lookup obj_type cache) [ none ↦ [] | some old ↦ old ] in
        elim (objects.decode obj_type data') [
          | none ↦ insert obj_type indexer cache
          | some obj ↦ insert obj_type (put_object objects obj indexer) cache
        ]
  ]

  -- The loop of `RebuildCache` over the entries of LevelDB, which it reads without errors.
  unfoldable pub rebuild_loop : Map Bytes → Map (Map Obj) → Map (Map Obj)
  unfolding add_entry
  rebuild_loop [] cache = cache
  rebuild_loop ((name, data') ∷ rest) cache = rebuild_loop rest (add_entry name data' cache)

  -- `RebuildCache`
  unfoldable pub rebuild_cache : Map Bytes → Map (Map Obj)
  unfolding rebuild_loop
  rebuild_cache db = rebuild_loop db []
