-- ===== src/Storage/Access.antt =====
-- `Update`, `Delete` and `Get` without the remote side.
use ote_stack.Prelude.{
  String, ◌≡◌, refl, true, false, ◌&&◌, Option, none, some, ok, if◌then◌else◌, ◌==◌, eq_iff,
  eq_refl, arith, Option-cases, inl, inr,
}
use ote_stack.Maps.{Map, lookup, insert, erase, lookup-insert, lookup-erase}
use ote_stack.Message.{Bytes}
use ote_stack.Storage.KeyName.{form_key_name}
use ote_stack.Storage.{
  EdgehubStorage, Objects, object, get, update_cache, update, delete_cached, delete, put_object,
  drop_object, item,
}

module _ {Obj : Type 0} where
  -- The object in the caches.
  abbrev pub held : String → String → Map (Map Obj) → Option Obj
  held obj_type key cache = elim (lookup obj_type cache) [
    | none ↦ none
    | some indexer ↦ lookup key indexer
  ]

  pub held-insert :
      (t k u : String) (indexer : Map Obj) (cache : Map (Map Obj))
      → held t k (insert u indexer cache) ≡ (if u == t then lookup k indexer else held t k cache)
  held-insert t k u indexer cache = ground (arith, lookup-insert u t indexer cache)

module _ {Obj : Type 0} (objects : Objects Obj) where
  held-update_cache :
      (t key t' k' : String) (data' : Bytes) (obj : Obj) (indexer : Map Obj) (cache : Map (Map Obj))
      → lookup t cache ≡ some indexer
      → objects.decode t data' ≡ some obj
      → objects.key_of obj ≡ some key
      → held t' k' (update_cache objects t data' cache)
        ≡ (if t == t' && key == k' then some obj else held t' k' cache)
  unfolding update_cache put_object
  held-update_cache t key t' k' data' obj indexer cache known read named = ground (
    arith,
    held-insert t' k' t (insert key obj indexer) cache,
    lookup-insert key k' obj indexer,
    eq_iff t t',
  )

  pub get-held :
      (t key : String) (obj : Obj) (s : EdgehubStorage Obj)
      → held t key s.cache ≡ some obj
      → get objects t key false s ≡ ok (object obj)
  unfolding get item
  get-held t key obj s there = elim (Option-cases (lookup t s.cache)) [
    | inl e ↦ absurd (ground (arith, e, there))
    | inr (indexer, e) ↦
        let found : lookup key indexer ≡ some obj = ground (arith, e, there) in
        rw (e, get) (rw found refl)
  ]

  -- An object of a type that has a cache, whose data read as `obj` with that key, is updated while
  -- the remote side is off and LevelDB takes the write: afterwards it is what the caches hold under its key, as `Get` returns
  -- it, every other cached object stays, and LevelDB has its data under its name and all else as
  -- before.
  pub update_lem :
      (t key : String) (data' : Bytes) (obj : Obj) (indexer : Map Obj) (s : EdgehubStorage Obj)
      → s.remote_enable ≡ false
      → lookup t s.cache ≡ some indexer
      → objects.decode t data' ≡ some obj
      → objects.key_of obj ≡ some key
      → let (result, s') = update objects true t key data' s in
        (result ≡ ok tt)
        × (get objects t key false s' ≡ ok (object obj))
        × ((t' k' : String)
            → held t' k' s'.cache ≡ (if t == t' && key == k' then some obj else held t' k' s.cache))
        × ((name : String)
            → lookup name s'.level_db
              ≡ (if form_key_name t key == name then some data' else lookup name s.level_db))
  unfolding update get
  update_lem t key data' obj indexer s off known read named = (
    refl,
    get-held t key obj (update objects true t key data' s).1 (
        ground (
          arith,
          held-update_cache t key t key data' obj indexer s.cache known read named,
          eq_refl t,
          eq_refl key,
        )),
    λ t' k'.
        ground (arith, held-update_cache t key t' k' data' obj indexer s.cache known read named),
    λ name. lookup-insert (form_key_name t key) name data' s.level_db,
  )

  -- Every cached object is under its own key.
  abbrev pub WellKeyed : Map (Map Obj) → Type 0
  WellKeyed cache =
      (t k : String) (obj : Obj) → held t k cache ≡ some obj → objects.key_of obj ≡ some k

  held-delete_cached :
      (t key t' k' : String) (cache : Map (Map Obj))
      → WellKeyed cache
      → held t' k' (delete_cached objects t key cache)
        ≡ (if t == t' && key == k' then none else held t' k' cache)
  unfolding delete_cached drop_object
  held-delete_cached t key t' k' cache keyed = elim (Option-cases (lookup t cache)) [
    | inl e ↦ ground (arith, eq_iff t t')
    | inr (indexer, e) ↦ elim (Option-cases (lookup key indexer)) [
      | inl e' ↦ ground (arith, eq_iff t t', eq_iff key k')
      | inr (obj, e') ↦
          let named : objects.key_of obj ≡ some key = keyed t key obj (ground (arith, e, e')) in
          ground (
            arith,
            held-insert t' k' t (erase key indexer) cache,
            lookup-erase key k' indexer,
            eq_iff t t',
          )
    ]
  ]

  -- Where every cached object is under its own key, a deletion that LevelDB takes while the remote
  -- side is off takes the object out of the caches and its name out of LevelDB, and nothing else.
  pub delete_lem :
      (t key : String) (s : EdgehubStorage Obj)
      → s.remote_enable ≡ false
      → WellKeyed s.cache
      → let (result, s') = delete objects true t key s in
        (result ≡ ok tt)
        × ((t' k' : String)
            → held t' k' s'.cache ≡ (if t == t' && key == k' then none else held t' k' s.cache))
        × ((name : String)
            → lookup name s'.level_db
              ≡ (if form_key_name t key == name then none else lookup name s.level_db))
  unfolding delete
  delete_lem t key s off keyed = (
    refl,
    λ t' k'. ground (arith, held-delete_cached t key t' k' s.cache keyed),
    λ name. lookup-erase (form_key_name t key) name s.level_db,
  )
