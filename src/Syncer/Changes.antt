-- ===== src/Syncer/Changes.antt =====
-- A change of an informer's object, in its indexer and in LevelDB.
use ote_stack.Prelude.{
  ◌≢◌, String, ◌≡◌, refl, sym, ap, ◌∙◌, inl, inr, Bool, true, false, ◌&&◌, Option, none, some, [],
  if◌then◌else◌, ◌==◌, eq_iff, arith, Bool-cases, Option-cases,
}
use mathlib.Core.Path.{subst₂}
use ote_stack.Maps.{Map, lookup, insert, erase, lookup-insert, lookup-erase}
use ote_stack.Message.{Bytes}
use ote_stack.Storage.{Objects, update, delete}
use ote_stack.Storage.KeyName.{form_key_name, is_type, split_key_name-form_key_name, split_key_name}
use ote_stack.Storage.Access.{held, held-insert}
use ote_stack.Syncer.{
  SyncObject, EventType, added, modified, deleted, Store, Subscriber, sync_to_storage, stored,
  passed_on,
}

-- Names of types without a dash are equal only for the same type and key.
form_key_name-eq :
    (t t' k k' : String)
    → is_type t ≡ true
    → is_type t' ≡ true
    → (form_key_name t k == form_key_name t' k') ≡ (t == t' && k == k')
form_key_name-eq t t' k k' h h' =
    let a = split_key_name-form_key_name t k h in
    let b = split_key_name-form_key_name t' k' h' in
    elim (Bool-cases (form_key_name t k == form_key_name t' k')) [
      | inl e ↦
          let same =
            sym a
            ∙ ap split_key_name ((eq_iff (form_key_name t k) (form_key_name t' k')).0 e)
            ∙ b in
          ground (arith, e, same, eq_iff t t', eq_iff k k')
      | inr e ↦
          ground
            (arith, e, eq_iff t t', eq_iff k k', eq_iff (form_key_name t k) (form_key_name t' k'))
    ]

-- The indexers: each informer's objects, by the resource.
abbrev pub Indexers : Type 0
Indexers = Map (Map SyncObject)

or_empty : Option (Map SyncObject) → Map SyncObject
or_empty none = []
or_empty (some indexer) = indexer

-- What is left under the key of a changed object, in an indexer and in LevelDB.
abbrev left : {A : Type 0} → EventType → A → Option A
left added a = some a
left modified a = some a
left deleted a = none

altered : EventType → String → SyncObject → Map SyncObject → Map SyncObject
altered added key o indexer = insert key o indexer
altered modified key o indexer = insert key o indexer
altered deleted key o indexer = erase key indexer

lookup-altered :
    (action : EventType) (key : String) (o : SyncObject) (indexer : Map SyncObject)
    (wanted : String)
    → lookup wanted (altered action key o indexer)
      ≡ (if key == wanted then left action o else lookup wanted indexer)
unfolding altered
lookup-altered added key o indexer wanted = lookup-insert key wanted o indexer
lookup-altered modified key o indexer wanted = lookup-insert key wanted o indexer
lookup-altered deleted key o indexer wanted = lookup-erase key wanted indexer

lookup-or_empty : (t k : String) (ix : Indexers) → lookup k (or_empty (lookup t ix)) ≡ held t k ix
unfolding or_empty lookup
lookup-or_empty t k ix = elim (Option-cases (lookup t ix)) [
  | inl e ↦ ground (arith, e)
  | inr (m, e) ↦ ground (arith, e)
]

-- What an informer does to its indexer for a change that its handler passes on; the handler has set
-- the kind of the object that the indexer has.
unfoldable pub changed : EventType → String → SyncObject → Option String → Indexers → Indexers
unfolding altered or_empty
changed action t o none ix = ix
changed action t o (some key) ix = insert t (altered action key o (or_empty (lookup t ix))) ix

held-changed :
    (action : EventType) (t key : String) (o : SyncObject) (ix : Indexers) (t' k' : String)
    → held t' k' (changed action t o (some key) ix)
      ≡ (if t == t' && key == k' then left action o else held t' k' ix)
unfolding changed
held-changed action t key o ix t' k' = ground (
  arith,
  held-insert t' k' t (altered action key o (or_empty (lookup t ix))) ix,
  lookup-altered action key o (or_empty (lookup t ix)) k',
  lookup-or_empty t k' ix,
  eq_iff t t',
)

module _ (objects : Objects SyncObject) where
  -- A resync brings the object that the indexer has.
  abbrev pub indexed : String → Option (EventType × SyncObject) → Indexers → Indexers
  indexed t none ix = ix
  indexed t (some (action, o)) ix = changed action t o (objects.key_of o) ix

  lookup-stored :
      (action : EventType) (t key : String) (bytes : Bytes) (s : Store) (name : String)
      → lookup name (stored objects true action t (some key) (some bytes) s).level_db
        ≡ (if form_key_name t key == name then left action bytes else lookup name s.level_db)
  unfolding stored update delete
  lookup-stored added t key bytes s name = lookup-insert (form_key_name t key) name bytes s.level_db
  lookup-stored modified t key bytes s name =
      lookup-insert (form_key_name t key) name bytes s.level_db
  lookup-stored deleted t key bytes s name = lookup-erase (form_key_name t key) name s.level_db

  -- The entry of LevelDB for an object of an informer, or for none; the latter is not asked for while
  -- LevelDB may have older entries.
  abbrev pub Fits : Bool → Option SyncObject → Option Bytes → Type 0
  Fits strict (some o) entry = entry ≡ objects.encode o
  Fits true none entry = entry ≡ none
  Fits false none entry = Unit {0}

  abbrev pub InStep : Bool → Indexers → Store → Type 0
  InStep strict ix s =
      (t key : String)
      → is_type t ≡ true
      → Fits strict (held t key ix) (lookup (form_key_name t key) s.level_db)

  left-Fits :
      (strict : Bool) (action : EventType) (o : SyncObject) (bytes : Bytes)
      → objects.encode o ≡ some bytes
      → Fits strict (left action o) (left action bytes)
  left-Fits strict added o bytes e = sym e
  left-Fits strict modified o bytes e = sym e
  left-Fits true deleted o bytes e = refl
  left-Fits false deleted o bytes e = tt

  if-Fits :
      (strict b : Bool) (g g' : Option SyncObject) (l l' : Option Bytes)
      → Fits strict g l
      → Fits strict g' l'
      → Fits strict (if b then g else g') (if b then l else l')
  if-Fits strict true g g' l l' now before = now
  if-Fits strict false g g' l l' now before = before

  -- A change to the indexer and to LevelDB.
  keyed-InStep :
      (strict : Bool) (action : EventType) (t key : String) (o : SyncObject) (bytes : Bytes)
      (ix : Indexers) (s : Store)
      → is_type t ≡ true
      → objects.encode o ≡ some bytes
      → InStep strict ix s
      → InStep strict
          (changed action t o (some key) ix)
          (stored objects true action t (some key) (some bytes) s)
  keyed-InStep strict action t key o bytes ix s plain e agree t' k' plain' =
      let b = t == t' && key == k' in
      let names = form_key_name-eq t t' key k' plain plain' in
      let now =
        if-Fits strict b (left action o) (held t' k' ix) (left action bytes)
          (lookup (form_key_name t' k') s.level_db) (left-Fits strict action o bytes e)
          (agree t' k' plain') in
      subst₂ (Fits strict) (sym (held-changed action t key o ix t' k'))
        (sym (
          lookup-stored action t key bytes s (form_key_name t' k')
          ∙ ap
              (λ (x : Bool).
                if x then left action bytes else lookup (form_key_name t' k') s.level_db)
              names))
        now

  stored-InStep :
      (strict : Bool) (action : EventType) (t : String) (o : SyncObject) (key : Option String)
      (bytes : Option Bytes) (ix : Indexers) (s : Store)
      → is_type t ≡ true
      → objects.encode o ≡ bytes
      → objects.encode o ≢ none
      → InStep strict ix s
      → InStep strict (changed action t o key ix) (stored objects true action t key bytes s)
  unfolding stored changed
  stored-InStep strict action t o none bytes ix s plain e known agree = agree
  stored-InStep strict action t o (some key) none ix s plain e known agree = absurd (known e)
  stored-InStep strict action t o (some key) (some bytes) ix s plain e known agree =
      keyed-InStep strict action t key o bytes ix s plain e agree

  pub passed_on-InStep :
      {Channel : Type 0} (strict : Bool) (t : String) (subscriber : Subscriber Channel)
      (change : Option (EventType × SyncObject)) (ix : Indexers) (s : Store)
      → is_type t ≡ true
      → ((o : SyncObject) → objects.encode o ≢ none)
      → InStep strict ix s
      → InStep strict (indexed t change ix) (passed_on objects true t subscriber s change).1
  unfolding passed_on sync_to_storage
  passed_on-InStep strict t subscriber none ix s plain known agree = agree
  passed_on-InStep strict t subscriber (some (action, o)) ix s plain known agree =
      stored-InStep strict action t o (objects.key_of o) (objects.encode o) ix s plain refl
        (known o) agree
