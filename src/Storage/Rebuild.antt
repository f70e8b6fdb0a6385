-- ===== src/Storage/Rebuild.antt =====
-- `RebuildCache`: what a restart finds in LevelDB.
use mathlib.Core.Path.{ap₂}
use ote_stack.Prelude.{
  String, ◌≡◌, refl, ◌∙◌, sym, ap, true, false, ◌&&◌, Option, none, some, [], ◌∷◌, if◌then◌else◌,
  ◌==◌, eq_iff, arith, Option-cases, Bool-cases, inl, inr, elem,
}
use ote_stack.Maps.{Map, lookup, insert, keys, elem-keys, lookup-insert, lookup-nil}
use ote_stack.Message.{Bytes}
use ote_stack.Storage.KeyName.{form_key_name, split_key_name, is_type, split_key_name-form_key_name}
use ote_stack.Storage.{Objects, add_entry, rebuild_loop, rebuild_cache, put_object}
use ote_stack.Storage.Access.{held, held-insert}

module _ {Obj : Type 0} (objects : Objects Obj) where
  -- An entry as `Update` writes it: its name is made of the type and of the object's key.
  pub record Entry (name : String) (data' : Bytes) : Type 0 where
    pub obj_type : String
    pub key : String
    pub obj : Obj
    pub splits : split_key_name name ≡ some (obj_type, key)
    pub formed : name ≡ form_key_name obj_type key
    pub reads : objects.decode obj_type data' ≡ some obj
    pub named : objects.key_of obj ≡ some key

  -- Every entry is so, and no name is there twice, as in LevelDB.
  abbrev pub Written : Map Bytes → Type 0
  Written [] = Unit {0}
  Written ((name, data') ∷ rest) = Entry name data' × (elem name (keys rest) ≡ false) × Written rest

  -- The object that LevelDB has.
  abbrev pub stored : String → String → Map Bytes → Option Obj
  stored t k db = elim (lookup (form_key_name t k) db) [
    | none ↦ none
    | some data' ↦ objects.decode t data'
  ]

  put_object-named :
      (key : String) (obj : Obj) (indexer : Map Obj)
      → objects.key_of obj ≡ some key
      → put_object objects obj indexer ≡ insert key obj indexer
  unfolding put_object
  put_object-named key obj indexer e = ground (arith, e)

  held-add_entry :
      (name : String) (data' : Bytes) (e : Entry name data') (t k : String) (cache : Map (Map Obj))
      → held t k (add_entry objects name data' cache)
        ≡ (if e.obj_type == t && e.key == k then some e.obj else held t k cache)
  unfolding add_entry
  held-add_entry name data' e t k cache =
      rw (e.splits, add_entry)
        (rw e.reads (elim (Option-cases (lookup e.obj_type cache)) [
          | inl none_yet ↦ ground (
            arith,
            none_yet,
            put_object-named e.key e.obj [] e.named,
            held-insert t k e.obj_type (insert e.key e.obj []) cache,
            lookup-insert e.key k e.obj [],
            lookup-nil {V = Obj} k,
            eq_iff e.obj_type t,
          )
          | inr (old, has_old) ↦ ground (
            arith,
            has_old,
            put_object-named e.key e.obj old e.named,
            held-insert t k e.obj_type (insert e.key e.obj old) cache,
            lookup-insert e.key k e.obj old,
            eq_iff e.obj_type t,
          )
        ]))

  same_parts :
      (name : String) (data' : Bytes) (e : Entry name data') (t k : String)
      → is_type t ≡ true
      → name ≡ form_key_name t k
      → (e.obj_type ≡ t) × (e.key ≡ k)
  same_parts name data' e t k plain same =
      let both = sym e.splits ∙ ap split_key_name same ∙ split_key_name-form_key_name t k plain in
      (
        ap (λ (o : Option (String × String)). elim o [ none ↦ t | some parts ↦ parts.0 ]) both,
        ap (λ (o : Option (String × String)). elim o [ none ↦ k | some parts ↦ parts.1 ]) both,
      )

  -- An entry is the one of a type and key exactly if its name is formed of them.
  same_name :
      (name : String) (data' : Bytes) (e : Entry name data') (t k : String)
      → is_type t ≡ true
      → (name == form_key_name t k) ≡ (e.obj_type == t && e.key == k)
  same_name name data' e t k plain = elim (Bool-cases (name == form_key_name t k)) [
    | inl h ↦
        let (p, q) = same_parts name data' e t k plain ((eq_iff name (form_key_name t k)).0 h) in
        ground (arith, p, q, eq_iff e.obj_type t, eq_iff e.key k)
    | inr h ↦ elim (Bool-cases (e.obj_type == t && e.key == k)) [
      | inr no_match ↦ h ∙ sym no_match
      | inl both ↦
          let p : e.obj_type ≡ t = (eq_iff e.obj_type t).0 (ground arith) in
          let q : e.key ≡ k = (eq_iff e.key k).0 (ground arith) in
          absurd (
            ground
              (arith, h, (eq_iff name (form_key_name t k)).1 (e.formed ∙ ap₂ form_key_name p q)))
    ]
  ]

  -- What the caches hold after the loop: LevelDB's object, or what they held before.
  abbrev after_loop : Option Obj → Option Obj → Option Obj
  after_loop none old = old
  after_loop (some obj) old = some obj

  after_loop-none : (t k : String) (o : Option Obj) → after_loop o (held t k []) ≡ o
  unfolding lookup
  after_loop-none t k none = refl
  after_loop-none t k (some obj) = refl

  combined :
      (name : String) (data' : Bytes) (e : Entry name data') (rest : Map Bytes) (t k : String)
      (old : Option Obj)
      → elem name (keys rest) ≡ false
      → is_type t ≡ true
      → after_loop (stored t k rest) (if e.obj_type == t && e.key == k then some e.obj else old)
        ≡ after_loop (stored t k ((name, data') ∷ rest)) old
  unfolding lookup
  combined name data' e rest t k old fresh plain = elim (Bool-cases (name == form_key_name t k)) [
    | inr h ↦ ground (arith, same_name name data' e t k plain)
    | inl h ↦
        let same = (eq_iff name (form_key_name t k)).0 h in
        let (p, q) = same_parts name data' e t k plain same in
        ground (arith, same_name name data' e t k plain, p, same, elem-keys name rest)
  ]

  held-rebuild_loop :
      (db : Map Bytes) (t k : String) (cache : Map (Map Obj))
      → Written db
      → is_type t ≡ true
      → held t k (rebuild_loop objects db cache) ≡ after_loop (stored t k db) (held t k cache)
  unfolding rebuild_loop lookup
  held-rebuild_loop [] t k cache w plain = refl
  held-rebuild_loop ((name, data') ∷ rest) t k cache (e, fresh, w) plain =
      held-rebuild_loop rest t k (add_entry objects name data' cache) w plain
      ∙ ap (after_loop (stored t k rest)) (held-add_entry name data' e t k cache)
      ∙ combined name data' e rest t k (held t k cache) fresh plain

  -- After a restart the caches hold, for a type without a dash and any key, exactly the object
  -- that LevelDB has under their name, if every entry is as `Update` writes it.
  pub rebuild_cache_lem :
      (db : Map Bytes) (t k : String)
      → Written db
      → is_type t ≡ true
      → held t k (rebuild_cache objects db) ≡ stored t k db
  unfolding rebuild_cache
  rebuild_cache_lem db t k w plain =
      held-rebuild_loop db t k [] w plain ∙ after_loop-none t k (stored t k db)
