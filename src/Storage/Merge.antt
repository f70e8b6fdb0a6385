-- ===== src/Storage/Merge.antt =====
-- `MergeDelete`: what LevelDB keeps of its objects.
use ote_stack.Prelude.{
  String, ◌≡◌, refl, ◌∙◌, ◌⊎◌, inl, inr, Bool, true, false, not, ◌&&◌, none, some, List, [], ◌∷◌,
  Result, ok, err, bad_key_name, if◌then◌else◌, eq_iff, is_some, arith, elem, Option-cases,
  Bool-cases,
}
use ote_stack.Maps.{Map, lookup, erase, keys, lookup-erase, elem-keys}
use ote_stack.Message.{Bytes}
use ote_stack.Storage.KeyName.{split_key_name}
use ote_stack.Storage.{EdgehubStorage, cached, stale_names, delete_batch, merge_delete}

lookup-delete_batch :
    (names : List String) (db : Map Bytes) (j : String)
    → lookup j (delete_batch names db) ≡ (if elem j names then none else lookup j db)
unfolding delete_batch
lookup-delete_batch [] db j = refl
lookup-delete_batch (name ∷ rest) db j =
    lookup-delete_batch rest (erase name db) j ∙ ground (arith, lookup-erase name j db)

-- Has every name a dash?
abbrev pub all_split : List String → Bool
all_split [] = true
all_split (name ∷ rest) = is_some (split_key_name name) && all_split rest

module _ {Obj : Type 0} (cache : Map (Map Obj)) where
  -- A name of an object that no cache has.
  abbrev pub stale : String → Bool
  stale name = elim (split_key_name name) [
    | none ↦ false
    | some (obj_type, key) ↦ not (cached obj_type key cache)
  ]

  -- The names that are collected, if all of them split.
  abbrev Collected : List String → Result (List String) → Type 0
  Collected ks (ok names) =
      (all_split ks ≡ true) × ((j : String) → elem j names ≡ (elem j ks && stale j))
  Collected ks (err e) = (all_split ks ≡ false) × (e ≡ bad_key_name)

  collect :
      (name : String) (rest : List String) (obj_type key : String) (later : Result (List String))
      → split_key_name name ≡ some (obj_type, key)
      → Collected rest later
      → Collected (name ∷ rest) (elim later [
        | err e ↦ err e
        | ok names ↦ (if cached obj_type key cache then ok names else ok (name ∷ names))
      ])
  collect name rest obj_type key (err e) split (bad, same) = (ground (arith, split), same)
  collect name rest obj_type key (ok names) split (fine, which) =
      elim (Bool-cases (cached obj_type key cache)) [
        | inl there ↦
            rw there (ground (arith, split), λ j. ground (arith, which j, split, eq_iff name j))
        | inr gone ↦
            rw gone (ground (arith, split), λ j. ground (arith, which j, split, eq_iff name j))
      ]

  stale_names-Collected : (ks : List String) → Collected ks (stale_names ks cache)
  unfolding stale_names
  stale_names-Collected [] = (refl, λ j. refl)
  stale_names-Collected (name ∷ rest) = elim (Option-cases (split_key_name name)) [
    | inl e ↦ rw (e, stale_names) (ground arith, refl)
    | inr ((obj_type, key), e) ↦
        rw (e, stale_names)
          (collect name rest obj_type key (stale_names rest cache) e (stale_names-Collected rest))
  ]

module _ {Obj : Type 0} (s : EdgehubStorage Obj) where
  merged :
      (x : Result (List String))
      → stale_names (keys s.level_db) s.cache ≡ x
      → Collected s.cache (keys s.level_db) x
      → let (result, s') = merge_delete true s in
        ((all_split (keys s.level_db) ≡ true)
          × (result ≡ ok tt)
          × (s'.cache ≡ s.cache)
          × ((name : String)
              → lookup name s'.level_db
                ≡ (if stale s.cache name then none else lookup name s.level_db)))
        ⊎ ((all_split (keys s.level_db) ≡ false) × (merge_delete true s ≡ (err bad_key_name, s)))
  unfolding merge_delete
  merged (err e) eq (bad, same) = inr (bad, rw (eq, merge_delete) (rw same refl))
  merged (ok names) eq (fine, which) = inl (
    fine,
    rw (eq, merge_delete) refl,
    rw (eq, merge_delete) refl,
    λ name.
        rw (eq, merge_delete)
          (lookup-delete_batch names s.level_db name
            ∙ ground (arith, which name, elem-keys name s.level_db)),
  )

  -- Where LevelDB takes the write: if every name in it has a dash, the merge deletes exactly the objects that no cache has,
  -- keeps all others, and leaves the caches. If some name has none, it changes nothing and fails.
  pub merge_delete_lem :
      let (result, s') = merge_delete true s in
      ((all_split (keys s.level_db) ≡ true)
        × (result ≡ ok tt)
        × (s'.cache ≡ s.cache)
        × ((name : String)
            → lookup name s'.level_db
              ≡ (if stale s.cache name then none else lookup name s.level_db)))
      ⊎ ((all_split (keys s.level_db) ≡ false) × (merge_delete true s ≡ (err bad_key_name, s)))
  merge_delete_lem =
      merged (stale_names (keys s.level_db) s.cache) refl
        (stale_names-Collected s.cache (keys s.level_db))
