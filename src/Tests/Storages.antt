-- ===== src/Tests/Storages.antt =====
-- An edge hub with one pod in the cache, and one more in LevelDB.
use ote_stack.Prelude.{
  String, ◌≡◌, refl, ◌⊎◌, true, false, none, some, [], ◌∷◌, ok, err, bad_key_name, if◌then◌else◌,
  eq_iff, arith,
}
use ote_stack.Maps.{Map, lookup, keys}
use ote_stack.Message.{Bytes}
use ote_stack.Storage.KeyName.{form_key_name, split_key_name-form_key_name}
use ote_stack.Storage.{EdgehubStorage, Objects, merge_delete, rebuild_cache}
use ote_stack.Storage.Merge.{all_split, stale, merge_delete_lem}
use ote_stack.Storage.Access.{held, WellKeyed}
use ote_stack.Storage.Rebuild.{Written, rebuild_cache_lem}

-- An object is its own key, and every text of bytes is the pod `ns/a`.
abbrev objects : Objects String
objects = record {
  key_of = λ obj. some obj;
  decode = λ obj_type data'. some "ns/a";
  encode = λ obj. none;
}

abbrev storage : EdgehubStorage String
storage = record {
  cache = ("pods", ("ns/a", "ns/a") ∷ []) ∷ [];
  level_db = ("pods-ns/a", 1 ∷ []) ∷ ("pods-ns/b", 2 ∷ []) ∷ [];
  remote_enable = false;
}

storage-WellKeyed : WellKeyed objects storage.cache
unfolding lookup
storage-WellKeyed t k obj e = ground (arith, eq_iff "pods" t, eq_iff "ns/a" k)

merge_delete_lem_example :
    let (result, s') = merge_delete true storage in
    ((all_split (keys storage.level_db) ≡ true)
      × (result ≡ ok tt)
      × (s'.cache ≡ storage.cache)
      × ((name : String)
          → lookup name s'.level_db
            ≡ (if stale storage.cache name then none else lookup name storage.level_db)))
    ⊎ ((all_split (keys storage.level_db) ≡ false)
        × (merge_delete true storage ≡ (err bad_key_name, storage)))
merge_delete_lem_example = merge_delete_lem storage

abbrev database : Map Bytes
database = ("pods-ns/a", 1 ∷ []) ∷ []

database-Written : Written objects database
unfolding form_key_name keys
database-Written = (
  record {
    obj_type = "pods";
    key = "ns/a";
    obj = "ns/a";
    splits = split_key_name-form_key_name "pods" "ns/a" refl;
    formed = refl;
    reads = refl;
    named = refl;
  },
  refl,
  tt,
)

rebuild_cache_lem_example : held "pods" "ns/a" (rebuild_cache objects database) ≡ some "ns/a"
unfolding lookup form_key_name
rebuild_cache_lem_example = rebuild_cache_lem objects database "pods" "ns/a" database-Written refl
