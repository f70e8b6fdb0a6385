-- ===== src/Certificate/Offline.antt =====
-- What a k3s agent gets while the backends are away.
use ote_stack.Prelude.{
  String, ◌≡◌, refl, ap, ◌∙◌, Bool, true, ◌&&◌, Option, none, some, List, [], ◌∷◌, arith,
  if◌then◌else◌, ◌==◌, inl, inr,
}
use ote_stack.Maps.{lookup, keys}
use ote_stack.Message.{Bytes}
use ote_stack.Storage.{Objects, merge_delete}
use ote_stack.Storage.KeyName.{form_key_name, split_key_name-form_key_name}
use ote_stack.Storage.Merge.{all_split, stale, merge_delete_lem}
use ote_stack.Certificate.{Net}
use ote_stack.Certificate.Service.{
  CertContext, Reply, wrote, server_error, panicked, from_level_db, version_handler, config_handler,
  file_handler, key_handler,
}

-- A request of the agent, with whether the backends are healthy and what the outside gives.
pub data Request : Type 0 where
  asks_version : Bool → Option Bytes → Request
  asks_config : Bool → Option String → Request
  asks_file : Bool → String → Request
  asks_key : Bool → String → String → String → Request

-- The key that it is kept under, and whether it goes to the backends
abbrev pub kept_as : Request → String
kept_as (asks_version remote raw) = "version"
kept_as (asks_config remote token_file) = "config"
kept_as (asks_file remote uri) = uri
kept_as (asks_key remote uri name password) = uri

abbrev pub is_remote : Request → Bool
is_remote (asks_version remote raw) = remote
is_remote (asks_config remote token_file) = remote
is_remote (asks_file remote uri) = remote
is_remote (asks_key remote uri name password) = remote

key_of_name : Option (String × String) → String
key_of_name none = ""
key_of_name (some (obj_type, k)) = k

module _ {Obj : Type 0} (objects : Objects Obj) (net : Net) where
  abbrev pub on_request : Request → CertContext Obj → Reply × CertContext Obj
  on_request (asks_version remote raw) c = version_handler objects true remote raw c
  on_request (asks_config remote token_file) c = config_handler objects true net remote token_file c
  on_request (asks_file remote uri) c = file_handler objects true net remote uri c
  on_request (asks_key remote uri name password) c =
      key_handler objects true net remote uri name password c

  abbrev pub on_requests : List Request → CertContext Obj → CertContext Obj
  on_requests [] c = c
  on_requests (r ∷ rs) c = on_requests rs (on_request r c).1

  -- What LevelDB has for a key
  abbrev pub in_db : String → CertContext Obj → Option Bytes
  in_db k c = lookup (form_key_name "cert" k) c.store.level_db

  -- The last answer from the backends
  abbrev pub newer_answer : Reply → Option Bytes → Option Bytes
  newer_answer (wrote bytes) old = some bytes
  newer_answer server_error old = old
  newer_answer panicked old = old

  abbrev pub answered_last : String → Request → Reply → Option Bytes → Option Bytes
  answered_last k r reply old =
      if is_remote r && kept_as r == k then newer_answer reply old else old

  abbrev pub answered_lasts : String → List Request → CertContext Obj → Option Bytes → Option Bytes
  answered_lasts k [] c old = old
  answered_lasts k (r ∷ rs) c old =
      let (reply, c') = on_request r c in answered_lasts k rs c' (answered_last k r reply old)

  abbrev pub replayed : Option Bytes → Reply
  replayed none = server_error
  replayed (some bytes) = wrote bytes

  offline-in_db : (k : String) (c : CertContext Obj) → (from_level_db k c).0 ≡ replayed (in_db k c)
  unfolding from_level_db
  offline-in_db k c = ground arith

  -- Where every name in LevelDB has a dash and no cache is for certificates, the merge of the storage
  -- with its caches, which a start of the syncers ends with, deletes them all: afterwards an agent is
  -- answered with status 500 for every key without the backends.
  pub merged_certificates_lost :
      (k : String) (c : CertContext Obj)
      → all_split (keys c.store.level_db) ≡ true
      → lookup "cert" c.store.cache ≡ none
      → (from_level_db k (record c { store = (merge_delete true c.store).1 })).0 ≡ server_error
  merged_certificates_lost k c dashes none_cached =
      let gone : in_db k (record c { store = (merge_delete true c.store).1 }) ≡ none =
        elim (merge_delete_lem c.store) [
          | inl (fine, done, same, kept) ↦
              kept (form_key_name "cert" k)
              ∙ rw (split_key_name-form_key_name "cert" k refl, stale) (ground (arith, none_cached))
          | inr (bad, failed) ↦ absurd (ground (arith, dashes, bad))
        ] in
      offline-in_db k (record c { store = (merge_delete true c.store).1 }) ∙ ap replayed gone
