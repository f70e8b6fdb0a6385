-- ===== src/Certificate/Service.antt =====
-- pkg/server/certificate/register.go: the handlers that a k3s agent asks. What the edge hub gets while
-- the backends are healthy goes to LevelDB, and is answered from there otherwise.
use ote_stack.Prelude.{String, Bool, not, ◌&&◌, Option, none, some, if◌then◌else◌, ◌==◌}
use ote_stack.Maps.{lookup}
use ote_stack.Message.{Bytes}
use ote_stack.Selector.Split.{trim_space}
use ote_stack.Storage.{EdgehubStorage, Objects, update}
use ote_stack.Storage.KeyName.{form_key_name}
use ote_stack.Certificate.{
  ◌>>=◌, Net, Info, parse_and_validate_token, normalize_and_validate_token_for_user, get_path,
  request, get_node_named_crt,
}

-- `CertContext`: what changes, and the URL of the server.
pub record CertContext (Obj : Type 0) : Type 0 where
  pub server_url : String
  pub cert_info : Option Info
  pub store : EdgehubStorage Obj

-- What a handler answers: some bytes, status 500, or nothing, as it panics at a nil pointer.
pub data Reply : Type 0 where
  wrote : Bytes → Reply
  server_error panicked : Reply

-- `cacertsHandler`, with the file if it can be read
abbrev pub cacerts_handler : Option Bytes → Reply
cacerts_handler none = server_error
cacerts_handler (some file) = wrote file

-- `IsValid`; each flag says that the pointer is set.
abbrev pub is_valid : Bool → Bool → Bool → String → String → String → String → Bool
is_valid store k8s_client lb ca_file data_path server_url token_file =
    store
    && not (ca_file == "")
    && k8s_client
    && lb
    && not (data_path == "")
    && not (server_url == "")
    && not (token_file == "")

module _ {Obj : Type 0} where
  -- The start of a handler without the backends
  unfoldable pub from_level_db : String → CertContext Obj → Reply × CertContext Obj
  from_level_db key c = elim (lookup (form_key_name "cert" key) c.store.level_db) [
    | none ↦ (server_error, c)
    | some bytes ↦ (wrote bytes, c)
  ]

  module _ (objects : Objects Obj) (disk : Bool) where
    -- The end of a handler: the answer, and its copy in the storage, whose error is only logged.
    unfoldable pub answer_and_store :
        String → Option Bytes → CertContext Obj → Reply × CertContext Obj
    answer_and_store key none c = (server_error, c)
    answer_and_store key (some bytes) c =
        (wrote bytes, record c { store = (update objects disk "cert" key bytes c.store).1 })

    -- `versionHandler`, with what the apiserver says
    unfoldable pub version_handler : Bool → Option Bytes → CertContext Obj → Reply × CertContext Obj
    unfolding from_level_db answer_and_store
    version_handler remote raw c =
        if remote then answer_and_store "version" raw c else from_level_db "version" c

    module _ (net : Net) where
      unfoldable pub checked : Option Info → CertContext Obj → Reply × CertContext Obj
      unfolding answer_and_store
      checked none c = (server_error, c)
      checked (some info) c =
          answer_and_store "config" (get_path net "/v1-k3s/config" info)
            (record c { cert_info = some info })

      -- `configHandler`, with the file of the token if it can be read
      unfoldable pub config_handler :
          Bool → Option String → CertContext Obj → Reply × CertContext Obj
      unfolding checked from_level_db
      config_handler remote token_file c =
          let info : Option Info = token_file >>= λ text.
          (normalize_and_validate_token_for_user net c.server_url (trim_space text) "node"
            >>= λ token. parse_and_validate_token net c.server_url token) in
          if remote then checked info c else from_level_db "config" c

      unfoldable pub with_info :
          (Info → Option Bytes) → String → Option Info → CertContext Obj → Reply × CertContext Obj
      unfolding answer_and_store
      with_info fetch key none c = (panicked, c)
      with_info fetch key (some info) c = answer_and_store key (fetch info) c

      -- `fileHandler`
      unfoldable pub file_handler : Bool → String → CertContext Obj → Reply × CertContext Obj
      unfolding with_info from_level_db
      file_handler remote uri c =
          if remote then with_info (get_path net uri) uri c.cert_info c else from_level_db uri c

      -- `keyHandler`
      unfoldable pub key_handler :
          Bool → String → String → String → CertContext Obj → Reply × CertContext Obj
      unfolding with_info from_level_db
      key_handler remote uri node_name node_password c =
          let fetch = λ (info : Info).
            request net uri info (get_node_named_crt net node_name node_password) in
          if remote then with_info fetch uri c.cert_info c else from_level_db uri c
