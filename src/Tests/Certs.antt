-- ===== src/Tests/Certs.antt =====
-- A k3s server that answers everything, with the certificates `1 ∷ []` of its own.
use ote_stack.Prelude.{String, ◌≡◌, refl, true, false, none, some, List, [], ◌∷◌}
use ote_stack.Storage.Merge.{all_split}
use ote_stack.Storage.KeyName.{split_key_name}
use ote_stack.Maps.{lookup, keys}
use ote_stack.Text.{strip_prefix, split_once}
use ote_stack.Storage.{EdgehubStorage, Objects, merge_delete}
use ote_stack.Certificate.{
  Net, Url, HttpClient, default_client, insecure_client, trusting, HttpRequest, HttpAnswer, Info,
  parse_and_validate_token, normalize_and_validate_token_for_user, get_ca_certs, get_url, accepts,
  validate_token, to_token,
}
use ote_stack.Certificate.Token.{parse_token, print_token, with_format, trim_slashes}
use ote_stack.Certificate.Pinned.{for_user, normalized_token_accepted}
use ote_stack.Certificate.Service.{CertContext, from_level_db, server_error}
use ote_stack.Certificate.Offline.{
  Request, asks_version, asks_config, asks_file, asks_key, merged_certificates_lost,
}

abbrev url : Url
url = record { scheme = "https"; host = "center:6443"; path = "" }

-- The server's certificate is not trusted by itself.
abbrev answers : HttpClient → HttpRequest → HttpAnswer
answers default_client r = none
answers insecure_client r = some (200, some (1 ∷ []))
answers (trusting certs) r = some (200, some (1 ∷ []))

abbrev net : Net
net = record {
  parse = λ s. some url;
  print = λ u. u.path;
  exchange = answers;
  hash_ca = λ certs. "5f";
}

normalized :
    normalize_and_validate_token_for_user net "https://center:6443" "secret" "node"
    ≡ some (print_token "5f" "node" "secret")
unfolding normalize_and_validate_token_for_user parse_and_validate_token get_ca_certs get_url
    accepts validate_token to_token parse_token print_token with_format trim_slashes strip_prefix
    split_once
normalized = refl

normalized_token_accepted_example :
    (info : Info) × (at : Url) × (net.parse "https://center:6443" ≡ some at)
    × (parse_and_validate_token net "https://center:6443" (with_format "node" "secret") ≡ some info)
    × (parse_and_validate_token net "https://center:6443" (print_token "5f" "node" "secret")
        ≡ for_user net info "node" at)
normalized_token_accepted_example =
    normalized_token_accepted net "https://center:6443" "secret" "node"
      (print_token "5f" "node" "secret") (λ b. refl) refl normalized

abbrev storage : EdgehubStorage String
storage = record {
  cache = ("pod", []) ∷ [];
  level_db = ("cert-version", 7 ∷ []) ∷ [];
  remote_enable = true;
}

abbrev context : CertContext String
context = record { server_url = "https://center:6443"; cert_info = none; store = storage }

abbrev objects : Objects String
objects = record { key_of = λ s. some s; decode = λ t b. none; encode = λ s. none }

abbrev requests : List Request
requests =
    asks_config true (some "secret")
    ∷ asks_file true "/v1-k3s/client-ca.crt"
    ∷ asks_version true none
    ∷ asks_key false "/v1-k3s/serving-kubelet.crt" "n" "p"
    ∷ []

dashes : all_split (keys storage.level_db) ≡ true
unfolding keys split_key_name
dashes = refl

merged_certificates_lost_example :
    (from_level_db "version" (record context { store = (merge_delete true storage).1 })).0
    ≡ server_error
unfolding lookup
merged_certificates_lost_example =
    merged_certificates_lost objects net "version" context dashes refl
