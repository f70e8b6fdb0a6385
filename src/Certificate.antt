-- ===== src/Certificate.antt =====
-- pkg/server/certificate: the edge hub's side of a k3s agent, which gets its certificates through it.
-- Parsing and printing of URLs, the exchange of an HTTP request, and the hash of certificates are
-- parameters; `exchange` is none where the request cannot be made or gets no answer.
pub mod Token
pub mod Pinned
pub mod Service
pub mod Offline
use ote_stack.Prelude.{
  ℕ, String, Bool, true, false, not, ◌&&◌, ◌||◌, Option, none, some, List, [], ◌∷◌, if◌then◌else◌,
  ◌==◌, is_some, is_empty, nat_eq,
}
use ote_stack.Maps.{Map, lookup}
use ote_stack.Message.{Bytes}
use ote_stack.Text.{has_prefix}
use ote_stack.Selector.Split.{trim_space}
use ote_stack.Storage.{EdgehubStorage, Objects, update}
use ote_stack.Storage.KeyName.{form_key_name}
use Token.{ClientToken, parse_token, print_token, trim_slashes, with_format}

infixl 5 ◌>>=◌ ◌>>◌
abbrev pub ◌>>=◌ : {A B : Type 0} → Option A → (A → Option B) → Option B
none >>= f = none
some a >>= f = f a

abbrev pub ◌>>◌ : {B : Type 0} → Option (Unit {0}) → Option B → Option B
m >> k = m >>= λ _. k

abbrev pub guard : Bool → Option (Unit {0})
guard true = some tt
guard false = none

-- A `url.URL`, what the code reads of it.
pub record Url : Type 0 where
  pub scheme : String
  pub host : String
  pub path : String

-- `http.DefaultClient`, `insecureClient`, and a client that trusts the given certificates alone
pub data HttpClient : Type 0 where
  default_client insecure_client : HttpClient
  trusting : Bytes → HttpClient

pub record HttpRequest : Type 0 where
  pub url : String
  pub credentials : Option (String × String)
  pub headers : Map String

-- The status and the body of an answer, if it can be read
abbrev pub HttpAnswer : Type 0
HttpAnswer = Option (ℕ × Option Bytes)

-- What the libraries do.
pub record Net : Type 0 where
  pub parse : String → Option Url
  pub print : Url → String
  pub exchange : HttpClient → HttpRequest → HttpAnswer
  pub hash_ca : Bytes → String

-- `Info`
pub record Info : Type 0 where
  pub url : String
  pub ca_certs : Bytes
  pub username : String
  pub password : String
  pub token : String

-- `GetHTTPClient`
abbrev pub get_http_client : Bytes → HttpClient
get_http_client [] = default_client
get_http_client (b ∷ certs) = trusting (b ∷ certs)

module _ (net : Net) where
  ok_body : HttpAnswer → Option Bytes
  ok_body none = none
  ok_body (some (status, body)) = if nat_eq status 200 then body else none

  asked : Map String → String → HttpClient → String → String → Option Bytes
  unfolding ok_body
  asked headers u client username password = ok_body (
      net.exchange client (record {
        url = u;
        credentials = if username == "" then none else some (username, password);
        headers = headers;
      }))

  -- `get_url`
  unfoldable pub get_url : String → HttpClient → String → String → Option Bytes
  unfolding asked
  get_url u client username password = asked [] u client username password

  -- `getNodeNamedCrt`
  unfoldable pub get_node_named_crt :
      String → String → String → HttpClient → String → String → Option Bytes
  unfolding asked
  get_node_named_crt node_name node_password u client username password =
      asked (("K3s-Node-Name", node_name) ∷ ("K3s-Node-Password", node_password) ∷ []) u client
        username password

  at_path : String → Url → String
  at_path path u = net.print (record u { path = path })

  -- `GetCACerts`: none where the server's certificate is trusted as it is, else its own certificates,
  -- if it can be reached with these.
  unfoldable pub get_ca_certs : Url → Option Bytes
  unfolding at_path get_url
  get_ca_certs u =
      let url = at_path "/cacerts" u in
      elim (get_url url default_client "" "") [
        | some _ ↦ some []
        | none ↦ do
          let certs = get_url url insecure_client "" ""
          cacerts ← certs
          _ ← get_url url (get_http_client cacerts) "" ""
          some cacerts
      ]

  -- `validateCACerts` with the test before it: nothing is compared without a hash or certificates.
  unfoldable pub accepts : Bytes → String → Bool
  accepts cacerts hash = is_empty cacerts || hash == "" || hash == net.hash_ca cacerts

  -- `validateToken`
  unfoldable pub validate_token : Url → Bytes → String → String → Bool
  unfolding at_path get_url
  validate_token u cacerts username password =
      is_some (get_url (at_path "/apis" u) (get_http_client cacerts) username password)

  -- `Info.ToToken`
  unfoldable pub to_token : Bytes → String → String → String
  unfolding print_token
  to_token cacerts username password = print_token (net.hash_ca cacerts) username password

  -- `ParseAndValidateToken`
  unfoldable pub parse_and_validate_token : String → String → Option Info
  unfolding to_token accepts validate_token
  parse_and_validate_token server token = do
    u ← net.parse server
    guard (u.scheme == "https")
    parsed ← parse_token token
    let trimmed : Url = record u { path = trim_slashes u.path }
    cacerts ← get_ca_certs trimmed
    guard (accepts cacerts parsed.ca_hash)
    guard (validate_token trimmed cacerts parsed.username parsed.password)
    some (record {
      url = net.print trimmed;
      ca_certs = cacerts;
      username = parsed.username;
      password = parsed.password;
      token = to_token cacerts parsed.username parsed.password;
    })

  -- `NormalizeAndValidateTokenForUser`
  unfoldable pub normalize_and_validate_token_for_user : String → String → String → Option String
  unfolding to_token
  normalize_and_validate_token_for_user server token user = do
    info ← parse_and_validate_token server (with_format user token)
    some (to_token info.ca_certs user info.password)

  -- `Get`
  unfoldable pub get_path : String → Info → Option Bytes
  unfolding at_path get_url
  get_path path info = do
    u ← net.parse info.url
    get_url (at_path path u) (get_http_client info.ca_certs) info.username info.password

  -- `ParseUsernamePassword`, empty texts for a token that it cannot parse
  abbrev credentials_of : Option ClientToken → String × String
  credentials_of none = ("", "")
  credentials_of (some t) = (t.username, t.password)

  -- `Request`
  unfoldable pub request :
      String → Info → (String → HttpClient → String → String → Option Bytes) → Option Bytes
  unfolding at_path
  request path info requester = do
    u ← net.parse info.url
    let (username, password) = credentials_of (parse_token info.token)
    requester (at_path path u) (get_http_client info.ca_certs) username password
