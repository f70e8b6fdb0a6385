-- ===== src/Certificate/Token.antt =====
-- The tokens `K10<hash>::<user>:<password>` of a k3s server.
use Prim.Native.Char.{code}
use Prim.Native.String.{[], ◌∷◌, ◌++◌}
use text.Mathlib.TextLemmas.{nil-append}
use ote_stack.Prelude.{
  sym, ap, ◌∙◌, String, ◌≡◌, refl, true, Option, none, some, if◌then◌else◌, nat_eq, false, sym,
}
use ote_stack.Text.{
  strip_prefix, has_prefix, split_once, lacks, strip_prefix-append, split_once-append,
}

-- `clientToken`
pub record ClientToken : Type 0 where
  pub ca_hash : String
  pub username : String
  pub password : String

credentials : String → Option (String × String) → Option ClientToken
credentials hash none = none
credentials hash (some (username, password)) =
    some (record { ca_hash = hash; username = username; password = password })

after_hash : String → Option (String × String) → Option ClientToken
unfolding credentials
after_hash token none = credentials "" (split_once ":" token)
after_hash token (some (hash, rest)) = credentials hash (split_once ":" rest)

after_format : Option String → Option ClientToken
unfolding after_hash
after_format none = none
after_format (some token) = after_hash token (split_once "::" token)

-- `parseToken`
unfoldable pub parse_token : String → Option ClientToken
unfolding after_format
parse_token token = after_format (strip_prefix "K10" token)

-- The text of `ToToken`
unfoldable pub print_token : String → String → String → String
print_token hash username password = "K10" ++ (hash ++ ("::" ++ (username ++ (":" ++ password))))

-- The format that `NormalizeAndValidateTokenForUser` gives a token without one.
unfoldable pub with_format : String → String → String
with_format user token =
    if has_prefix "K10" token then token else "K10" ++ ("::" ++ (user ++ (":" ++ token)))

-- A path without the slashes at its end
unfoldable pub trim_slashes : String → String
trim_slashes [] = []
trim_slashes (c ∷ s) = elim (trim_slashes s) [
  | [] ↦ (if nat_eq (code c) (code "/") then [] else c ∷ [])
  | d ∷ r ↦ c ∷ d ∷ r
]

-- A token of a hash without a colon, a user without a colon and any password reads back as these.
pub parse_token-print_token :
    (hash username password : String)
    → lacks ":" hash ≡ true
    → lacks ":" username ≡ true
    → parse_token (print_token hash username password)
      ≡ some (record { ca_hash = hash; username = username; password = password })
unfolding parse_token print_token
parse_token-print_token hash username password h u = rw strip_prefix-append (
    rw (split_once-append ":" ":" hash (username ++ (":" ++ password)) h)
      (rw (split_once-append ":" "" username password u) refl))

no_hash : (rest : String) → split_once "::" ("::" ++ rest) ≡ some ("", rest)
no_hash rest =
    ap (split_once "::") (sym (nil-append ("::" ++ rest))) ∙ split_once-append ":" ":" "" rest refl

-- A token without a format is the password of the user.
pub parse_token-with_format :
    (username token : String)
    → lacks ":" username ≡ true
    → has_prefix "K10" token ≡ false
    → parse_token (with_format username token)
      ≡ some (record { ca_hash = ""; username = username; password = token })
unfolding parse_token with_format
parse_token-with_format username token u bare = rw bare (
    rw strip_prefix-append (
      rw (no_hash (username ++ (":" ++ token)))
        (rw (split_once-append ":" "" username token u) refl)))
