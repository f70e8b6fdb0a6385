-- ===== src/Certificate/Pinned.antt =====
-- The token that an edge hub has checked, and the certificates that it is for.
use mathlib.Core.Path.{subst}
use ote_stack.Prelude.{
  String, ◌≡◌, refl, ap, sym, ◌∙◌, ◌⊎◌, inl, inr, Bool, true, false, Option, none, some, [], ◌∷◌,
  if◌then◌else◌, ◌==◌, eq_iff, eq_refl, arith, Bool-cases,
}
use ote_stack.Message.{Bytes}
use ote_stack.Text.{lacks}
use ote_stack.Certificate.Token.{
  ClientToken, parse_token, print_token, with_format, trim_slashes, parse_token-print_token,
}
use ote_stack.Certificate.{
  ◌>>=◌, ◌>>◌, guard, Url, Net, Info, get_ca_certs, accepts, validate_token, to_token,
  parse_and_validate_token, normalize_and_validate_token_for_user,
}

some_eq : {A : Type 0} {x y : A} → some x ≡ some y → x ≡ y
some_eq e = cc

>>=-eq-some :
    {A B : Type 0} (m : Option A) (f : A → Option B) {b : B}
    → (m >>= f) ≡ some b
    → (a : A) × (m ≡ some a) × (f a ≡ some b)
>>=-eq-some none f h = absurd (ground arith)
>>=-eq-some (some a) f h = (a, refl, h)

guard-eq-some :
    {B : Type 0} (t : Bool) (k : Option B) {b : B}
    → (guard t >> k) ≡ some b
    → (t ≡ true) × (k ≡ some b)
guard-eq-some true k h = (refl, h)
guard-eq-some false k h = absurd (ground arith)

-- A server's URL without the slashes at its end
abbrev pub trimmed : Url → Url
trimmed u = record u { path = trim_slashes u.path }

-- What a checked token says: the server is reached by https, and the certificates are those of the
-- hash, if there are both; the server takes the user and the password of the token.
pub record Checked (net : Net) (server token : String) (info : Info) : Type 0 where
  pub at : Url
  pub parsed : ClientToken
  pub server_url : net.parse server ≡ some at
  pub by_https : (at.scheme == "https") ≡ true
  pub token_parts : parse_token token ≡ some parsed
  pub certs : get_ca_certs net (trimmed at) ≡ some info.ca_certs
  pub pinned :
      (info.ca_certs ≡ []) ⊎ ((parsed.ca_hash ≡ "") ⊎ (parsed.ca_hash ≡ net.hash_ca info.ca_certs))
  pub taken : validate_token net (trimmed at) info.ca_certs info.username info.password ≡ true
  pub of_token : (info.username ≡ parsed.username) × (info.password ≡ parsed.password)
  pub url : info.url ≡ net.print (trimmed at)
  pub printed : info.token ≡ to_token net info.ca_certs info.username info.password

module _ (net : Net) where
  accepts_own : (cacerts : Bytes) → accepts net cacerts (net.hash_ca cacerts) ≡ true
  unfolding accepts
  accepts_own [] = refl
  accepts_own (b ∷ bs) = ground (arith, eq_refl (net.hash_ca (b ∷ bs)))

  accepts-cases :
      (cacerts : Bytes) (hash : String)
      → accepts net cacerts hash ≡ true
      → (cacerts ≡ []) ⊎ ((hash ≡ "") ⊎ (hash ≡ net.hash_ca cacerts))
  unfolding accepts
  accepts-cases [] hash h = inl refl
  accepts-cases (b ∷ bs) hash h = elim (Bool-cases (hash == "")) [
    | inl e ↦ inr (inl ((eq_iff hash "").0 e))
    | inr e ↦ inr (inr ((eq_iff hash (net.hash_ca (b ∷ bs))).0 (ground (arith, h, e))))
  ]

  -- Where a token is accepted, the server is reached by https, the certificates that it is trusted by
  -- have the hash of the token, if it has one and they are needed, and the server takes the user and
  -- the password of the token; the new token has the hash of these certificates.
  pub parse_and_validate_token-Checked :
      (server token : String) (info : Info)
      → parse_and_validate_token net server token ≡ some info
      → Checked net server token info
  unfolding parse_and_validate_token
  parse_and_validate_token-Checked server token info h =
      let (u, at, h₁) = >>=-eq-some (net.parse server) _ h in
      let (https, h₂) = guard-eq-some (u.scheme == "https") _ h₁ in
      let (parsed, parts, h₃) = >>=-eq-some (parse_token token) _ h₂ in
      let (cacerts, certs, h₄) = >>=-eq-some (get_ca_certs net (trimmed u)) _ h₃ in
      let (pinned, h₅) = guard-eq-some (accepts net cacerts parsed.ca_hash) _ h₄ in
      let (taken, h₆) =
        guard-eq-some (validate_token net (trimmed u) cacerts parsed.username parsed.password) _
          h₅ in
      subst (Checked net server token) (some_eq h₆) (record {
        at = u;
        parsed = parsed;
        server_url = at;
        by_https = https;
        token_parts = parts;
        certs = certs;
        pinned = accepts-cases cacerts parsed.ca_hash pinned;
        taken = taken;
        of_token = (refl, refl);
        url = refl;
        printed = refl;
      })

  -- What the second check of a token for another user comes to.
  abbrev pub for_user : Info → String → Url → Option Info
  for_user info user at =
      if validate_token net (trimmed at) info.ca_certs user info.password
      then some
          (record info { username = user; token = to_token net info.ca_certs user info.password })
      else none

  taken_for_user :
      (info : Info) (user : String) (at : Url)
      → info.url ≡ net.print (trimmed at)
      → (guard (validate_token net (trimmed at) info.ca_certs user info.password)
          >> some (record info {
            url = net.print (trimmed at);
            username = user;
            token = to_token net info.ca_certs user info.password;
          }))
        ≡ for_user info user at
  taken_for_user info user at e =
      elim (Bool-cases (validate_token net (trimmed at) info.ca_certs user info.password)) [
        | inl v ↦ rw v (
            ap
              (λ k. some (record info {
                url = k;
                username = user;
                token = to_token net info.ca_certs user info.password;
              }))
              (sym e))
        | inr v ↦ rw v refl
      ]

  again :
      (server token t user : String) (info : Info) (c : Checked net server token info)
      → lacks ":" (net.hash_ca info.ca_certs) ≡ true
      → lacks ":" user ≡ true
      → print_token (net.hash_ca info.ca_certs) user info.password ≡ t
      → parse_and_validate_token net server t ≡ for_user info user c.at
  unfolding parse_and_validate_token
  again server token t user info c hash plain e =
      let parts =
        ap parse_token (sym e)
        ∙ parse_token-print_token (net.hash_ca info.ca_certs) user info.password hash plain in
      rw c.server_url (
        rw c.by_https (
          rw parts
            (rw c.certs (rw (accepts_own info.ca_certs) (taken_for_user info user c.at c.url)))))

  -- Hashes and the user have no colon. The token that is made for a user from an accepted one is
  -- accepted in its turn, as long as the server answers alike, if and only if the server takes the
  -- user with the password: the certificates are those of its hash.
  pub normalized_token_accepted :
      (server token user t : String)
      → ((b : Bytes) → lacks ":" (net.hash_ca b) ≡ true)
      → lacks ":" user ≡ true
      → normalize_and_validate_token_for_user net server token user ≡ some t
      → (info : Info) × (at : Url) × (net.parse server ≡ some at)
        × (parse_and_validate_token net server (with_format user token) ≡ some info)
        × (parse_and_validate_token net server t ≡ for_user info user at)
  unfolding normalize_and_validate_token_for_user to_token
  normalized_token_accepted server token user t hashes plain h =
      let (info, checked, h₁) =
        >>=-eq-some (parse_and_validate_token net server (with_format user token)) _ h in
      let c = parse_and_validate_token-Checked server (with_format user token) info checked in
      let e : print_token (net.hash_ca info.ca_certs) user info.password ≡ t = some_eq h₁ in
      (
        info,
        c.at,
        c.server_url,
        checked,
        again server (with_format user token) t user info c (hashes info.ca_certs) plain e,
      )
