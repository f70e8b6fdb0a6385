-- ===== src/Balancer/Backend.antt =====
-- `getAvailableBackend` finds a backend if there is one, within one round of the list.
use ote_stack.Prelude.{
  ℕ, zero, suc, ◌+◌, ◌-◌, ◌<◌, ◌≡◌, ◌⊎◌, inl, inr, refl, ap, sym, ◌∙◌, String, Bool, true, false,
  ◌&&◌, none, some, Result, ok, err, arith, leb, length, get_elem?, Bool-cases,
}
use ote_stack.Maps.{lookup}
use ote_stack.Balancer.{
  LoadBalancer, next_server, get_health_status, try_backends, get_available_backend,
}
use ote_stack.Balancer.Turns.{At, after, next_server-At, lt-of-get_elem?}

-- Position `q` is `d` steps ahead of position `p` in a round of `n`.
abbrev Ahead : ℕ → ℕ → ℕ → ℕ → Type 0
Ahead n p q d = (p + d ≡ q) ⊎ (p + d ≡ q + n)

Ahead-after : (n p q d : ℕ) → p < n → q < n → Ahead n p q (suc d) → Ahead n (after n p) q d
Ahead-after n p q d hp hq a = ground arith

steps-Ahead : (n p q : ℕ) → p < n → q < n → (d : ℕ) × Ahead n p q d × (d < n)
steps-Ahead n p q hp hq = elim (Bool-cases (leb p q)) [
  | inl h ↦ (q - p, inl (ground arith), ground arith)
  | inr h ↦ (q + n - p, inr (ground arith), ground arith)
]

-- A server no step ahead is the current one.
current-At :
    (p q : ℕ) (lb : LoadBalancer) (s : String)
    → At p lb
    → get_elem? lb.random_servers q ≡ some s
    → Ahead (length lb.random_servers) p q 0
    → lb.current_server_address ≡ s
current-At p q lb s at e (inl h) =
    let both : some lb.current_server_address ≡ some s =
      sym at.here ∙ ap (get_elem? lb.random_servers) (omega arith) ∙ e in
    cc
current-At p q lb s at e (inr h) =
    absurd (omega (arith, lt-of-get_elem? lb.random_servers p lb.current_server_address at.here))

module _ (dial : String → Bool) where
  -- Health says so, and a connection can be made.
  abbrev pub usable : String → LoadBalancer → Bool
  usable s lb = get_health_status s lb && dial s

  usable_congr :
      (s : String) (a b : LoadBalancer)
      → a.server_health_status ≡ b.server_health_status
      → usable s a ≡ usable s b
  unfolding get_health_status
  usable_congr s a b e =
      ap (λ m. (elim (lookup s m) [ none ↦ false | some status ↦ status ]) && dial s) e

  abbrev Found : LoadBalancer → Result String → Type 0
  Found lb (ok s) = usable s lb ≡ true
  Found lb (err e) = ⊥

  Found-congr :
      (a b : LoadBalancer) (r : Result String)
      → a.server_health_status ≡ b.server_health_status
      → Found a r
      → Found b r
  Found-congr a b (ok s) e f = sym (usable_congr s a b e) ∙ f
  Found-congr a b (err x) e f = f

  try_backends-next :
      (tries : ℕ) (s : String) (lb lb' : LoadBalancer)
      → usable lb.current_server_address lb ≡ false
      → next_server lb.current_server_address lb ≡ (ok s, lb')
      → try_backends dial (suc tries) lb ≡ try_backends dial tries lb'
  unfolding try_backends
  try_backends-next tries s lb lb' bad e = ground arith

  -- The loop finds a usable backend if one stands fewer than `tries` steps ahead.
  try_backends-Found :
      (tries d p q : ℕ) (lb : LoadBalancer) (s : String)
      → At p lb
      → get_elem? lb.random_servers q ≡ some s
      → usable s lb ≡ true
      → Ahead (length lb.random_servers) p q d
      → d < tries
      → d < length lb.random_servers
      → Found lb (try_backends dial tries lb).0
  unfolding try_backends
  try_backends-Found zero d p q lb s at e u a h k = absurd (omega arith)
  try_backends-Found (suc tries) zero p q lb s at e u a h k =
      let good : usable lb.current_server_address lb ≡ true =
        ap (λ x. usable x lb) (current-At p q lb s at e a) ∙ u in
      rw (good, try_backends) good
  try_backends-Found (suc tries) (suc d) p q lb s at e u a h k =
      elim (Bool-cases (usable lb.current_server_address lb)) [
        | inl good ↦ rw (good, try_backends) good
        | inr bad ↦
            let (lb', step, at', same, health) = next_server-At p lb at (omega arith) in
            rw (try_backends-next tries lb'.current_server_address lb lb' bad step) (
              Found-congr lb' lb (try_backends dial tries lb').0 health (
                try_backends-Found tries d (after (length lb.random_servers) p) q lb' s at'
                  (rw same e) (usable_congr s lb' lb health ∙ u)
                  (rw same (
                    Ahead-after (length lb.random_servers) p q d
                      (lt-of-get_elem? lb.random_servers p lb.current_server_address at.here)
                      (lt-of-get_elem? lb.random_servers q s e) a))
                  (omega arith) (rw same (omega arith))))
      ]

  Found-pair :
      (lb : LoadBalancer) (r : Result String)
      → Found lb r
      → (t : String) × (r ≡ ok t) × (usable t lb ≡ true)
  Found-pair lb (ok t) found = (t, refl, found)
  Found-pair lb (err e) found = absurd found

  -- If the current server is at some position with the next behind it, and some server of the list
  -- is healthy and can be dialled, the call returns a server that is healthy and can be dialled.
  pub get_available_backend_found :
      (p q : ℕ) (lb : LoadBalancer) (s : String)
      → At p lb
      → get_elem? lb.random_servers q ≡ some s
      → usable s lb ≡ true
      → (t : String) × ((get_available_backend dial lb).0 ≡ ok t) × (usable t lb ≡ true)
  unfolding get_available_backend
  get_available_backend_found p q lb s at e u =
      let n = length lb.random_servers in
      let hp = lt-of-get_elem? lb.random_servers p lb.current_server_address at.here in
      let hq = lt-of-get_elem? lb.random_servers q s e in
      let (d, a, h) = steps-Ahead n p q hp hq in
      Found-pair lb (try_backends dial n lb).0 (try_backends-Found n d p q lb s at e u a h h)
