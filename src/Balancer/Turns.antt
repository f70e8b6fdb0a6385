-- ===== src/Balancer/Turns.antt =====
-- `nextServer` goes round the list.
use ote_stack.Prelude.{
  ℕ, zero, suc, ◌+◌, ◌≤◌, ◌<◌, ◌≡◌, refl, some, List, [], ◌∷◌, ok, arith, if◌then◌else◌, leb,
  length, get_elem?, eq_refl,
}
use ote_stack.Balancer.{LoadBalancer, next_server, turned}

-- The current server is the one at position `p`, and the next is behind it.
pub record At (p : ℕ) (lb : LoadBalancer) : Type 0 where
  pub here : get_elem? lb.random_servers p ≡ some lb.current_server_address
  pub next : lb.next_server_index ≡ p + 1

-- The position after `p` in a round of `n`.
abbrev pub after : ℕ → ℕ → ℕ
after n p = if leb n (p + 1) then 0 else p + 1

pub get_elem?-some {ℓ} :
    {A : Type ℓ} (xs : List A) (i : ℕ) → i < length xs → (a : A) × (get_elem? xs i ≡ some a)
get_elem?-some [] i h = absurd (omega arith)
get_elem?-some (x ∷ xs) zero h = (x, refl)
get_elem?-some (x ∷ xs) (suc i) h = get_elem?-some xs i (omega arith)

pub lt-of-get_elem? {ℓ} :
    {A : Type ℓ} (xs : List A) (i : ℕ) (a : A) → get_elem? xs i ≡ some a → i < length xs
lt-of-get_elem? [] i a e = cc
lt-of-get_elem? (x ∷ xs) zero a e = omega arith
lt-of-get_elem? (x ∷ xs) (suc i) a e = omega (arith, lt-of-get_elem? xs i a e)

turned-At :
    (p : ℕ) (lb : LoadBalancer)
    → At p lb
    → 2 ≤ length lb.random_servers
    → At (after (length lb.random_servers) p) (turned lb)
unfolding turned
turned-At p lb at many =
    let (s, e) =
      get_elem?-some lb.random_servers (after (length lb.random_servers) p) (ground arith) in
    record { here = rw at.next (rw e refl); next = rw at.next refl }

random_servers-turned : (lb : LoadBalancer) → (turned lb).random_servers ≡ lb.random_servers
unfolding turned
random_servers-turned lb = refl

health-turned : (lb : LoadBalancer) → (turned lb).server_health_status ≡ lb.server_health_status
unfolding turned
health-turned lb = refl

next_server-turned :
    (lb : LoadBalancer)
    → 2 ≤ length lb.random_servers
    → next_server lb.current_server_address lb ≡ (ok (turned lb).current_server_address, turned lb)
unfolding next_server
next_server-turned lb many = ground (arith, eq_refl lb.current_server_address)

-- With two servers or more and the current one at position `p`, the current server failing makes
-- the server at the next position of the round the current one, which is returned; the list and the
-- health stay.
pub next_server-At :
    (p : ℕ) (lb : LoadBalancer)
    → At p lb
    → 2 ≤ length lb.random_servers
    → (lb' : LoadBalancer) × (next_server lb.current_server_address lb
        ≡ (ok lb'.current_server_address, lb'))
      × At (after (length lb.random_servers) p) lb'
      × (lb'.random_servers ≡ lb.random_servers)
      × (lb'.server_health_status ≡ lb.server_health_status)
next_server-At p lb at many = (
  turned lb,
  next_server-turned lb many,
  turned-At p lb at many,
  random_servers-turned lb,
  health-turned lb,
)

pub next_server-single :
    (lb : LoadBalancer)
    → length lb.random_servers ≡ 1
    → next_server lb.current_server_address lb ≡ (ok lb.current_server_address, lb)
unfolding next_server
next_server-single lb one = ground arith
