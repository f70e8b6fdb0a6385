-- ===== src/Balancer/Servers.antt =====
-- `setServers`: which servers the list has after an update.
use ote_stack.Prelude.{
  String, ◌≡◌, refl, ◌∙◌, ap, ◌⊎◌, inl, inr, Bool, true, false, not, ◌&&◌, ◌||◌, some, List, [],
  ◌∷◌, ◌++◌, ◌==◌, eq_iff, eq_refl, arith, if◌then◌else◌, elem, elem-append, is_empty, get_elem?,
  Bool-cases,
}
use ote_stack.Balancer.{
  LoadBalancer, insert_sorted, sort_strings, pick, sort_servers, list_eq, head_or_empty,
  set_servers,
}
use ote_stack.Balancer.Turns.{At}

elem-insert_sorted :
    (s t : String) (ts : List String) → elem s (insert_sorted t ts) ≡ (t == s || elem s ts)
unfolding insert_sorted
elem-insert_sorted s t [] = refl
elem-insert_sorted s t (u ∷ ts) = ground (arith, elem-insert_sorted s t ts)

elem-sort_strings : (s : String) (ts : List String) → elem s (sort_strings ts) ≡ elem s ts
unfolding sort_strings
elem-sort_strings s [] = refl
elem-sort_strings s (t ∷ ts) =
    elem-insert_sorted s t (sort_strings ts) ∙ ap (λ b. t == s || b) (elem-sort_strings s ts)

-- The loop keeps what it does not skip, and looks for the searched entry among that.
elem-pick :
    (s search : String) (skip xs : List String)
    → elem s (pick skip search xs).0 ≡ (elem s xs && not (elem s skip))
unfolding pick
elem-pick s search skip [] = refl
elem-pick s search skip (x ∷ xs) =
    ground (arith, eq_iff x s, elem-pick s search skip xs, elem-pick s search (x ∷ skip) xs)

found-pick :
    (search : String) (skip xs : List String)
    → (pick skip search xs).1 ≡ (elem search xs && not (elem search skip))
unfolding pick
found-pick search skip [] = refl
found-pick search skip (x ∷ xs) = ground (
  arith,
  eq_iff x search,
  eq_iff search x,
  found-pick search skip xs,
  found-pick search (x ∷ skip) xs,
)

-- An address that `sortServers` keeps.
abbrev listed : String → List String → Bool
listed s addresses = elem s addresses && not ("" == s)

elem-sort_servers :
    (s search : String) (addresses : List String)
    → elem s (sort_servers addresses search).0 ≡ listed s addresses
unfolding sort_servers
elem-sort_servers s search addresses =
    elem-sort_strings s (pick ("" ∷ []) search addresses).0
    ∙ elem-pick s search ("" ∷ []) addresses
    ∙ ground arith

found-sort_servers :
    (search : String) (addresses : List String)
    → (sort_servers addresses search).1 ≡ listed search addresses
unfolding sort_servers
found-sort_servers search addresses = found-pick search ("" ∷ []) addresses ∙ ground arith

-- A list that has something has a first entry.
first_of :
    (s : String) (xs : List String) → elem s xs ≡ true → get_elem? xs 0 ≡ some (head_or_empty xs)
unfolding head_or_empty
first_of s [] e = absurd (ground arith)
first_of s (x ∷ xs) e = refl

some_elem : (xs : List String) → is_empty xs ≡ false → (s : String) × (elem s xs ≡ true)
some_elem [] e = absurd (ground arith)
some_elem (x ∷ xs) e = (x, ground (arith, eq_refl x))

module _ (shuffle : List String → List String) where
  -- The list of `setServers`, sorted and shuffled, with the original server at the end if need be.
  abbrev random_of : List String → String → List String
  random_of addresses original =
      let sorted = sort_servers addresses original in
      if sorted.1 then shuffle sorted.0 else shuffle sorted.0 ++ original ∷ []

  elem-random_of :
      (s : String) (addresses : List String) (original : String)
      → ((s : String) (xs : List String) → elem s (shuffle xs) ≡ elem s xs)
      → elem s (random_of addresses original) ≡ (listed s addresses || original == s)
  elem-random_of s addresses original keeps = ground (
    arith,
    keeps s (sort_servers addresses original).0,
    elem-append s (shuffle (sort_servers addresses original).0) (original ∷ []),
    elem-sort_servers s original addresses,
    found-sort_servers original addresses,
    eq_iff original s,
  )

  -- Given a shuffle that keeps what is in a list: either nothing changes, or the list has exactly
  -- the addresses that are not empty and the original server, the first server is the current one
  -- with the next behind it, and the health stays.
  set_servers-listed :
      (addresses : List String) (lb : LoadBalancer)
      → ((s : String) (xs : List String) → elem s (shuffle xs) ≡ elem s xs)
      → (set_servers shuffle addresses lb ≡ (lb, false))
        ⊎ ((lb' : LoadBalancer) × (set_servers shuffle addresses lb ≡ (lb', true))
            × ((s : String)
                → elem s lb'.random_servers
                  ≡ (listed s addresses || lb.original_server_address == s))
            × At 0 lb'
            × (lb'.server_health_status ≡ lb.server_health_status))
  unfolding set_servers
  set_servers-listed addresses lb keeps =
      let sorted = (sort_servers addresses lb.original_server_address).0 in
      elim (Bool-cases (is_empty sorted || list_eq sorted lb.server_addresses)) [
        | inl same ↦ inl (rw (same, set_servers))
        | inr new ↦
            let random = random_of addresses lb.original_server_address in
            let first = some_elem sorted (ground arith) in
            let there : elem first.0 random ≡ true =
              elem-random_of first.0 addresses lb.original_server_address keeps
              ∙ ground (
                arith,
                elem-sort_servers first.0 lb.original_server_address addresses,
                first.1,
              ) in
            inr (
              record lb {
                server_addresses = sorted;
                random_servers = random;
                current_server_address = head_or_empty random;
                next_server_index = 1;
              },
              rw (new, set_servers),
              λ s. elem-random_of s addresses lb.original_server_address keeps,
              record { here = first_of first.0 random there; next = refl },
              refl,
            )
      ]
