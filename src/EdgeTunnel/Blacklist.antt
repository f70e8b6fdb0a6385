-- ===== src/EdgeTunnel/Blacklist.antt =====
-- The list and the map of the blacklist, and the parents that are tried.
use ote_stack.Prelude.{
  ℕ, String, ◌≡◌, refl, ap, sym, ◌∙◌, Bool, true, false, not, ◌&&◌, List, [], ◌∷◌, ◌++◌, arith,
  elem, ◌==◌, eq_iff, is_some, elem-append, Bool-cases, inl, inr, leb, ◌-◌,
}
use ote_stack.Maps.{Map, lookup, lookup-insert, lookup-erase}
use ote_stack.EdgeTunnel.{
  CloudBlackList, push, pop, popped, time_added, blacklist_duration, EdgeTunnel, first_free, choice,
  popped_choice, choose_parent_neighbor, Dialled, connected, failed, redirected, after_failure,
  redirect, after_connect, reconnect,
}

abbrev distinct : List String → Bool
distinct [] = true
distinct (a ∷ rest) = not (elem a rest) && distinct rest

-- No address is in the list twice, and the list has the keys of the map.
pub record Sound (b : CloudBlackList) : Type 0 where
  pub once : distinct b.addr_list ≡ true
  pub same : (a : String) → elem a b.addr_list ≡ is_some (lookup a b.addr_map)

distinct-snoc :
    (a : String) (rest : List String)
    → distinct rest ≡ true
    → elem a rest ≡ false
    → distinct (rest ++ (a ∷ [])) ≡ true
distinct-snoc a [] d f = refl
distinct-snoc a (x ∷ rest) d f =
    ground (arith, distinct-snoc a rest, elem-append x rest (a ∷ []), eq_iff a x, eq_iff x a)

push-Sound : (a : String) (now : ℕ) (b : CloudBlackList) → Sound b → Sound (push a now b)
unfolding push
push-Sound a now b h = elim (Bool-cases (is_some (lookup a b.addr_map))) [
  | inl e ↦ rw e h
  | inr e ↦ rw e (record {
    once = distinct-snoc a b.addr_list h.once (h.same a ∙ e);
    same = λ x. ground (
      arith,
      h.same x,
      elem-append x b.addr_list (a ∷ []),
      lookup-insert a x now b.addr_map,
      eq_iff a x,
      eq_iff x a,
    );
  })
]

popped-Sound :
    (addrs : List String) (now : ℕ) (b : CloudBlackList)
    → b.addr_list ≡ addrs
    → Sound b
    → Sound (popped addrs now b).1
unfolding popped
popped-Sound [] now b e h = h
popped-Sound (a ∷ rest) now b e h =
    let once = sym (ap distinct e) ∙ h.once in
    elim (Bool-cases (leb (now - time_added (lookup a b.addr_map)) blacklist_duration)) [
      | inl t ↦ rw t h
      | inr t ↦ rw t (record {
        once = ground (arith, once);
        same = λ x. ground (
          arith,
          once,
          sym (ap (elem x) e) ∙ h.same x,
          lookup-erase a x b.addr_map,
          eq_iff a x,
          ap (λ k. elem k rest),
        );
      })
    ]

pop-Sound : (now : ℕ) (b : CloudBlackList) → Sound b → Sound (pop now b).1
unfolding pop
pop-Sound now b h = popped-Sound b.addr_list now b refl h

popped_choice-Sound :
    (e : EdgeTunnel) (addr : String) (b : CloudBlackList)
    → Sound b
    → Sound (popped_choice e (addr, b)).1.black_list
unfolding popped_choice
popped_choice-Sound e addr b h = elim (Bool-cases (addr == "")) [ inl t ↦ rw t h | inr t ↦ rw t h ]

choice-Sound :
    (addr : String) (now : ℕ) (e : EdgeTunnel)
    → Sound e.black_list
    → Sound (choice addr now e).1.black_list
unfolding choice
choice-Sound addr now e h = elim (Bool-cases (addr == "")) [
  | inl t ↦ rw t (
      popped_choice-Sound e (pop now e.black_list).0 (pop now e.black_list).1
        (pop-Sound now e.black_list h))
  | inr t ↦ rw t h
]

after_failure-Sound :
    (neighbors : Map String) (now : ℕ) (e : EdgeTunnel)
    → Sound e.black_list
    → Sound (after_failure neighbors now e).black_list
unfolding after_failure choose_parent_neighbor
after_failure-Sound neighbors now e h =
    let b = push e.cloud_addr now e.black_list in
    elim (Bool-cases (e.origin_cloud_addr == "")) [
      | inl t ↦ rw t (
          choice-Sound (first_free neighbors b) now (record e { black_list = b })
            (push-Sound e.cloud_addr now e.black_list h))
      | inr t ↦ rw t h
    ]

-- Whatever the parents answer while an edge cluster looks for one, and whatever neighbors it knows of
-- then: the blacklist has no address twice, and its list and its map have the same addresses, if this
-- is so at the start.
reconnect-Sound :
    (answers : List Dialled) (e : EdgeTunnel)
    → Sound e.black_list
    → Sound (reconnect answers e).1.black_list
unfolding reconnect redirect after_connect lookup
reconnect-Sound [] e h = h
reconnect-Sound (connected ∷ answers) e h = record { once = refl; same = λ a. refl }
reconnect-Sound (failed neighbors now ∷ answers) e h =
    reconnect-Sound answers (after_failure neighbors now e) (after_failure-Sound neighbors now e h)
reconnect-Sound (redirected host ∷ answers) e h =
    reconnect-Sound answers (record e { origin_cloud_addr = e.cloud_addr; cloud_addr = host }) h
