-- ===== src/EdgeTunnel/Found.antt =====
-- A neighbor of the parent that can be reached is found.
use ote_stack.Prelude.{
  ℕ, suc, ◌≤◌, ◌<◌, String, ◌≡◌, refl, ap, ◌∙◌, Bool, true, false, ◌||◌, List, [], ◌∷◌, arith, elem,
  ◌==◌, eq_iff, eq_refl, is_some, Bool-cases, inl, inr, length, if◌then◌else◌,
}
use ote_stack.Maps.{Map, lookup, lookup-insert}
use ote_stack.EdgeTunnel.{
  CloudBlackList, find, push, EdgeTunnel, first_free, choice, choose_parent_neighbor, Dialled,
  connected, failed, after_failure, reconnect,
}

abbrev pub addresses : Map String → List String
addresses [] = []
addresses ((name, addr) ∷ rest) = addr ∷ addresses rest

-- How many entries have an address out of the blacklist
abbrev free : Map String → CloudBlackList → ℕ
free [] b = 0
free ((name, addr) ∷ rest) b = if find addr b then free rest b else suc (free rest b)

find-push :
    (c x : String) (now : ℕ) (b : CloudBlackList) → find x (push c now b) ≡ ((c == x) || find x b)
unfolding find push
find-push c x now b =
    ground
      (arith, lookup-insert c x now b.addr_map, eq_iff c x, ap (λ k. is_some (lookup k b.addr_map)))

free-push :
    (m : Map String) (c : String) (now : ℕ) (b : CloudBlackList) → free m (push c now b) ≤ free m b
free-push [] c now b = ground arith
free-push ((name, addr) ∷ m) c now b = ground (arith, free-push m c now b, find-push c addr now b)

-- A failed address that was out of the blacklist is one less.
free-push_fewer :
    (m : Map String) (c : String) (now : ℕ) (b : CloudBlackList)
    → elem c (addresses m) ≡ true
    → find c b ≡ false
    → free m (push c now b) < free m b
free-push_fewer [] c now b e f = absurd (ground arith)
free-push_fewer ((name, addr) ∷ m) c now b e f = ground (
  arith,
  free-push m c now b,
  free-push_fewer m c now b,
  find-push c addr now b,
  eq_iff addr c,
  eq_iff c addr,
  ap (λ k. find k b),
)

-- What is chosen, where some address is out of the blacklist and none is empty.
record Chosen (m : Map String) (b : CloudBlackList) (addr : String) : Type 0 where
  listed : elem addr (addresses m) ≡ true
  out : find addr b ≡ false
  named : (addr == "") ≡ false

first_free-Chosen :
    (m : Map String) (b : CloudBlackList) (a : String)
    → elem a (addresses m) ≡ true
    → find a b ≡ false
    → elem "" (addresses m) ≡ false
    → Chosen m b (first_free m b)
unfolding first_free
first_free-Chosen [] b a e f n = absurd (ground arith)
first_free-Chosen ((name, addr) ∷ m) b a e f n = elim (Bool-cases (find addr b)) [
  | inl t ↦ rw t (
      let c =
        first_free-Chosen m b a (ground (arith, eq_iff addr a, ap (λ k. find k b))) f
          (ground (arith, n)) in
      record { listed = ground (arith, c.listed); out = c.out; named = c.named })
  | inr t ↦
      rw t (record { listed = ground (arith, eq_refl addr); out = t; named = ground (arith, n) })
]

-- The tunnel is at a neighbor's address that it has not tried, and one that can be reached is left.
record Heading (m : Map String) (a : String) (e : EdgeTunnel) : Type 0 where
  at : elem e.cloud_addr (addresses m) ≡ true
  untried : find e.cloud_addr e.black_list ≡ false
  left : find a e.black_list ≡ false
  here : e.origin_cloud_addr ≡ ""

-- A failed attempt makes the tunnel head for a neighbor out of the blacklist.
after_failure_lem :
    (m : Map String) (now : ℕ) (e : EdgeTunnel)
    → e.origin_cloud_addr ≡ ""
    → (first_free m (push e.cloud_addr now e.black_list) == "") ≡ false
    → after_failure m now e ≡ record e {
      cloud_addr = first_free m (push e.cloud_addr now e.black_list);
      black_list = push e.cloud_addr now e.black_list;
    }
unfolding after_failure choose_parent_neighbor choice
after_failure_lem m now e o n =
    let here : (e.origin_cloud_addr == "") ≡ true = ap (λ s. s == "") o ∙ eq_refl "" in
    rw here (rw n refl)

-- After a failed attempt where it was redirected to, the tunnel goes back.
after_failure-redirected :
    (m : Map String) (now : ℕ) (e : EdgeTunnel)
    → (e.origin_cloud_addr == "") ≡ false
    → after_failure m now e ≡ record e { cloud_addr = e.origin_cloud_addr; origin_cloud_addr = "" }
unfolding after_failure
after_failure-redirected m now e o = rw o refl

-- The answers of a network where the addresses that can be reached, and the neighbors, stay the same:
-- an attempt at each of the times until one is connected.
unfoldable pub attempts : (String → Bool) → Map String → List ℕ → EdgeTunnel → List Dialled
attempts reaches m [] e = []
attempts reaches m (now ∷ times) e =
    let rest = attempts reaches m times (after_failure m now e) in
    if reaches e.cloud_addr then connected ∷ [] else failed m now ∷ rest

module _ (reaches : String → Bool) (m : Map String) (a : String)
    (listed : elem a (addresses m) ≡ true) (named : elem "" (addresses m) ≡ false)
    (up : reaches a ≡ true) where
  -- After a failed attempt, with such a neighbor left.
  after_failure-Heading :
      (now : ℕ) (e : EdgeTunnel)
      → e.origin_cloud_addr ≡ ""
      → find a e.black_list ≡ false
      → reaches e.cloud_addr ≡ false
      → Heading m a (after_failure m now e)
        × ((after_failure m now e).black_list ≡ push e.cloud_addr now e.black_list)
  after_failure-Heading now e o f down =
      let b = push e.cloud_addr now e.black_list in
      let left : find a b ≡ false =
        ground
          (arith, find-push e.cloud_addr a now e.black_list, eq_iff e.cloud_addr a, ap reaches) in
      let c = first_free-Chosen m b a listed left named in
      rw (after_failure_lem m now e o c.named)
        (record { at = c.listed; untried = c.out; left = left; here = o }, refl)

  untried_connects :
      (times : List ℕ) (e : EdgeTunnel)
      → Heading m a e
      → free m e.black_list ≤ length times
      → (reconnect (attempts reaches m times e) e).0 ≡ true
  unfolding reconnect attempts
  untried_connects [] e h bound =
      absurd (ground (arith, free-push_fewer m e.cloud_addr 0 e.black_list h.at h.untried))
  untried_connects (now ∷ times) e h bound = elim (Bool-cases (reaches e.cloud_addr)) [
    | inl t ↦ rw t refl
    | inr t ↦ rw t (
        let (next, b) = after_failure-Heading now e h.here h.left t in
        untried_connects times (after_failure m now e) next
          (rw b (ground (arith, free-push_fewer m e.cloud_addr now e.black_list h.at h.untried))))
  ]

  direct_connects :
      (times : List ℕ) (e : EdgeTunnel)
      → e.origin_cloud_addr ≡ ""
      → find a e.black_list ≡ false
      → free m e.black_list < length times
      → (reconnect (attempts reaches m times e) e).0 ≡ true
  unfolding reconnect attempts
  direct_connects [] e o f bound = absurd (ground arith)
  direct_connects (now ∷ times) e o f bound = elim (Bool-cases (reaches e.cloud_addr)) [
    | inl t ↦ rw t refl
    | inr t ↦ rw t (
        let (next, b) = after_failure-Heading now e o f t in
        untried_connects times (after_failure m now e) next
          (rw b (ground (arith, free-push m e.cloud_addr now e.black_list))))
  ]

  -- An edge cluster that looks for a parent is connected in the end, if some neighbor of its former
  -- parent can be reached and is not in the blacklist: after two attempts more than there are neighbors
  -- out of the blacklist at most. Which addresses can be reached and the neighbors stay the same, and
  -- no neighbor has an empty address.
  pub reconnect_connects :
      (times : List ℕ) (e : EdgeTunnel)
      → find a e.black_list ≡ false
      → suc (free m e.black_list) < length times
      → (reconnect (attempts reaches m times e) e).0 ≡ true
  unfolding reconnect attempts
  reconnect_connects [] e f bound = absurd (ground arith)
  reconnect_connects (now ∷ times) e f bound = elim (Bool-cases (e.origin_cloud_addr == "")) [
    | inl o ↦ direct_connects (now ∷ times) e ((eq_iff e.origin_cloud_addr "").0 o) f (ground arith)
    | inr o ↦ elim (Bool-cases (reaches e.cloud_addr)) [
      | inl t ↦ rw t refl
      | inr t ↦
          let back = record e { cloud_addr = e.origin_cloud_addr; origin_cloud_addr = "" } in
          let next = after_failure m now e in
          let found : (reconnect (attempts reaches m times next) next).0 ≡ true =
            rw (after_failure-redirected m now e o)
              (direct_connects times back refl f (ground arith)) in
          rw t found
    ]
  ]
