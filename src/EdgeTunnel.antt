-- ===== src/EdgeTunnel.antt =====
-- pkg/tunnel/edgetunnel.go: how an edge cluster finds a parent again.
-- What `Dial` answers, the clock in nanoseconds and the parent's neighbors are parameters.
pub mod Blacklist
pub mod Found
use ote_stack.Prelude.{
  ℕ, ◌-◌, String, Bool, true, false, Option, none, some, List, [], ◌∷◌, ◌++◌, if◌then◌else◌, ◌==◌,
  is_some, leb,
}
use ote_stack.Maps.{Map, lookup, insert, erase}

-- `CloudBlackList`: the addresses in their order, and the time of each.
pub record CloudBlackList : Type 0 where
  pub addr_list : List String
  pub addr_map : Map ℕ

-- `blacklistSeconds`, in nanoseconds
abbrev pub blacklist_duration : ℕ
blacklist_duration = 10000000000

-- `Find`
unfoldable pub find : String → CloudBlackList → Bool
find key b = is_some (lookup key b.addr_map)

-- `Push`
unfoldable pub push : String → ℕ → CloudBlackList → CloudBlackList
push addr now b =
    if is_some (lookup addr b.addr_map)
    then b
    else record { addr_list = b.addr_list ++ (addr ∷ []); addr_map = insert addr now b.addr_map }

-- The zero time for a missing key
unfoldable pub time_added : Option ℕ → ℕ
time_added none = 0
time_added (some t) = t

unfoldable pub popped : List String → ℕ → CloudBlackList → String × CloudBlackList
unfolding time_added
popped [] now b = ("", b)
popped (addr ∷ rest) now b =
    if leb (now - time_added (lookup addr b.addr_map)) blacklist_duration
    then ("", b)
    else (addr, record { addr_list = rest; addr_map = erase addr b.addr_map })

-- `Pop`
unfoldable pub pop : ℕ → CloudBlackList → String × CloudBlackList
unfolding popped
pop now b = popped b.addr_list now b

-- `Clear`
abbrev pub clear : CloudBlackList
clear = record { addr_list = []; addr_map = [] }

-- `edgeTunnel`, what the search for a parent reads, with the blacklist.
pub record EdgeTunnel : Type 0 where
  pub cloud_addr : String
  pub origin_cloud_addr : String
  pub black_list : CloudBlackList

-- `NewEdgeTunnel`
abbrev pub new_edge_tunnel : String → EdgeTunnel
new_edge_tunnel parent = record { cloud_addr = parent; origin_cloud_addr = ""; black_list = clear }

-- The loop of `chooseParentNeighbor`: the first address out of the blacklist, or none as "".
unfoldable pub first_free : Map String → CloudBlackList → String
unfolding find
first_free [] b = ""
first_free ((name, addr) ∷ rest) b = if find addr b then first_free rest b else addr

unfoldable pub popped_choice : EdgeTunnel → String × CloudBlackList → Bool × EdgeTunnel
popped_choice e (addr, b) =
    if addr == ""
    then (false, record e { black_list = b })
    else (true, record e { cloud_addr = addr; black_list = b })

unfoldable pub choice : String → ℕ → EdgeTunnel → Bool × EdgeTunnel
unfolding popped_choice pop
choice addr now e =
    if addr == ""
    then popped_choice e (pop now e.black_list)
    else (true, record e { cloud_addr = addr })

-- `chooseParentNeighbor`
unfoldable pub choose_parent_neighbor : Map String → ℕ → EdgeTunnel → Bool × EdgeTunnel
unfolding choice push
choose_parent_neighbor neighbors now e =
    let b = push e.cloud_addr now e.black_list in
    choice (first_free neighbors b) now (record e { black_list = b })

-- What `Dial` answers in `connect`: a failure, which is also a redirect without a location, with the
-- neighbors and the time after it.
pub data Dialled : Type 0 where
  connected : Dialled
  failed : Map String → ℕ → Dialled
  redirected : String → Dialled

-- A failed `connect` in `reconnect`: back to where it was redirected, or on to a neighbor.
unfoldable pub after_failure : Map String → ℕ → EdgeTunnel → EdgeTunnel
unfolding choose_parent_neighbor
after_failure neighbors now e =
    if e.origin_cloud_addr == ""
    then (choose_parent_neighbor neighbors now e).1
    else record e { cloud_addr = e.origin_cloud_addr; origin_cloud_addr = "" }

unfoldable pub redirect : String → EdgeTunnel → EdgeTunnel
redirect host e = record e { origin_cloud_addr = e.cloud_addr; cloud_addr = host }

unfoldable pub after_connect : EdgeTunnel → EdgeTunnel
after_connect e = record e { black_list = clear }

-- `reconnect` with `connect`, on the answers that there are: whether it is connected.
unfoldable pub reconnect : List Dialled → EdgeTunnel → Bool × EdgeTunnel
unfolding after_failure redirect after_connect
reconnect [] e = (false, e)
reconnect (connected ∷ answers) e = (true, after_connect e)
reconnect (failed neighbors now ∷ answers) e = reconnect answers (after_failure neighbors now e)
reconnect (redirected host ∷ answers) e = reconnect answers (redirect host e)
