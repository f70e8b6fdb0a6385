-- ===== src/Balancer.antt =====
-- pkg/loadbalancer: the list of backends, the turns through it, and the health of each.
-- `rand.Shuffle` and `net.DialTimeout` are parameters: `shuffle` reorders a list, and `dial addr`
-- says whether a connection to the address is made during the call.
pub mod Servers
pub mod Turns
pub mod Backend
pub mod Health
use mathlib.Core.List
use ote_stack.Prelude.{
  ℕ, zero, suc, ◌+◌, ◌≡◌, ◌-◌, String, Bool, true, false, not, ◌&&◌, ◌||◌, Option, none, some, List,
  [], ◌∷◌, ◌++◌, Result, ok, err, no_servers, all_failed, if◌then◌else◌, ◌==◌, leb, nat_eq, elem,
  length, get_elem?, is_empty,
}
use Prim.Native.String.{compare}
use text.Mathlib.Text.{is_le}
use ote_stack.Maps.{Map, lookup, insert}

-- `LoadBalancer` without its mutex, configuration and connections. `signals` is what was put on
-- `HealthChan`.
pub record LoadBalancer : Type 0 where
  pub server_health_status : Map Bool
  pub original_server_address : String
  pub next_server_index : ℕ
  pub current_server_address : String
  pub server_addresses : List String
  pub random_servers : List String
  pub remote_enable : Bool
  pub signals : List Bool

-- `sort.Strings`, by insertion.
insert_sorted : String → List String → List String
insert_sorted s [] = s ∷ []
insert_sorted s (t ∷ ts) = if is_le (compare s t) then s ∷ t ∷ ts else t ∷ insert_sorted s ts

sort_strings : List String → List String
unfolding insert_sorted
sort_strings [] = []
sort_strings (s ∷ ss) = insert_sorted s (sort_strings ss)

-- The loop of `sortServers`: `skip` has the entries to pass over. The result and `found`.
pick : List String → String → List String → List String × Bool
pick skip search [] = ([], false)
pick skip search (entry ∷ rest) =
    let later = pick (entry ∷ skip) search rest in
    if elem entry skip then pick skip search rest else (entry ∷ later.0, search == entry || later.1)

-- `sortServers`; the empty entry is skipped from the start.
unfoldable pub sort_servers : List String → String → List String × Bool
unfolding sort_strings pick
sort_servers input search =
    let (picked, found) = pick ("" ∷ []) search input in (sort_strings picked, found)

list_eq : List String → List String → Bool
list_eq [] [] = true
list_eq [] (t ∷ ts) = false
list_eq (s ∷ ss) [] = false
list_eq (s ∷ ss) (t ∷ ts) = s == t && list_eq ss ts

head_or_empty : List String → String
head_or_empty [] = ""
head_or_empty (s ∷ ss) = s

-- `setServers`; the Boolean says whether the list changed. The first of an empty list would panic,
-- but what is sorted here is not empty.
unfoldable pub set_servers :
    (List String → List String) → List String → LoadBalancer → LoadBalancer × Bool
unfolding list_eq head_or_empty
set_servers shuffle addresses lb =
    let (sorted, has_original) = sort_servers addresses lb.original_server_address in
    let random =
      if has_original then shuffle sorted else shuffle sorted ++ lb.original_server_address ∷ [] in
    if is_empty sorted || list_eq sorted lb.server_addresses then (lb, false) else (
      record lb {
        server_addresses = sorted;
        random_servers = random;
        current_server_address = head_or_empty random;
        next_server_index = 1;
      },
      true,
    )

or_current : LoadBalancer → Option String → String
or_current lb none = ""
or_current lb (some s) = s

-- The last lines of `nextServer`: the next index in the round, and the server there.
unfoldable pub turned : LoadBalancer → LoadBalancer
unfolding or_current
turned lb =
    let index =
      if leb (length lb.random_servers) lb.next_server_index then 0 else lb.next_server_index in
    record lb {
      current_server_address = or_current lb (get_elem? lb.random_servers index);
      next_server_index = index + 1;
    }

-- `nextServer`
unfoldable pub next_server : String → LoadBalancer → Result String × LoadBalancer
next_server failed_server lb =
    let n = length lb.random_servers in
    if nat_eq n 0
    then (err no_servers, lb)
    else if nat_eq n 1
    then (ok lb.current_server_address, lb)
    else if not (failed_server == lb.current_server_address)
    then (ok lb.current_server_address, lb)
    else (ok (turned lb).current_server_address, turned lb)

-- `getHealthStatus`: an unknown server is not healthy.
unfoldable pub get_health_status : String → LoadBalancer → Bool
get_health_status addr lb = elim (lookup addr lb.server_health_status) [
  | none ↦ false
  | some status ↦ status
]

-- `setHealthStatus`
unfoldable pub set_health_status : String → Bool → LoadBalancer → LoadBalancer
set_health_status addr status lb = record lb {
  server_health_status = insert addr status lb.server_health_status;
}

-- `sendSignalToSyncer`, with `RemoteReady` as `true`: only a change is signalled.
unfoldable pub send_signal : Bool → LoadBalancer → LoadBalancer
send_signal ready lb =
    if ready
    then (if lb.remote_enable
        then lb
        else record lb { remote_enable = true; signals = lb.signals ++ true ∷ [] })
    else (if lb.remote_enable
        then record lb { remote_enable = false; signals = lb.signals ++ false ∷ [] }
        else lb)

module _ (dial : String → Bool) where
  -- The loop of `getAvailableBackend`, by the tries that are left.
  unfoldable pub try_backends : ℕ → LoadBalancer → Result String × LoadBalancer
  try_backends zero lb = (err all_failed, lb)
  try_backends (suc tries) lb =
      let target = lb.current_server_address in
      elim (get_health_status target lb && dial target) [
        | true ↦ (ok target, (next_server target lb).1)
        | false ↦ elim (next_server target lb).0 [
          | err e ↦ (err e, (next_server target lb).1)
          | ok s ↦ try_backends tries (next_server target lb).1
        ]
      ]

  -- `getAvailableBackend`: as many tries as there are servers.
  unfoldable pub get_available_backend : LoadBalancer → Result String × LoadBalancer
  unfolding try_backends
  get_available_backend lb = try_backends (length lb.random_servers) lb

  -- The loop of `healthCheck`; the Boolean is `isRemoteHealth`.
  check_servers : List String → Bool → LoadBalancer → Bool × LoadBalancer
  check_servers [] healthy lb = (healthy, lb)
  check_servers (addr ∷ rest) healthy lb =
      check_servers rest (dial addr || healthy) (set_health_status addr (dial addr) lb)

  -- `healthCheck`
  unfoldable pub health_check : LoadBalancer → LoadBalancer
  unfolding check_servers send_signal
  health_check lb =
      let (healthy, lb') = check_servers lb.random_servers false lb in send_signal healthy lb'
