-- ===== src/Tests/Servers.antt =====
-- A load balancer with three backends, of which `b:443` answers.
use ote_stack.Prelude.{String, ◌≡◌, refl, Bool, true, false, [], ◌∷◌, ◌==◌, ok}
use ote_stack.Maps.{lookup}
use ote_stack.Balancer.{LoadBalancer, get_available_backend, get_health_status}
use ote_stack.Balancer.Turns.{At}
use ote_stack.Balancer.Backend.{usable, get_available_backend_found}

abbrev balancer : LoadBalancer
balancer = record {
  server_health_status = ("a:443", true) ∷ ("b:443", true) ∷ [];
  original_server_address = "a:443";
  next_server_index = 1;
  current_server_address = "a:443";
  server_addresses = "a:443" ∷ "b:443" ∷ "c:443" ∷ [];
  random_servers = "a:443" ∷ "c:443" ∷ "b:443" ∷ [];
  remote_enable = false;
  signals = [];
}

abbrev dial : String → Bool
dial addr = addr == "b:443"

At-first : At 0 balancer
At-first = record { here = refl; next = refl }

get_available_backend_found_example :
    (t : String) × ((get_available_backend dial balancer).0 ≡ ok t)
    × (usable dial t balancer ≡ true)
unfolding get_health_status lookup
get_available_backend_found_example =
    get_available_backend_found dial 0 2 balancer "b:443" At-first refl refl
