-- ===== src/Tests/Tunnels.antt =====
-- A tunnel with the children `a` and `d`, and the controller managers `x` and `z`.
use ote_stack.Prelude.{ℕ, ◌≡◌, refl, false, is_some, none, some, List, [], ◌∷◌, arith}
use ote_stack.Maps.{lookup}
use ote_stack.Message.{cluster_regist}
use ote_stack.Router.{new_router}
use ote_stack.Router.Routes.{route}
use ote_stack.Handler.{handle_later}
use ote_stack.Handler.Up.{handle_message_from_child}
use ote_stack.Handler.Connect.{is_in_parent_pool}
use ote_stack.Tunnel.{
  Tunnel, Cloud, AccessRequest, upgrade_failed, access_handler, connect, disconnect,
  notify_client_closed, find_a_controller,
}
use ote_stack.Tunnel.Session.{
  Event, opened, ended, run, run-InSync, reconnect_forgets, failed_upgrade_registers,
}
use ote_stack.Tunnel.Controllers.{Search, find_a_controller_lem}
use ote_stack.Tests.Codecs.{only-RoundTrips, mute_wire, message_discrete, registry_discrete}
use ote_stack.Tests.Server.{one_slot, Slots}
use ote_stack.Tests.Cluster.{handler, reach, child, hook_message, hook_wire, hook_bytes, state}

abbrev tunnel : Tunnel
tunnel = record {
  clients = ("a", 1) ∷ ("d", 2) ∷ [];
  controllers = ("z", 3) ∷ [];
  controllers_key = "x" ∷ "z" ∷ [];
}

abbrev cloud : Cloud Slots
cloud = record { tunnel = tunnel; state = state }

abbrev empty_cloud : Cloud Slots
empty_cloud = record {
  tunnel = record { clients = []; controllers = []; controllers_key = [] };
  state = record state { router = new_router };
}

abbrev events : List Event
events = opened (child "a") 1 ∷ opened (child "d") 2 ∷ ended (child "a") 9 ∷ []

run-InSync_example :
    let c' = run mute_wire (handler "p") events empty_cloud in
    is_some (lookup "d" c'.tunnel.clients) ≡ is_some (lookup "d" c'.state.router.childs)
unfolding lookup
run-InSync_example = run-InSync mute_wire (handler "p") events empty_cloud (λ j. refl) "d"

reconnect_forgets_example :
    let c' =
      notify_client_closed mute_wire
        (handler "p")
        9
        (child "a")
        (connect mute_wire (child "a") 7 (disconnect mute_wire "a" cloud)) in
    (lookup "a" c'.tunnel.clients ≡ some 7) × (lookup "a" c'.state.router.childs ≡ none)
reconnect_forgets_example =
    reconnect_forgets mute_wire (handler "p") 9 7 (child "a") (child "a") cloud refl

abbrev request : AccessRequest
request = record { cluster = "e"; listen = "10.0.0.3"; user_define_name = "e" }

failed_upgrade_registers_example :
    (access_handler (hook_wire "e" cluster_regist) (handler "p") "" request 5 false cloud
      ≡ (upgrade_failed, record state { effects = handle_later "e" (1 ∷ []) ∷ [] }))
    × (route "e"
          (handle_message_from_child
            (hook_wire "e" cluster_regist)
            one_slot
            reach
            (handler "p")
            9
            "e"
            (1 ∷ [])
            state).1.router
        ≡ some "e")
unfolding lookup is_in_parent_pool
failed_upgrade_registers_example =
    failed_upgrade_registers (hook_wire "e" cluster_regist) one_slot reach (handler "p") request 5 9
      (1 ∷ []) cloud state (only-RoundTrips message_discrete (hook_message cluster_regist) (1 ∷ []))
      (only-RoundTrips registry_discrete (child "e") (2 ∷ [])) (hook_bytes "e" cluster_regist) refl
      refl refl refl refl

-- Always the first entry.
abbrev first : ℕ → ℕ
first n = 0

find_a_controller_lem_example :
    Search first tunnel.controllers
      ("x" ∷ "z" ∷ [])
      []
      (find_a_controller first tunnel.controllers 2 ("x" ∷ "z" ∷ []) [])
find_a_controller_lem_example =
    find_a_controller_lem first tunnel.controllers ("x" ∷ "z" ∷ []) (λ n. omega arith)
