-- ===== src/Tunnel/Session.antt =====
-- The tunnel's connections against the router's children and routes.
use ote_stack.Prelude.{
  ℕ, String, ◌≡◌, refl, ◌∙◌, Bool, false, not, ◌&&◌, Option, none, some, List, [], ◌∷◌, ◌++◌,
  if◌then◌else◌, ◌==◌, eq_iff, eq_refl, is_some, arith,
}
use ote_stack.Maps.{lookup, insert, erase, lookup-insert, lookup-erase}
use ote_stack.Message.{Bytes, RoundTrips, ClusterRegistry, ClusterMessage, cluster_regist}
use ote_stack.Router.{ClusterRouter, add_child, del_child, neighbor_router_message}
use ote_stack.Router.Routes.{route}
use ote_stack.Router.Neighbors.{del_child_lem}
use ote_stack.Crd.{Api}
use ote_stack.Wire.{Wire}
use ote_stack.Handler.{Handler, State, handle_later, send_to_child}
use ote_stack.Handler.Up.{handle_message_from_child}
use ote_stack.Handler.Connect.{
  registry_bytes, is_in_parent_pool, after_cluster_connect, close_child,
}
use ote_stack.Handler.Connect.Lifecycle.{check_cluster_name_registers}
use ote_stack.Tunnel.{
  Cloud, AccessRequest, upgrade_failed, registry_of, access_handler, connect, disconnect,
  notify_client_closed,
}

-- What happens to the children's connections, where the end of each is notified at once.
pub data Event : Type 0 where
  opened : ClusterRegistry → ℕ → Event
  ended : ClusterRegistry → ℕ → Event

module _ (wire : Wire) {Server : Type 0} where
  router-send_to_child :
      (note : Option ClusterMessage) (tos : List String) (s : State Server)
      → (send_to_child wire.message note tos s).router ≡ s.router
  unfolding send_to_child
  router-send_to_child none tos s = refl
  router-send_to_child (some msg) tos s = ground arith

  childs-after_cluster_connect :
      (cr : ClusterRegistry) (s : State Server) (j : String)
      → lookup j (after_cluster_connect wire cr s).router.childs ≡ (
          if cr.name == j && not (is_some (lookup cr.name s.router.childs))
          then some cr.listen
          else lookup j s.router.childs)
  unfolding after_cluster_connect add_child
  childs-after_cluster_connect cr s j =
      let added : ClusterRouter = record (s.router) {
        childs = insert cr.name cr.listen s.router.childs;
      } in
      ground (
        arith,
        router-send_to_child (neighbor_router_message wire.neighbors added) []
            (record s { router = added }),
        lookup-insert cr.name j cr.listen s.router.childs,
        eq_iff cr.name j,
      )

  childs-close_child :
      (h : Handler) (cr : ClusterRegistry) (s : State Server) (j : String)
      → lookup j (close_child wire h cr s).router.childs
        ≡ (if cr.name == j then none else lookup j s.router.childs)
  unfolding close_child
  childs-close_child h cr s j =
      let named = record cr { parent_name = h.conf.cluster_name } in
      let (r, note) = del_child wire.neighbors cr.name s.router in
      let s₁ : State Server = record s { router = r } in
      ground (
        arith,
        router-send_to_child note [] s₁,
        (del_child_lem wire.neighbors cr.name s.router).0 j,
      )

  -- The connected clients are the children of the router.
  abbrev pub InSync : Cloud Server → Type 0
  InSync c =
      (j : String) → is_some (lookup j c.tunnel.clients) ≡ is_some (lookup j c.state.router.childs)

  connect-InSync :
      (cr : ClusterRegistry) (conn : ℕ) (c : Cloud Server)
      → InSync c
      → InSync (connect wire cr conn c)
  unfolding connect
  connect-InSync cr conn c sync j = ground (
    arith,
    lookup-insert cr.name j conn c.tunnel.clients,
    childs-after_cluster_connect cr c.state j,
    sync j,
    sync cr.name,
    eq_iff cr.name j,
  )

  close-InSync :
      (h : Handler) (now : ℕ) (cr : ClusterRegistry) (c : Cloud Server)
      → InSync c
      → InSync (notify_client_closed wire h now cr (disconnect wire cr.name c))
  unfolding notify_client_closed disconnect
  close-InSync h now cr c sync j = ground (
    arith,
    lookup-erase cr.name j c.tunnel.clients,
    childs-close_child h (record cr { time = now }) c.state j,
    sync j,
  )

  -- The cloud after one event, and after some.
  pub happen : Handler → Event → Cloud Server → Cloud Server
  happen h (opened cr conn) c = connect wire cr conn c
  happen h (ended cr now) c = notify_client_closed wire h now cr (disconnect wire cr.name c)

  pub run : Handler → List Event → Cloud Server → Cloud Server
  unfolding happen
  run h [] c = c
  run h (e ∷ es) c = run h es (happen h e c)

  happen-InSync : (h : Handler) (e : Event) (c : Cloud Server) → InSync c → InSync (happen h e c)
  unfolding happen
  happen-InSync h (opened cr conn) c sync = connect-InSync cr conn c sync
  happen-InSync h (ended cr now) c sync = close-InSync h now cr c sync

  -- If the end of every connection is notified at once, then after any connections and ends, by any
  -- names and as often as one likes, the connected clients are still exactly the router's children.
  pub run-InSync :
      (h : Handler) (es : List Event) (c : Cloud Server) → InSync c → InSync (run h es c)
  unfolding run
  run-InSync h [] c sync = sync
  run-InSync h (e ∷ es) c sync = run-InSync h es (happen h e c) (happen-InSync h e c sync)

  -- If a client connects again before the end of its first connection is notified, the notification
  -- takes away the child of the new connection: the client is connected and not a child.
  pub reconnect_forgets :
      (h : Handler) (now conn : ℕ) (cr cr' : ClusterRegistry) (c : Cloud Server)
      → cr'.name ≡ cr.name
      → let c' =
          notify_client_closed wire h now cr (connect wire cr' conn (disconnect wire cr.name c)) in
        (lookup cr.name c'.tunnel.clients ≡ some conn)
        × (lookup cr.name c'.state.router.childs ≡ none)
  unfolding notify_client_closed disconnect connect
  reconnect_forgets h now conn cr cr' c same = (
    ground (
      arith,
      lookup-erase cr.name cr.name c.tunnel.clients,
      lookup-erase cr.name cr'.name c.tunnel.clients,
      lookup-insert cr'.name cr.name conn (erase cr.name c.tunnel.clients),
      eq_iff cr'.name cr.name,
      eq_refl cr.name,
    ),
    childs-close_child h (record cr { time = now })
          ((connect wire cr' conn (disconnect wire cr.name c)).state) cr.name
        ∙ ground (arith, eq_refl cr.name),
  )

module _ (wire : Wire) (api : Api) (reach : Bytes → Bool) (h : Handler) where
  -- Where the codecs of messages and registries round-trip and the child's registration is written
  -- as `b`: a request for a free name that is in order, but whose upgrade then fails, leaves the
  -- name without a connection and yet causes the registration, which makes the route to it.
  pub failed_upgrade_registers :
      (q : AccessRequest) (now later : ℕ) (b : Bytes) (c : Cloud api.Server) (t : State api.Server)
      → RoundTrips wire.message
      → RoundTrips wire.registry
      → registry_bytes wire cluster_regist
          (record (registry_of q now) { parent_name = h.conf.cluster_name })
        ≡ some b
      → (q.listen == "") ≡ false
      → (q.user_define_name == "") ≡ false
      → lookup q.cluster c.tunnel.clients ≡ none
      → is_in_parent_pool q.cluster c.state.router ≡ false
      → route q.cluster t.router ≡ none
      → (access_handler wire h "" q now false c ≡ (
        upgrade_failed,
        record (c.state) { effects = c.state.effects ++ handle_later q.cluster b ∷ [] },
      ))
        × (route q.cluster (handle_message_from_child wire api reach h later q.cluster b t).1.router
            ≡ some q.cluster)
  unfolding access_handler
  failed_upgrade_registers q now later b c t rm rr made listen name free pool unrouted =
      let (checked, routes) =
        check_cluster_name_registers wire api reach h (registry_of q now) b c.state t later rm rr
          made pool (λ p e. absurd (ground arith)) in
      (ground (arith, checked), routes q.cluster ∙ ground (arith, eq_refl q.cluster))
