-- ===== src/Handler/Up/Registration.antt =====
-- Registering and unregistering: what a refusal leaves, and what the routes are afterwards.
use ote_stack.Prelude.{
  ℕ, String, ◌≡◌, ◌≢◌, refl, Bool, some, [], ◌∷◌, ◌++◌, ◌||◌, none, holds, arith, eq_iff, eq_refl,
  if◌then◌else◌, ◌==◌, Result, ok, err, duplicated_name,
}
use ote_stack.Message.{Bytes, ClusterMessage, ClusterRegistry}
use ote_stack.Crd.{Api, Cluster, Cluster}
use ote_stack.Router.{ClusterRouter, add_route, del_route}
use ote_stack.Router.Routes.{route, AddRouteResult, add_route_lem, lookup-del_route}
use ote_stack.Wire.{Wire}
use ote_stack.Handler.{Handler, State, to_parent, is_root, transmit_to_parent}
use ote_stack.Handler.Up.{
  cluster_of, create_or_update_cluster, handle_regist, handle_unregist, go_offline,
}

-- A free name, or one that the child has already, is accepted.
add_route_accepts :
    (to port : String) (r : ClusterRouter)
    → ((p : String) → route to r ≡ some p → p ≡ port)
    → (r' : ClusterRouter) × (add_route to port r ≡ ok r')
      × ((j : String) → route j r' ≡ (if to == j then some port else route j r))
add_route_accepts to port r free = go (add_route to port r) refl (add_route_lem to port r)
  where
    go :
        (x : Result ClusterRouter)
        → add_route to port r ≡ x
        → AddRouteResult to port r x
        → (r' : ClusterRouter) × (add_route to port r ≡ ok r')
          × ((j : String) → route j r' ≡ (if to == j then some port else route j r))
    go (ok r') e lem = (r', e, lem.1)
    go (err f) e lem = let (old, held, ne) = lem.1 in absurd (ne (free old held))

module _ (wire : Wire) (api : Api) (reach : Bytes → Bool) (h : Handler) where
  open api use {Server}

  create_or_update-router :
      (now : ℕ) (c : Cluster) (s : State Server)
      → (create_or_update_cluster wire api reach now c s).1.router ≡ s.router
  unfolding create_or_update_cluster
  create_or_update-router now c s = ground arith

  create_or_update-effects :
      (now : ℕ) (c : Cluster) (s : State Server)
      → (create_or_update_cluster wire api reach now c s).1.effects ≡ s.effects
  unfolding create_or_update_cluster
  create_or_update-effects now c s = ground arith

  -- A readable registration of a name that another child already reaches is refused, and nothing is
  -- changed or sent.
  handle_regist_duplicate :
      (now : ℕ) (client : String) (msg : ClusterMessage) (cr : ClusterRegistry) (old : String)
      (s : State Server)
      → wire.registry.unmarshal msg.body ≡ some cr
      → route cr.name s.router ≡ some old
      → old ≢ client
      → handle_regist wire api reach h now client msg s ≡ (err duplicated_name, s)
  unfolding handle_regist add_route
  handle_regist_duplicate now client msg cr old s e found other = ground (arith, eq_iff client old)

  regist_step :
      (now : ℕ) (client : String) (msg : ClusterMessage) (cr : ClusterRegistry) (r' : ClusterRouter)
      (s : State Server)
      → wire.registry.unmarshal msg.body ≡ some cr
      → add_route cr.name client s.router ≡ ok r'
      → handle_regist wire api reach h now client msg s ≡ (
          if is_root h
          then create_or_update_cluster wire api reach now
              (cluster_of cr)
              (record s { router = r' })
          else (ok tt, transmit_to_parent msg (record s { router = r' })))
  unfolding handle_regist
  regist_step now client msg cr r' s e added = ground arith

  -- A readable registration of a name that is free, or that this child has already, makes the route
  -- to it by the child and keeps the other routes. Below the root the message goes to the parent
  -- and the apiserver stays; the root sends nothing on.
  pub handle_regist_routes :
      (now : ℕ) (client : String) (msg : ClusterMessage) (cr : ClusterRegistry) (s : State Server)
      → wire.registry.unmarshal msg.body ≡ some cr
      → ((p : String) → route cr.name s.router ≡ some p → p ≡ client)
      → let s' = (handle_regist wire api reach h now client msg s).1 in
        ((j : String)
          → route j s'.router ≡ (if cr.name == j then some client else route j s.router))
        × (s'.effects ≡ (if is_root h then s.effects else s.effects ++ to_parent msg ∷ []))
        × (s'.server ≡ (if is_root h then s'.server else s.server))
  unfolding transmit_to_parent
  handle_regist_routes now client msg cr s e free =
      let (r', added, routes) = add_route_accepts cr.name client s.router free in
      let s₁ : State Server = record s { router = r' } in
      let step = regist_step now client msg cr r' s e added in
      (
        λ j. ground (arith, step, routes j, create_or_update-router now (cluster_of cr) s₁),
        ground (arith, step, create_or_update-effects now (cluster_of cr) s₁),
        ground (arith, step),
      )

  go_offline-router :
      (cr : ClusterRegistry) (s : State Server)
      → (go_offline wire api reach cr s).1.router ≡ s.router
  unfolding go_offline
  go_offline-router cr s = ground arith

  go_offline-effects :
      (cr : ClusterRegistry) (s : State Server)
      → (go_offline wire api reach cr s).1.effects ≡ s.effects
  unfolding go_offline
  go_offline-effects cr s = ground arith

  unregist_step :
      (client : String) (msg : ClusterMessage) (cr : ClusterRegistry) (s : State Server)
      → wire.registry.unmarshal msg.body ≡ some cr
      → handle_unregist wire api reach h client msg s ≡ (
          let s₁ : State Server = record s { router = del_route cr.name client s.router } in
          if is_root h then go_offline wire api reach cr s₁ else (ok tt, transmit_to_parent msg s₁))
  unfolding handle_unregist
  unregist_step client msg cr s e = ground arith

  -- A readable unregistration of the child that sends it takes away the child's route and every
  -- route by the child, and keeps the others. Below the root the message goes to the parent; the
  -- root sends nothing on.
  pub handle_unregist_child :
      (client : String) (msg : ClusterMessage) (cr : ClusterRegistry) (s : State Server)
      → wire.registry.unmarshal msg.body ≡ some cr
      → cr.name ≡ client
      → let s' = (handle_unregist wire api reach h client msg s).1 in
        ((j : String)
          → route j s'.router
            ≡ (if client == j || holds client (route j s.router) then none else route j s.router))
        × (s'.effects ≡ (if is_root h then s.effects else s.effects ++ to_parent msg ∷ []))
  unfolding transmit_to_parent
  handle_unregist_child client msg cr s e own =
      let s₁ : State Server = record s { router = del_route cr.name client s.router } in
      let step = unregist_step client msg cr s e in
      let gone = go_offline-router cr s₁ in
      (
        λ j. ground (
          arith,
          step,
          gone,
          lookup-del_route cr.name client j s.router,
          eq_iff cr.name client,
          eq_refl client,
        ),
        ground (arith, step, go_offline-effects cr s₁),
      )
