-- ===== src/Handler/Connect/Lifecycle.antt =====
-- From a connection to a route, and from a closed connection to no route.
use ote_stack.Prelude.{
  eq_refl, ℕ, String, ◌≡◌, ap, sym, ◌∙◌, refl, Bool, true, Option, none, some, ◌||◌, holds, false,
  List, [], ◌∷◌, ◌++◌, if◌then◌else◌, arith, Option-cases, inl, inr, ◌==◌,
}
use ote_stack.Message.{
  Bytes, RoundTrips, CommandType, cluster_regist, cluster_unregist, ClusterMessage, ClusterRegistry,
  wrapper_to_cluster_message, serialize, head_of,
}
use ote_stack.Router.{ClusterRouter}
use ote_stack.Router.Routes.{route}
use ote_stack.Crd.{Api}
use ote_stack.Wire.{Wire}
use ote_stack.Handler.{Handler, State, Effect, handle_later, send_to_child}
use ote_stack.Handler.Up.{handle_message_from_child, tell_manager}
use ote_stack.Handler.Up.Dispatch.{
  named_message, dispatched, dispatch-regist, dispatch-unregist, router-tell_manager,
}
use ote_stack.Handler.Up.Registration.{handle_regist_routes, handle_unregist_child}
use ote_stack.Handler.Connect.{registry_bytes, is_in_parent_pool, check_cluster_name, close_child}
use ote_stack.Maps.{lookup}
use ote_stack.Router.Neighbors.{del_child_lem}
use ote_stack.Router.{del_child}

-- A route once the child is gone.
abbrev pub without : String → String → Option String → Option String
without child j old = if child == j || holds child old then none else old

-- What the bytes of a hook say when they are read back.
abbrev ReadsAs : Wire → CommandType → ClusterRegistry → Bytes → Type 0
ReadsAs wire command cr b =
    (body : Bytes) × (wire.message.unmarshal b
      ≡ some (record { head = some (head_of command); body = body }))
    × (wire.registry.unmarshal body ≡ some cr)

registry_bytes-ReadsAs :
    (wire : Wire) (command : CommandType) (cr : ClusterRegistry) (b : Bytes)
    → RoundTrips wire.message
    → RoundTrips wire.registry
    → registry_bytes wire command cr ≡ some b
    → ReadsAs wire command cr b
unfolding registry_bytes wrapper_to_cluster_message serialize
registry_bytes-ReadsAs wire command cr b rm rr e = elim (Option-cases (wire.registry.marshal cr)) [
  | inl no_body ↦ absurd (ground arith)
  | inr (body, has_body) ↦ (
    body,
    rm.read_back (record { head = some (head_of command); body = body }) b (ground arith),
    rr.read_back cr body has_body,
  )
]

module _ (wire : Wire) (api : Api) (reach : Bytes → Bool) (h : Handler) where
  open api use {Server}

  registers :
      (cr : ClusterRegistry) (b : Bytes) (t : State Server)
      → ReadsAs wire cluster_regist cr b
      → (now : ℕ) → ((p : String) → route cr.name t.router ≡ some p → p ≡ cr.name)
      → (j : String)
      → route j (handle_message_from_child wire api reach h now cr.name b t).1.router
        ≡ (if cr.name == j then some cr.name else route j t.router)
  registers cr b t (body, message, registry) now free j =
      let msg = named_message h (head_of cluster_regist) body in
      let told = tell_manager wire api reach h msg t in
      let same = router-tell_manager wire api reach h now cr.name msg t in
      rw
        (dispatched wire api reach h now cr.name b (head_of cluster_regist) body cluster_regist t
          message refl)
        (rw (dispatch-regist wire api reach h now cr.name _ msg t) (
          (handle_regist_routes wire api reach h now cr.name msg cr told registry
              (λ p q. free p (sym (ap (route cr.name) same) ∙ q))).0
            j
          ∙ ap (λ (r : ClusterRouter). if cr.name == j then some cr.name else route j r) same))

  -- Where the codecs of messages and registries round-trip and the child's registration under this
  -- cluster is written as `b`: a connection under a name that is not in the parent's pool is
  -- accepted, with one more effect, to handle `b`. Handling `b` in a state where the name is free,
  -- or routed to itself, makes the route to the child and keeps the other routes.
  pub check_cluster_name_registers :
      (cr : ClusterRegistry) (b : Bytes) (s t : State Server) (now : ℕ)
      → RoundTrips wire.message
      → RoundTrips wire.registry
      → registry_bytes wire cluster_regist (record cr { parent_name = h.conf.cluster_name })
        ≡ some b
      → is_in_parent_pool cr.name s.router ≡ false
      → ((p : String) → route cr.name t.router ≡ some p → p ≡ cr.name)
      → (check_cluster_name wire h cr s
          ≡ (true, record s { effects = s.effects ++ handle_later cr.name b ∷ [] }))
        × ((j : String)
            → route j (handle_message_from_child wire api reach h now cr.name b t).1.router
              ≡ (if cr.name == j then some cr.name else route j t.router))
  unfolding check_cluster_name
  check_cluster_name_registers cr b s t now rm rr made pool free =
      let named = record cr { parent_name = h.conf.cluster_name } in
      (
        ground arith,
        λ j.
            registers named b t (registry_bytes-ReadsAs wire cluster_regist named b rm rr made) now
              free j,
      )

  forgets :
      (cr : ClusterRegistry) (b : Bytes) (t : State Server)
      → ReadsAs wire cluster_unregist cr b
      → (now : ℕ) (j : String)
      → route j (handle_message_from_child wire api reach h now cr.name b t).1.router
        ≡ without cr.name j (route j t.router)
  forgets cr b t (body, message, registry) now j =
      let msg = named_message h (head_of cluster_unregist) body in
      let told = tell_manager wire api reach h msg t in
      rw
        (dispatched wire api reach h now cr.name b (head_of cluster_unregist) body cluster_unregist
          t message refl)
        (rw (dispatch-unregist wire api reach h now cr.name _ msg t) (
          (handle_unregist_child wire api reach h cr.name msg cr told registry refl).0 j
          ∙ ap (λ (r : ClusterRouter). without cr.name j (route j r))
              (router-tell_manager wire api reach h now cr.name msg t)))

  router-send_to_child :
      (note : Option ClusterMessage) (tos : List String) (s : State Server)
      → (send_to_child wire.message note tos s).router ≡ s.router
  unfolding send_to_child
  router-send_to_child none tos s = refl
  router-send_to_child (some msg) tos s = ground arith

  -- Where the codecs of messages and registries round-trip and the child's unregistration under
  -- this cluster is written as `b`: closing takes the child off the list, and its last effect is to
  -- handle `b`. Handling `b`, at any time and in any state, takes away the child's route and every
  -- route through it, and keeps the others.
  pub close_child_forgets :
      (cr : ClusterRegistry) (b : Bytes) (s : State Server)
      → RoundTrips wire.message
      → RoundTrips wire.registry
      → registry_bytes wire cluster_unregist (record cr { parent_name = h.conf.cluster_name })
        ≡ some b
      → (lookup cr.name (close_child wire h cr s).router.childs ≡ none)
        × ((es : List Effect) × ((close_child wire h cr s).effects
              ≡ es ++ handle_later cr.name b ∷ []))
        × ((now : ℕ) (t : State Server) (j : String)
            → route j (handle_message_from_child wire api reach h now cr.name b t).1.router
              ≡ without cr.name j (route j t.router))
  unfolding close_child
  close_child_forgets cr b s rm rr made =
      let named = record cr { parent_name = h.conf.cluster_name } in
      let (r, note) = del_child wire.neighbors cr.name s.router in
      let kept = router-send_to_child note [] (record s { router = r }) in
      (
        rw (made, close_child)
            (ap (λ (q : ClusterRouter). lookup cr.name q.childs) kept
              ∙ (del_child_lem wire.neighbors cr.name s.router).0 cr.name
              ∙ ground (arith, eq_refl cr.name)),
        (
          (send_to_child wire.message note [] (record s { router = r })).effects,
          rw (made, close_child),
        ),
        λ now t j.
            forgets named b t (registry_bytes-ReadsAs wire cluster_unregist named b rm rr made) now
              j,
      )
