-- ===== src/Edge/Report.antt =====
-- A child's report of its subtree, and the parent's routes after it.
use ote_stack.Prelude.{
  ℕ, String, ◌≡◌, ap, ◌∙◌, refl, Bool, some, [], ◌∷◌, arith, Option-cases, inl, inr,
}
use ote_stack.Message.{Bytes, subtree_route, MessageHead, RoundTrips, head_of}
use ote_stack.Router.{ClusterRouter, subtree_message}
use ote_stack.Router.Routes.{route}
use ote_stack.Crd.{Api}
use ote_stack.Wire.{Wire}
use ote_stack.Handler.{Config, Handler, State}
use ote_stack.Handler.Up.{update_routes, handle_message_from_child}
use ote_stack.Handler.Up.Dispatch.{
  named_message, dispatched, dispatch-subtree, router-update, cluster_name-named_head,
}
use ote_stack.Handler.Up.Subtree.{reported, route-update_routes}
use ote_stack.Edge.{Shim, to_tunnel, report_subtree}

module _ (wire : Wire) (shim : Shim) (room : Bytes → Bool) (c : Config) where
  abbrev report_head : MessageHead
  report_head = record (head_of subtree_route) { cluster_name = c.cluster_name }

  report_bytes :
      (r : ClusterRouter) (b : Bytes)
      → RoundTrips wire.message
      → RoundTrips wire.subtree
      → (report_subtree wire shim room c r).1 ≡ to_tunnel b ∷ []
      → (body : Bytes) × (wire.message.unmarshal b
          ≡ some (record { head = some report_head; body = body }))
        × (wire.subtree.unmarshal body ≡ some r.subtree_router)
  unfolding report_subtree subtree_message
  report_bytes r b rm rs e = elim (Option-cases (wire.subtree.marshal r.subtree_router)) [
    | inl no_body ↦ absurd (ground arith)
    | inr (body, has_body) ↦ (
      body,
      rm.read_back (record { head = some report_head; body = body }) b (ground (arith, has_body)),
      rs.read_back _ body has_body,
    )
  ]

  -- Where the codecs of messages and subtrees round-trip and the child's report gets to its channel
  -- as the bytes `b`: once the parent has handled `b`, in any state and as coming from any client,
  -- each of its routes is what `reported` makes of the old one, by the child's table and name.
  pub report_subtree_synchronizes :
      (api : Api) (reach : Bytes → Bool) (h : Handler) (now : ℕ) (client : String)
      (r : ClusterRouter) (b : Bytes) (t : State api.Server)
      → RoundTrips wire.message
      → RoundTrips wire.subtree
      → (report_subtree wire shim room c r).1 ≡ to_tunnel b ∷ []
      → (j : String)
      → route j (handle_message_from_child wire api reach h now client b t).1.router
        ≡ reported r.subtree_router c.cluster_name j (route j t.router)
  report_subtree_synchronizes api reach h now client r b t rm rs e j =
      let (body, message, subtrees) = report_bytes r b rm rs e in
      rw (dispatched wire api reach h now client b report_head body subtree_route t message refl) (
        rw (dispatch-subtree wire api reach h now client _ (named_message h report_head body) t) (
          ap (route j) (
            router-update wire api reach h now client _ (named_message h report_head body)
              r.subtree_router t subtrees)
          ∙ ap (λ (n : String). route j (update_routes r.subtree_router n t.router))
              (cluster_name-named_head wire api reach h now client report_head)
          ∙ route-update_routes r.subtree_router c.cluster_name j t.router))
