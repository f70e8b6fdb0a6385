-- ===== src/Handler/Up/Dispatch.antt =====
-- Which handler a message from a child reaches.
use ote_stack.Prelude.{◌≡◌, refl, ◌∙◌, ap, String, ℕ, Bool, some, arith}
use ote_stack.Message.{
  Bytes, ClusterMessage, MessageHead, CommandType, cluster_regist, cluster_unregist, subtree_route,
}
use ote_stack.Maps.{Map}
use ote_stack.Router.{subtree_from_message}
use ote_stack.Crd.{Api}
use ote_stack.Wire.{Wire}
use ote_stack.Handler.{Handler, State, send_to_controller_manager}
use ote_stack.Handler.Down.{named_head, command-named_head}
use ote_stack.Handler.Up.{
  update_routes, handle_regist, handle_unregist, tell_manager, update_route_to_subtree, dispatch,
  handle_message_from_child,
}

-- The bytes read as a message with this head and this body.
abbrev pub Carries : Wire → Bytes → MessageHead → Bytes → Type 0
Carries wire data' head body =
    wire.message.unmarshal data' ≡ some (record { head = some head; body = body })

-- The message as the handlers see it.
abbrev pub named_message : Handler → MessageHead → Bytes → ClusterMessage
named_message h head body = record { head = some (named_head h head); body = body }

module _ (wire : Wire) (api : Api) (reach : Bytes → Bool) (h : Handler) (now : ℕ)
    (client : String) where
  pub dispatched :
      (data' : Bytes) (head : MessageHead) (body : Bytes) (c : CommandType) (s : State api.Server)
      → Carries wire data' head body
      → head.command ≡ c
      → handle_message_from_child wire api reach h now client data' s
        ≡ dispatch wire api reach h now client c (named_head h head) (named_message h head body) s
  unfolding handle_message_from_child
  dispatched data' head body c s carries e =
      rw (carries, handle_message_from_child)
        (ap
          (λ k.
            dispatch wire api reach h now client k (named_head h head) (named_message h head body)
              s)
          (command-named_head h head ∙ e))

  pub dispatch-regist :
      (head : MessageHead) (msg : ClusterMessage) (s : State api.Server)
      → dispatch wire api reach h now client cluster_regist head msg s
        ≡ handle_regist wire api reach h now client msg (tell_manager wire api reach h msg s)
  unfolding dispatch
  dispatch-regist head msg s = refl

  pub dispatch-unregist :
      (head : MessageHead) (msg : ClusterMessage) (s : State api.Server)
      → dispatch wire api reach h now client cluster_unregist head msg s
        ≡ handle_unregist wire api reach h client msg (tell_manager wire api reach h msg s)
  unfolding dispatch
  dispatch-unregist head msg s = refl

  pub dispatch-subtree :
      (head : MessageHead) (msg : ClusterMessage) (s : State api.Server)
      → (dispatch wire api reach h now client subtree_route head msg s).1
        ≡ update_route_to_subtree wire api reach head msg s
  unfolding dispatch
  dispatch-subtree head msg s = refl

  router-send :
      (msg : ClusterMessage) (s : State api.Server)
      → (send_to_controller_manager wire.message reach msg s).1.router ≡ s.router
  unfolding send_to_controller_manager
  router-send msg s = ground arith

  pub router-tell_manager :
      (msg : ClusterMessage) (s : State api.Server)
      → (tell_manager wire api reach h msg s).router ≡ s.router
  unfolding tell_manager
  router-tell_manager msg s = ground (arith, router-send msg s)

  pub cluster_name-named_head :
      (head : MessageHead) → (named_head h head).cluster_name ≡ head.cluster_name
  unfolding named_head
  cluster_name-named_head head = ground arith

  -- A report that can be read updates the routes under the name in its head.
  pub router-update :
      (head : MessageHead) (msg : ClusterMessage) (m : Map String) (s : State api.Server)
      → wire.subtree.unmarshal msg.body ≡ some m
      → (update_route_to_subtree wire api reach head msg s).router
        ≡ update_routes m head.cluster_name s.router
  unfolding update_route_to_subtree subtree_from_message
  router-update head msg m s e = ground arith
