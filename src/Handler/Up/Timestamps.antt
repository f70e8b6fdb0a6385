-- ===== src/Handler/Up/Timestamps.antt =====
-- Whatever a child sends, no stored cluster is lost and no timestamp goes back at the apiserver.
use ote_stack.Prelude.{
  ℕ, String, ◌≡◌, Bool, arith, Result, ok, err, if◌then◌else◌, inl, inr, Option-cases, Bool-cases,
}
use ote_stack.Message.{
  Bytes, ClusterMessage, MessageHead, ClusterRegistry, CommandType, cluster_regist,
  cluster_unregist, control_resp, subtree_route,
}
use ote_stack.Router.{ClusterRouter, add_route, del_route}
use ote_stack.Crd.{Api, Cluster, cluster_namespace}
use ote_stack.Crd.Clock.{Reliable, NotBefore, update_status-NotBefore}
use ote_stack.Wire.{Wire}
use ote_stack.Handler.{Handler, State, is_root, transmit_to_parent, send_to_controller_manager}
use ote_stack.Handler.Up.{
  create_or_update_cluster, go_offline, cluster_of, handle_regist, handle_unregist,
  merge_to_apiserver, respond, report, tell_manager, dispatch, handle_message_from_child,
  update_route_to_subtree,
}

module _ (wire : Wire) (api : Api) (reach : Bytes → Bool) (r : Reliable api) (ns n : String)
    (k : ℕ) where
  open api use {Server, get_cluster}

  -- The cluster is stored, with a timestamp of at least `k`.
  abbrev Kept : State Server → Type 0
  Kept s = NotBefore k (get_cluster ns n s.server)

  create-Kept :
      (c : Cluster) (t : Server)
      → NotBefore k (get_cluster ns n t)
      → NotBefore k (get_cluster ns n (api.create_cluster c t))
  create-Kept c t h = elim (Option-cases (get_cluster ns n t)) [
    | inl e ↦ absurd (rw e at h)
    | inr (x, e) ↦ rw (r.get-create c x t ns n e) (rw e at h)
  ]

  create_or_update-Kept :
      (now : ℕ) (c : Cluster) (s : State Server)
      → Kept s
      → Kept (create_or_update_cluster wire api reach now c s).1
  unfolding create_or_update_cluster
  create_or_update-Kept now c s h = elim (Option-cases (get_cluster c.namespace c.name s.server)) [
    | inl e ↦ rw (e, create_or_update_cluster) (create-Kept _ s.server h)
    | inr (old, e) ↦
        rw (e, create_or_update_cluster) (update_status-NotBefore api r _ ns n k s.server h)
  ]

  go_offline-Kept :
      (cr : ClusterRegistry) (s : State Server) → Kept s → Kept (go_offline wire api reach cr s).1
  unfolding go_offline
  go_offline-Kept cr s h = elim (Option-cases (get_cluster cluster_namespace cr.name s.server)) [
    | inl e ↦ rw (e, go_offline) h
    | inr (old, e) ↦ rw (e, go_offline) (update_status-NotBefore api r _ ns n k s.server h)
  ]

  -- What a registration does with the result of `add_route`.
  abbrev registered :
      Handler
      → ℕ
      → ClusterRegistry
      → ClusterMessage
      → State Server
      → Result ClusterRouter
      → Result (Unit {0}) × State Server
  registered h now cr msg s (err e) = (err e, s)
  registered h now cr msg s (ok r') =
      let s' : State Server = record s { router = r' } in
      if is_root h
      then create_or_update_cluster wire api reach now (cluster_of cr) s'
      else (ok tt, transmit_to_parent msg s')

  registered-Kept :
      (h : Handler) (now : ℕ) (cr : ClusterRegistry) (msg : ClusterMessage) (s : State Server)
      (x : Result ClusterRouter)
      → Kept s
      → Kept (registered h now cr msg s x).1
  unfolding transmit_to_parent
  registered-Kept h now cr msg s (err e) kept = kept
  registered-Kept h now cr msg s (ok r') kept = elim (Bool-cases (is_root h)) [
    | inl root ↦ rw root (create_or_update-Kept now (cluster_of cr) (record s { router = r' }) kept)
    | inr below ↦ rw below kept
  ]

  handle_regist-Kept :
      (h : Handler) (now : ℕ) (client : String) (msg : ClusterMessage) (s : State Server)
      → Kept s
      → Kept (handle_regist wire api reach h now client msg s).1
  unfolding handle_regist
  handle_regist-Kept h now client msg s kept =
      elim (Option-cases (wire.registry.unmarshal msg.body)) [
        | inl e ↦ rw (e, handle_regist) kept
        | inr (cr, e) ↦
            rw (e, handle_regist)
              (registered-Kept h now cr msg s (add_route cr.name client s.router) kept)
      ]

  handle_unregist-Kept :
      (h : Handler) (client : String) (msg : ClusterMessage) (s : State Server)
      → Kept s
      → Kept (handle_unregist wire api reach h client msg s).1
  unfolding handle_unregist transmit_to_parent
  handle_unregist-Kept h client msg s kept =
      elim (Option-cases (wire.registry.unmarshal msg.body)) [
        | inl e ↦ rw (e, handle_unregist) kept
        | inr (cr, e) ↦ elim (Bool-cases (is_root h)) [
          | inl root ↦
              rw (e, handle_unregist)
                (rw root (
                  go_offline-Kept cr (record s { router = del_route cr.name client s.router })
                    kept))
          | inr below ↦ rw (e, handle_unregist) (rw below kept)
        ]
      ]

  server-send :
      (msg : ClusterMessage) (s : State Server)
      → (send_to_controller_manager wire.message reach msg s).1.server ≡ s.server
  unfolding send_to_controller_manager
  server-send msg s = ground arith

  server-tell_manager :
      (h : Handler) (msg : ClusterMessage) (s : State Server)
      → (tell_manager wire api reach h msg s).server ≡ s.server
  unfolding tell_manager
  server-tell_manager h msg s = ground (arith, server-send msg s)

  server-subtree :
      (head : MessageHead) (msg : ClusterMessage) (s : State Server)
      → (update_route_to_subtree wire api reach head msg s).server ≡ s.server
  unfolding update_route_to_subtree
  server-subtree head msg s = ground arith

  merge-Kept :
      (head : MessageHead) (body : Bytes) (s : State Server)
      → Kept s
      → Kept (merge_to_apiserver wire api reach head body s).1
  unfolding merge_to_apiserver
  merge-Kept head body s kept = elim (Option-cases (wire.response.unmarshal body)) [
    | inl e ↦ rw (e, merge_to_apiserver) kept
    | inr (resp, e) ↦
        elim (Option-cases (api.get_controller cluster_namespace head.message_id s.server)) [
          | inl e' ↦ rw (e, merge_to_apiserver) (rw e' kept)
          | inr (origin, e') ↦ rw (e, merge_to_apiserver) (rw (e', r.get-update_controller) kept)
        ]
  ]

  respond-Kept :
      (c : CommandType) (head : MessageHead) (msg : ClusterMessage)
      (sent : Result (Unit {0}) × State Server)
      → Kept sent.1
      → Kept (respond wire api reach c head msg sent).1
  unfolding respond
  respond-Kept control_resp head msg sent kept = merge-Kept head msg.body sent.1 kept
  respond-Kept _ head msg sent kept = kept

  report-Kept :
      (head : MessageHead) (msg : ClusterMessage) (s : State Server)
      → Kept s
      → Kept (report wire api reach head msg s).1
  unfolding report
  report-Kept head msg s kept =
      respond-Kept head.command head msg (send_to_controller_manager wire.message reach msg s)
        (rw server-send kept)

  dispatch-Kept :
      (h : Handler) (now : ℕ) (client : String) (c : CommandType) (head : MessageHead)
      (msg : ClusterMessage) (s : State Server)
      → Kept s
      → Kept (dispatch wire api reach h now client c head msg s).1
  unfolding dispatch transmit_to_parent
  dispatch-Kept h now client cluster_regist head msg s kept =
      handle_regist-Kept h now client msg (tell_manager wire api reach h msg s)
        (rw server-tell_manager kept)
  dispatch-Kept h now client cluster_unregist head msg s kept =
      handle_unregist-Kept h client msg (tell_manager wire api reach h msg s)
        (rw server-tell_manager kept)
  dispatch-Kept h now client subtree_route head msg s kept = rw server-subtree kept
  dispatch-Kept h now client _ head msg s kept = elim (Bool-cases (is_root h)) [
    | inl root ↦ rw root (report-Kept head msg s kept)
    | inr below ↦ rw below kept
  ]

  -- With a reliable apiserver, whatever a child sends, at the root or below it, and whatever the
  -- outcome: a stored cluster with a timestamp of at least `k` is still stored with one of at least
  -- `k`.
  pub handle_message_from_child-NotBefore :
      (h : Handler) (now : ℕ) (client : String) (data' : Bytes) (s : State Server)
      → NotBefore k (get_cluster ns n s.server)
      → NotBefore k (
          get_cluster ns n (handle_message_from_child wire api reach h now client data' s).1.server)
  unfolding handle_message_from_child
  handle_message_from_child-NotBefore h now client data' s kept =
      elim (Option-cases (wire.message.unmarshal data')) [
        | inl e ↦ rw (e, handle_message_from_child) kept
        | inr (msg, e) ↦ elim (Option-cases msg.head) [
          | inl e' ↦ rw (e, handle_message_from_child) (rw e' kept)
          | inr (head, e') ↦
              rw (e, handle_message_from_child) (rw e' (dispatch-Kept h now client _ _ _ s kept))
        ]
      ]
