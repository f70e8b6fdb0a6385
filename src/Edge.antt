-- ===== src/Edge.antt =====
-- pkg/edgehandler/edgehandler.go: the side of a cluster controller that faces its parent.
-- The shim client is a parameter: `shim msg` is the response, if there is one, and the text of the
-- error, if there is one. `room b` says whether `sendToParentChan` takes `b` within its timeout.
pub mod Receive
pub mod Delivery
pub mod Start
pub mod Report
use ote_stack.Prelude.{
  ℕ, String, Bool, true, false, not, ◌&&◌, Option, none, some, List, [], ◌∷◌, ◌++◌, Result, ok, err,
  bad_config, marshal_failed, unmarshal_failed, handler_failed, nil_dereference, if◌then◌else◌,
  ◌==◌,
}
use ote_stack.Message.{
  Bytes, Codec, CommandType, control_req, control_multi_req, MessageHead, ClusterMessage,
  ControllerTaskResponse, is_root_name,
}
use ote_stack.Selector.{new_selector, has}
use ote_stack.Router.{ClusterRouter, subtree_message}
use ote_stack.Wire.{Wire}
use ote_stack.Handler.{Config}

-- `valid`; the Boolean is `rootClusterEnable`.
unfoldable pub valid : Config → Result Bool
valid c =
    let root = is_root_name c.cluster_user_define_name in
    let remote_shim = not (c.remote_shim_addr == "") in
    if c.cluster_user_define_name == ""
    then err bad_config
    else if not c.k8s_client && not remote_shim
    then err bad_config
    else if c.parent_cluster == "" && not root
    then err bad_config
    else if not (c.parent_cluster == "") && root
    then err bad_config
    else ok (root && remote_shim)

pub data Output : Type 0 where
  -- `EdgeToClusterChan`, `sendToParentChan`, `RootEdgeToClusterChan`
  to_cluster : ClusterMessage → Output
  to_tunnel : Bytes → Output
  to_root_cluster : ClusterMessage → Output

-- What one call of the edge handler returns, and what it puts on the channels.
abbrev pub Outcome : Type 0
Outcome = Result (Unit {0}) × List Output

-- The shim client's `Do`.
abbrev pub Shim : Type 0
Shim = ClusterMessage → Option ClusterMessage × Option Bytes

module _ (wire : Wire) (shim : Shim) (room : Bytes → Bool) (c : Config) where
  -- `sendToParent`: a timeout loses the message and is no error.
  unfoldable pub send_to_parent : ClusterMessage → Outcome
  send_to_parent msg = elim (wire.message.marshal msg) [
    | none ↦ (err marshal_failed, [])
    | some b ↦ (ok tt, if room b then to_tunnel b ∷ [] else [])
  ]

  -- `responseErrorStatus`, with `http.StatusInternalServerError`; a failed marshal is a nil body.
  unfoldable pub response_error_status : ℕ → Bytes → Bytes
  response_error_status now text =
      elim (wire.response.marshal (record { timestamp = now; status_code = 500; body = text })) [
        | none ↦ []
        | some b ↦ b
      ]

  -- The response of the shim on its way to the parent; a nil head panics.
  unfoldable pub reply : ℕ → ClusterMessage → Option Bytes → Outcome
  unfolding response_error_status send_to_parent
  reply now resp failure =
      let body' : Bytes = elim failure [
        | none ↦ resp.body
        | some text ↦ response_error_status now text
      ] in
      elim resp.head [
        | none ↦ (err nil_dereference, [])
        | some head ↦
            send_to_parent
              (record { head = some (record head { cluster_name = c.cluster_name }); body = body' })
      ]

  failed : Option Bytes → Outcome
  failed none = (ok tt, [])
  failed (some text) = (err handler_failed, [])

  control : ℕ → Option ClusterMessage × Option Bytes → Outcome
  unfolding reply failed
  control now (none, failure) = failed failure
  control now (some resp, failure) = reply now resp failure

  -- `handleMessage`, by the command of the message.
  unfoldable pub handle_message : ℕ → CommandType → ClusterMessage → Outcome
  unfolding control
  handle_message now control_req msg = control now (shim msg)
  handle_message now control_multi_req msg = failed (shim msg).1
  handle_message now _ msg = (ok tt, [])

  -- `receiveMessageFromTunnel`: the message goes down first, and a nil head panics after that. The
  -- result of the local handling is dropped.
  unfoldable pub receive_message_from_tunnel : (String → String → Bool) → ℕ → Bytes → Outcome
  receive_message_from_tunnel matches now data' = elim (wire.message.unmarshal data') [
    | none ↦ (err unmarshal_failed, [])
    | some msg ↦ elim msg.head [
      | none ↦ (err nil_dereference, to_cluster msg ∷ [])
      | some head ↦
          let done = handle_message now head.command msg in
          (
            ok tt,
            to_cluster msg
                ∷ (if has matches (new_selector head.cluster_selector) c.cluster_name
                    then done.1
                    else []),
          )
    ]
  ]

  -- One round of `handleRespFromShimClient`: at a single root the response goes to the cluster
  -- handler, `room_up` within its timeout, and otherwise to the parent.
  unfoldable pub handle_resp : Bool → Bool → ClusterMessage → Outcome
  unfolding send_to_parent
  handle_resp root_cluster_enable room_up resp = elim resp.head [
    | none ↦ (err nil_dereference, [])
    | some head ↦
        let named : ClusterMessage = record resp {
          head = some (record head { cluster_name = c.cluster_name });
        } in
        if root_cluster_enable
        then (ok tt, if room_up then to_root_cluster named ∷ [] else [])
        else send_to_parent named
  ]

  -- `reportSubTree`
  unfoldable pub report_subtree : ClusterRouter → Outcome
  unfolding send_to_parent
  report_subtree r = elim (subtree_message wire.subtree r) [
    | none ↦ (ok tt, [])
    | some msg ↦ elim msg.head [
      | none ↦ (ok tt, [])
      | some head ↦
          send_to_parent
            (record msg { head = some (record head { cluster_name = c.cluster_name }) })
    ]
  ]
