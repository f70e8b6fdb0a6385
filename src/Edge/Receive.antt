-- ===== src/Edge/Receive.antt =====
-- What the parent gets when the shim fails.
use ote_stack.Prelude.{ℕ, ◌≡◌, Bool, true, some, [], ◌∷◌, ok, arith}
use ote_stack.Message.{Bytes, control_req, MessageHead, ClusterMessage, RoundTrips}
use ote_stack.Wire.{Wire}
use ote_stack.Handler.{Config}
use ote_stack.Edge.{Shim, to_tunnel, handle_message}

module _ (wire : Wire) (shim : Shim) (room : Bytes → Bool) (c : Config) where
  -- The answer that the parent can read: from this cluster, about the same task.
  abbrev pub Answers : MessageHead → Bytes → Bytes → Type 0
  Answers head body b =
      wire.message.unmarshal b
      ≡ some (record { head = some (record head { cluster_name = c.cluster_name }); body = body })

  -- Where the codecs of messages and responses round-trip and both can be written: a control
  -- request on which the shim fails, with a response that has a head, puts exactly one message on
  -- the channel, if it has room. It reads back as the response under this cluster's name, with a
  -- body that reads as status 500 and the error's text.
  handle_message_failure :
      (now : ℕ) (msg resp : ClusterMessage) (head : MessageHead) (text b body : Bytes)
      → RoundTrips wire.message
      → RoundTrips wire.response
      → shim msg ≡ (some resp, some text)
      → resp.head ≡ some head
      → wire.response.marshal (record { timestamp = now; status_code = 500; body = text })
        ≡ some body
      → wire.message.marshal
          (record { head = some (record head { cluster_name = c.cluster_name }); body = body })
        ≡ some b
      → room b ≡ true
      → (handle_message wire shim room c now control_req msg ≡ (ok tt, to_tunnel b ∷ []))
        × Answers head body b
        × (wire.response.unmarshal body
            ≡ some (record { timestamp = now; status_code = 500; body = text }))
  unfolding handle_message
  handle_message_failure now msg resp head text b body rm rr said named wrote sent free =
      (ground arith, rm.read_back _ b sent, rr.read_back _ body wrote)
