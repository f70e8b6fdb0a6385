-- ===== src/ControllerTunnel.antt =====
-- pkg/tunnel/controller_tunnel.go: the messages of the controllers of a controller manager, on
-- their way to the root. The protobuf form of a message and whether a write succeeds are parameters.
pub mod Order
use ote_stack.Prelude.{
  ℕ, Bool, true, false, Option, none, some, List, [], ◌∷◌, ◌++◌, if◌then◌else◌, ltb, nat_eq, length,
}
use ote_stack.Message.{Bytes}

-- What became of a message.
pub data Outcome : Type 0 where
  sent unserializable thrown_away : Outcome

-- `controllerTunnel`, as the goroutines of `Start` use it. `resending` is the message that
-- `recoverAndReSend` holds; `accepted` and `handled` are the messages that the channel has taken, and
-- those that the goroutine is done with.
pub record Sender (Msg : Type 0) : Type 0 where
  pub send_chan : List Msg
  pub resending : Option Msg
  pub connection_health : Bool
  pub accepted : List Msg
  pub handled : List (Msg × Outcome)

-- `ControllerSendChanBufferSize`
abbrev pub send_chan_buffer_size : ℕ
send_chan_buffer_size = 1000

-- What happens: a controller puts a message; the goroutine of `sendFromChan` runs on, with a write that
-- succeeds or not; `reconnect` begins, or ends with a connection.
pub data SenderStep (Msg : Type 0) : Type 0 where
  puts : Msg → SenderStep Msg
  runs : Bool → SenderStep Msg
  loses recovers : SenderStep Msg

module _ {Msg : Type 0} where
  -- `NewControllerTunnel` after `Start`
  abbrev pub new_sender : Sender Msg
  new_sender = record {
    send_chan = [];
    resending = none;
    connection_health = true;
    accepted = [];
    handled = [];
  }

  -- A full channel lets the controller wait.
  unfoldable pub put_message : Msg → Sender Msg → Sender Msg
  put_message msg s =
      if ltb (length s.send_chan) send_chan_buffer_size
      then record s { send_chan = s.send_chan ++ msg ∷ []; accepted = s.accepted ++ msg ∷ [] }
      else s

  -- The goroutine is done with the message.
  abbrev pub done : Msg → Outcome → Sender Msg → Sender Msg
  done msg outcome s = record s { resending = none; handled = s.handled ++ (msg, outcome) ∷ [] }

  -- After a `Send`
  unfoldable pub after_send : Msg → Bool → Sender Msg → Sender Msg
  after_send msg true s = done msg sent s
  after_send msg false s = record s { resending = some msg; connection_health = false }

  -- `recoverAndReSend` at its start or where the condition is signalled.
  unfoldable pub recover_and_resend : Msg → Bool → Sender Msg → Sender Msg
  unfolding after_send
  recover_and_resend msg ok s =
      if s.connection_health
      then after_send msg ok s
      else if nat_eq (length s.send_chan) send_chan_buffer_size
      then done msg thrown_away s
      else s

  module _ (marshal : Msg → Option Bytes) where
    -- A turn of `sendFromChan`, which waits at an empty channel.
    unfoldable pub next_message : Bool → List Msg → Sender Msg → Sender Msg
    unfolding after_send
    next_message ok [] s = s
    next_message ok (msg ∷ rest) s = elim (marshal msg) [
      | none ↦ done msg unserializable (record s { send_chan = rest })
      | some data' ↦ after_send msg ok (record s { send_chan = rest })
    ]

    -- The goroutine of `sendFromChan`, from where it is.
    unfoldable pub send_from_chan : Bool → Option Msg → Sender Msg → Sender Msg
    unfolding next_message recover_and_resend
    send_from_chan ok none s = next_message ok s.send_chan s
    send_from_chan ok (some msg) s = recover_and_resend msg ok s

    unfoldable pub sender_step : SenderStep Msg → Sender Msg → Sender Msg
    unfolding put_message send_from_chan
    sender_step (puts msg) s = put_message msg s
    sender_step (runs ok) s = send_from_chan ok s.resending s
    sender_step loses s = record s { connection_health = false }
    sender_step recovers s = record s { connection_health = true }

    -- The steps, the first one first.
    abbrev pub sender_steps : List (SenderStep Msg) → Sender Msg → Sender Msg
    sender_steps [] s = s
    sender_steps (step ∷ steps) s = sender_steps steps (sender_step step s)
