-- ===== src/ControllerTunnel/Order.antt =====
-- pkg/tunnel/controller_tunnel.go: the order of the messages over failures of the connection.
use ote_stack.Prelude.{◌≤◌, ◌≡◌, Option, none, some, List, [], ◌∷◌, ◌++◌, length}
use ote_stack.ControllerTunnel.{Outcome, Sender, send_chan_buffer_size}

module _ {Msg : Type 0} where
  -- The messages without what became of them.
  abbrev pub messages : List (Msg × Outcome) → List Msg
  messages [] = []
  messages ((msg, outcome) ∷ rest) = msg ∷ messages rest

  abbrev pub waiting : Option Msg → List Msg → List Msg
  waiting none chan = chan
  waiting (some msg) chan = msg ∷ chan

  -- The channel is within its size, and the accepted messages are, in their order, those that are
  -- done with, the one that is being sent again, and those in the channel.
  abbrev pub InOrder : Sender Msg → Type 0
  InOrder s =
      (length s.send_chan ≤ send_chan_buffer_size)
      × (s.accepted ≡ messages s.handled ++ waiting s.resending s.send_chan)
