-- ===== src/Shim/Client.antt =====
-- pkg/clustershim/shimclient.go: the shim client of the edge handler, local or remote.
use ote_stack.Prelude.{
  Bool, true, false, Option, none, some, List, [], ◌∷◌, Result, ok, err, Fault, marshal_failed, ℕ,
  ◌≡◌, arith,
}
use ote_stack.Maps.{Map}
use ote_stack.Message.{Bytes, MessageHead, ClusterMessage}
use ote_stack.Wire.{Wire}
use ote_stack.Shim.{TaskHandler, Response, shim_do}
use ote_stack.Edge.{Shim}

-- The message of a response
abbrev pub message_of : MessageHead × Bytes → ClusterMessage
message_of (head, body) = record { head = some head; body = body }

-- What the edge handler sees of a response; `text` is the text of an error.
abbrev pub seen : (Fault → Bytes) → Response → Option ClusterMessage × Option Bytes
seen text (none, none) = (none, none)
seen text (none, some fault) = (none, some (text fault))
seen text (some r, none) = (some (message_of r), none)
seen text (some r, some fault) = (some (message_of r), some (text fault))

-- `localShimClient.Do` as the edge handler calls it, which has looked at the head before.
abbrev pub local_client : Wire → {S : Type 0} → (Fault → Bytes) → ℕ → Map (TaskHandler S) → S → Shim
local_client wire text now handlers s msg = elim msg.head [
  | none ↦ (none, none)
  | some head ↦ seen text (shim_do wire now handlers head msg.body s).response
]

-- `NewRemoteShimClient`: the attempts to connect that there are, of 60.
unfoldable pub connect_first : List Bool → Bool
connect_first [] = false
connect_first (up ∷ rest) =
    let later = connect_first rest in elim up [ true ↦ true | false ↦ later ]

module _ (wire : Wire) where
  -- `remoteShimClient.Do`: what it writes to the server, or the error.
  unfoldable pub remote_do : ClusterMessage → Result Bytes
  remote_do msg = elim (wire.message.marshal msg) [ none ↦ err marshal_failed | some b ↦ ok b ]

  -- `remoteShimClient.handleReceiveMessage`, a message of the server: what goes to the channel.
  unfoldable pub received : Bytes → Option ClusterMessage
  received b = wire.message.unmarshal b

-- What is written is the message.
pub remote_do_written :
    (wire : Wire) (msg : ClusterMessage) (b : Bytes)
    → remote_do wire msg ≡ ok b
    → wire.message.marshal msg ≡ some b
unfolding remote_do
remote_do_written wire msg b e = ground arith
