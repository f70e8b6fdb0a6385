-- ===== src/Shim/Signals.antt =====
-- What the shim server tells of its connection, over any events.
use ote_stack.Prelude.{ℕ, String, ◌≡◌, Bool, false, not, Option, List, [], ◌∷◌, is_some}
use ote_stack.Maps.{Map}
use ote_stack.Message.{Bytes, ClusterMessage}
use ote_stack.Wire.{Wire}
use ote_stack.Shim.{TaskHandler}
use ote_stack.Shim.Server.{ShimServer, accept, disconnected, write_message, handle_read_message}

-- What can happen at the server.
pub data Event : Type 0 where
  -- a request to connect, and the connection if the upgrade succeeds
  connects : String → Option ℕ → Event
  closes : Event
  -- a message of the controller, and of `sendChan`, and whether a write succeeds
  reads : ℕ → Bytes → Bool → Event
  sends : ClusterMessage → Bool → Event

-- Signals, the newest first, that alternate from a first `true`; the last one is the given.
abbrev pub Alternate : List Bool → Bool → Type 0
Alternate [] last = last ≡ false
Alternate (b ∷ bs) last = (last ≡ b) × Alternate bs (not b)

module _ (wire : Wire) {S : Type 0} (handlers : Map (TaskHandler S)) where
  abbrev pub on_event : Event → ShimServer S → ShimServer S
  on_event (connects name upgrade) s = (accept name upgrade s).1
  on_event closes s = disconnected s
  on_event (reads now b up) s = (handle_read_message wire now handlers up b s).1
  on_event (sends msg up) s = write_message wire up msg s

  abbrev pub on_events : List Event → ShimServer S → ShimServer S
  on_events [] s = s
  on_events (e ∷ es) s = on_events es (on_event e s)

  Signals : ShimServer S → Type 0
  Signals s = Alternate s.is_connected (is_some s.ccclient)
