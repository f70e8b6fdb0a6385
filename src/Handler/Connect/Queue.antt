-- ===== src/Handler/Connect/Queue.antt =====
-- `ChildMessageChan`: the tunnel fills it, and the goroutines of `handleChildMessage` empty it.
use ote_stack.Prelude.{◌≤◌, String, ◌≡◌, List, [], ◌∷◌, ◌++◌, Result, ok, err, length}
use ote_stack.Message.{Bytes}
use ote_stack.Handler.Connect.{child_message_cap, handle_message_from_cloud_tunnel}

-- A message from a child arrives, or a goroutine takes the next one.
pub data QueueStep : Type 0 where
  arrives : String → Bytes → QueueStep
  takes : QueueStep

-- The channel, the messages that it has accepted, and those that the goroutines have taken.
pub record ChildQueue : Type 0 where
  pub queue : List (String × Bytes)
  pub accepted : List (String × Bytes)
  pub taken : List (String × Bytes)

abbrev pub nothing_queued : ChildQueue
nothing_queued = record { queue = []; accepted = []; taken = [] }

filled : String × Bytes → Result (List (String × Bytes)) → ChildQueue → ChildQueue
filled msg (err e) q = q
filled msg (ok queue) q = record q { queue = queue; accepted = q.accepted ++ msg ∷ [] }

-- The receive of `handleChildMessage`, which waits at an empty channel.
take_next : List (String × Bytes) → ChildQueue → ChildQueue
take_next [] q = q
take_next (msg ∷ rest) q = record q { queue = rest; taken = q.taken ++ msg ∷ [] }

unfoldable pub queue_step : QueueStep → ChildQueue → ChildQueue
unfolding filled take_next
queue_step (arrives client bytes) q =
    filled (client, bytes) (handle_message_from_cloud_tunnel client bytes q.queue) q
queue_step takes q = take_next q.queue q

-- The steps, the first one first.
abbrev pub queue_steps : List QueueStep → ChildQueue → ChildQueue
queue_steps [] q = q
queue_steps (step ∷ steps) q = queue_steps steps (queue_step step q)

-- The channel is within its capacity, and has the messages that were accepted and not yet taken, in
-- their order.
abbrev pub Ordered : ChildQueue → Type 0
Ordered q = (length q.queue ≤ child_message_cap) × (q.accepted ≡ q.taken ++ q.queue)
