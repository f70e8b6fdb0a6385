-- ===== src/Shim/Remote.antt =====
-- A task by the local shim, and by the remote one.
use ote_stack.Prelude.{some}
use ote_stack.Message.{Bytes, MessageHead, ClusterMessage}
use ote_stack.Wire.{Wire}
use ote_stack.Handler.{Config}
use ote_stack.Edge.{Shim}

-- A response under the name of a cluster
abbrev pub named : Config → MessageHead → Bytes → ClusterMessage
named c head body = record {
  head = some (record head { cluster_name = c.cluster_name });
  body = body;
}
