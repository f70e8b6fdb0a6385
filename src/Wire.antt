-- ===== src/Wire.antt =====
-- The codecs of the messages between cluster controllers: protobuf, and JSON for some bodies.
use ote_stack.Prelude.{String}
use ote_stack.Maps.{Map}
use ote_stack.Message.{
  Codec, ClusterMessage, ClusterRegistry, ControllerTask, ControllerTaskResponse, ControlMultiTask,
}
use ote_stack.Router.{NeighborRoutes}

pub record Wire : Type 0 where
  pub message : Codec ClusterMessage
  pub task : Codec ControllerTask
  pub multi_task : Codec ControlMultiTask
  pub response : Codec ControllerTaskResponse
  pub registry : Codec ClusterRegistry
  pub neighbors : Codec NeighborRoutes
  pub subtree : Codec (Map String)
