-- ===== src/Shim/Recorded.antt =====
-- A task on its way: from the message that reaches a cluster to the status at the root.
use ote_stack.Prelude.{
  ℕ, String, ◌≡◌, refl, ap, ◌∙◌, Bool, true, none, some, [], ◌∷◌, arith, Fault, ok,
}
use ote_stack.Maps.{Map, lookup}
use ote_stack.Message.{
  Bytes, RoundTrips, control_req, MessageHead, ClusterMessage, ControllerTask,
  ControllerTaskResponse,
}
use ote_stack.Crd.{Api, ClusterController, cluster_namespace}
use ote_stack.Wire.{Wire}
use ote_stack.Selector.{new_selector, has}
use ote_stack.Handler.Up.{handle_message_from_child}
use ote_stack.Handler.Up.Response.{Merged, response_recorded}
use ote_stack.Handler.{Config, State, is_root, Handler as ClusterHandler}
use ote_stack.Edge.{to_cluster, to_tunnel, Shim, handle_message, receive_message_from_tunnel}
use ote_stack.Edge.Receive.{Answers}
use ote_stack.Shim.{
  Request, Answer, TaskHandler, k8s_handler, as_response, control_task_response, Did,
}
use ote_stack.Shim.Client.{message_of, seen, local_client}
use ote_stack.Shim.Tasks.{is_method, request_of, shim_do_served}

-- The response of a task, as the server answers it
abbrev pub response_of : ℕ → Answer → ControllerTaskResponse
response_of now a = record { timestamp = now; status_code = a.status_code; body = a.raw }

module _ (wire : Wire) (shim : Shim) (room : Bytes → Bool) (c : Config) where
  handle_message_answered :
      (now : ℕ) (msg resp : ClusterMessage) (head : MessageHead) (b : Bytes)
      → shim msg ≡ (some resp, none)
      → resp.head ≡ some head
      → wire.message.marshal
          (record { head = some (record head { cluster_name = c.cluster_name }); body = resp.body })
        ≡ some b
      → room b ≡ true
      → handle_message wire shim room c now control_req msg ≡ (ok tt, to_tunnel b ∷ [])
  unfolding handle_message
  handle_message_answered now msg resp head b said named sent free = ground arith

-- What the theorems assume of a task: the bytes `data'` carry it, this cluster is selected, its
-- destination is the apiserver, and the answer can be written, as the body `body` of the message `b`.
pub record Task (wire : Wire) (c : Config) (matches : String → String → Bool) (now : ℕ) {S : Type 0}
    (serve : Request → S → Answer × S) (handlers : Map (TaskHandler S)) (s : S)
    (msg : ClusterMessage) (head : MessageHead) (task : ControllerTask) (data' body b : Bytes)
    : Type 0 where
  pub carried : wire.message.unmarshal data' ≡ some msg
  pub headed : msg.head ≡ some head
  pub command : head.command ≡ control_req
  pub selected : has matches (new_selector head.cluster_selector) c.cluster_name ≡ true
  pub read : wire.task.unmarshal msg.body ≡ some task
  pub known : lookup task.destination handlers ≡ some (k8s_handler wire now serve)
  pub method : is_method task.method ≡ true
  pub wrote : wire.response.marshal (response_of now (serve (request_of task) s).0) ≡ some body
  pub sent :
      wire.message.marshal (record {
        head = some (record (as_response head) { cluster_name = c.cluster_name });
        body = body;
      })
      ≡ some b

module _ (wire : Wire) (c : Config) (matches : String → String → Bool) (now : ℕ) {S : Type 0}
    (serve : Request → S → Answer × S) (handlers : Map (TaskHandler S)) (s : S)
    (msg : ClusterMessage) (head : MessageHead) (task : ControllerTask) (data' body b : Bytes)
    (t : Task wire c matches now serve handlers s msg head task data' body b) (text : Fault → Bytes)
    (room : Bytes → Bool) (free : room b ≡ true) where
  local_client_lem :
      local_client wire text now handlers s msg ≡ (some (message_of (as_response head, body)), none)
  unfolding control_task_response
  local_client_lem = rw t.headed (
      ap (λ (d : Did S). seen text d.response)
        (shim_do_served wire now serve handlers head msg.body task s t.command t.read t.known
          t.method)
      ∙ rw (t.wrote, control_task_response) refl)

  -- The message that the parent gets.
  task_answered :
      RoundTrips wire.message
      → RoundTrips wire.response
      → (receive_message_from_tunnel wire
            (local_client wire text now handlers s)
            room
            c
            matches
            now
            data'
          ≡ (ok tt, to_cluster msg ∷ to_tunnel b ∷ []))
        × Answers wire (local_client wire text now handlers s) room c (as_response head) body b
        × (wire.response.unmarshal body ≡ some (response_of now (serve (request_of task) s).0))
  unfolding receive_message_from_tunnel
  task_answered rm rr =
      let done : handle_message wire (local_client wire text now handlers s) room c now head.command
            msg
          ≡ (ok tt, to_tunnel b ∷ []) =
        ap (λ k. handle_message wire (local_client wire text now handlers s) room c now k msg)
          t.command
        ∙ handle_message_answered wire (local_client wire text now handlers s) room c now msg
            (message_of (as_response head, body)) (as_response head) b local_client_lem refl t.sent
            free in
      (
        ground (arith, t.carried, t.headed, t.selected, done),
        rm.read_back _ b t.sent,
        rr.read_back _ body t.wrote,
      )

  -- A task goes to a cluster that is selected and has the local shim, and what it puts on the channel
  -- to its parent gets to the root, which stores the clustercontroller of the task. The channel has
  -- room, the codecs of messages and responses round-trip, and the root's apiserver takes updates.
  -- Then the cluster hands the message down and sends one message up; once the root has handled that,
  -- the clustercontroller has for this cluster the newer of the stored status and the status code and
  -- the body that the cluster's apiserver answers to the task's request. The other clusters' statuses
  -- and the spec are as before.
  pub task_recorded :
      (api : Api) (reach : Bytes → Bool) (h : ClusterHandler) (later : ℕ) (client : String)
      (origin : ClusterController) (root : State api.Server)
      → RoundTrips wire.message
      → RoundTrips wire.response
      → ((k : ClusterController) (u : api.Server)
          → api.get_controller k.namespace k.name (api.update_controller k u) ≡ some k)
      → is_root h ≡ true
      → api.get_controller cluster_namespace head.message_id root.server ≡ some origin
      → origin.namespace ≡ cluster_namespace
      → origin.name ≡ head.message_id
      → let (result, root') = handle_message_from_child wire api reach h later client b root in
        (receive_message_from_tunnel wire
            (local_client wire text now handlers s)
            room
            c
            matches
            now
            data'
          ≡ (ok tt, to_cluster msg ∷ to_tunnel b ∷ []))
        × (result ≡ ok tt)
        × ((new : ClusterController) × (api.get_controller cluster_namespace head.message_id
                root'.server
              ≡ some new)
            × Merged c.cluster_name (response_of now (serve (request_of task) s).0) origin new)
  task_recorded api reach h later client origin root rm rr stored top found ns id =
      let (sent, answers, answered) = task_answered rm rr in
      let (done, merged) =
        response_recorded wire api reach h later client b body
          (record (as_response head) { cluster_name = c.cluster_name })
          (response_of now (serve (request_of task) s).0) origin root stored top answers refl
          answered found ns id in
      (sent, done, merged)
