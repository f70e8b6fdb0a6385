-- ===== src/Shim.antt =====
-- pkg/clustershim/handler and the dispatch of pkg/clustershim: how a cluster carries out a task.
-- The apiserver of the cluster and the HTTP server of a chart service are parameters, which change a
-- state `S`; the codecs are those of the messages.
pub mod Client
pub mod Server
pub mod Tasks
pub mod Recorded
pub mod Remote
pub mod Signals
use ote_stack.Prelude.{
  ℕ, String, Bool, true, false, ◌||◌, Option, none, some, List, [], ◌∷◌, Fault, not_found,
  unsupported, no_handler, method_not_allowed, request_failed, if◌then◌else◌, ◌==◌,
}
use ote_stack.Maps.{Map, lookup}
use ote_stack.Message.{
  Bytes, control_req, control_resp, control_multi_req, MessageHead, ControllerTask,
  ControlMultiTask, CommandType,
}
use ote_stack.Wire.{Wire}

-- A request to a server; `json_patch` is the content type of a PATCH.
pub record Request : Type 0 where
  pub verb : String
  pub json_patch : Bool
  pub uri : String
  pub body : Bytes

-- What `result` of the Kubernetes client has: `StatusCode`, and `Raw` without its error.
pub record Answer : Type 0 where
  pub status_code : ℕ
  pub raw : Bytes

-- What a handler returns: the head and the body of the response, and the error.
abbrev pub Response : Type 0
Response = Option (MessageHead × Bytes) × Option Fault

-- A `TaskHandler`, called with a message that has a head.
abbrev pub TaskHandler : Type 0 → Type 0
TaskHandler S = MessageHead → Bytes → S → Response × S

abbrev pub is_plain_method : String → Bool
is_plain_method m = m == "GET" || m == "POST" || m == "DELETE" || m == "PUT"

module _ (wire : Wire) (now : ℕ) where
  -- `ControlTaskResponse`; a response that cannot be written is a nil slice.
  unfoldable pub control_task_response : ℕ → Bytes → Bytes
  control_task_response status body =
      elim (wire.response.marshal (record { timestamp = now; status_code = status; body = body })) [
        | none ↦ []
        | some b ↦ b
      ]

  module _ {S : Type 0} (serve : Request → S → Answer × S) where
    served : Answer × S → (Bytes × Option Fault) × S
    served (a, s) = ((control_task_response a.status_code a.raw, none), s)

    -- `k8sHandler.DoControlRequest`, after the task is read
    unfoldable pub k8s_task : ControllerTask → S → (Bytes × Option Fault) × S
    unfolding served
    k8s_task task s =
        if is_plain_method task.method
        then served (
            serve
              (record { verb = task.method; json_patch = false; uri = task.uri; body = task.body })
              s)
        else if task.method == "PATCH"
        then served (
            serve (record { verb = "PATCH"; json_patch = true; uri = task.uri; body = task.body })
              s)
        else ((control_task_response 405 [], some method_not_allowed), s)

    -- `k8sHandler.DoControlRequest`
    unfoldable pub k8s_control_request : Bytes → S → (Bytes × Option Fault) × S
    unfolding k8s_task
    k8s_control_request body s = elim (wire.task.unmarshal body) [
      | none ↦ ((control_task_response 404 [], some not_found), s)
      | some task ↦ k8s_task task s
    ]

    -- The loop of `DoControlMultiRequest`: an error of one request is only logged.
    unfoldable pub serve_all : String → Bool → String → List Bytes → S → S
    serve_all verb json_patch uri [] s = s
    serve_all verb json_patch uri (body ∷ bodies) s =
        serve_all verb json_patch uri bodies
          (serve (record { verb = verb; json_patch = json_patch; uri = uri; body = body }) s).1

    unfoldable pub k8s_multi_task : ControlMultiTask → S → Option Fault × S
    unfolding serve_all
    k8s_multi_task task s =
        if is_plain_method task.method
        then (none, serve_all task.method false task.uri task.body s)
        else if task.method == "PATCH"
        then (none, serve_all "PATCH" true task.uri task.body s)
        else (some method_not_allowed, s)

    -- `k8sHandler.DoControlMultiRequest`
    unfoldable pub k8s_control_multi_request : Bytes → S → Option Fault × S
    unfolding k8s_multi_task
    k8s_control_multi_request body s = elim (wire.multi_task.unmarshal body) [
      | none ↦ (some not_found, s)
      | some task ↦ k8s_multi_task task s
    ]

    responded : MessageHead → (Bytes × Option Fault) × S → Response × S
    responded head ((body, failure), s) = ((some (head, body), failure), s)

    unanswered : Option Fault × S → Response × S
    unanswered (failure, s) = ((none, failure), s)

    -- The switch of `k8sHandler.Do`
    unfoldable pub k8s_command : CommandType → TaskHandler S
    unfolding responded unanswered k8s_control_request k8s_control_multi_request
    k8s_command control_req head body s = responded head (k8s_control_request body s)
    k8s_command control_multi_req head body s = unanswered (k8s_control_multi_request body s)
    k8s_command _ head body s = ((none, some unsupported), s)

    -- `k8sHandler.Do`
    unfoldable pub k8s_handler : TaskHandler S
    unfolding k8s_command
    k8s_handler head body s = k8s_command head.command head body s

  -- `fetch` is none where the request cannot be made or sent, or its answer not be read.
  module _ {S : Type 0} (addr : String → String) (fetch : Request → S → Option Answer × S) where
    fetched : Option Answer × S → (Bytes × Option Fault) × S
    fetched (none, s) = ((control_task_response 500 [], some request_failed), s)
    fetched (some a, s) = ((control_task_response a.status_code a.raw, none), s)

    -- `httpProxyHandler.DoControlRequest`, after the task is read; `addr` puts the address in front.
    unfoldable pub proxy_task : ControllerTask → S → (Bytes × Option Fault) × S
    unfolding fetched
    proxy_task task s =
        if is_plain_method task.method
        then fetched (
            fetch
              (record {
                verb = task.method;
                json_patch = false;
                uri = addr task.uri;
                body = task.body;
              })
              s)
        else ((control_task_response 405 [], some method_not_allowed), s)

    -- `httpProxyHandler.DoControlRequest`
    unfoldable pub proxy_control_request : Bytes → S → (Bytes × Option Fault) × S
    unfolding proxy_task
    proxy_control_request body s = elim (wire.task.unmarshal body) [
      | none ↦ ((control_task_response 404 [], some not_found), s)
      | some task ↦ proxy_task task s
    ]

    proxied : MessageHead → (Bytes × Option Fault) × S → Response × S
    proxied head ((body, failure), s) = ((some (head, body), failure), s)

    -- `httpProxyHandler.Do`
    unfoldable pub http_proxy_handler : TaskHandler S
    unfolding proxied proxy_control_request
    http_proxy_handler head body s = elim head.command [
      | control_req ↦ proxied head (proxy_control_request body s)
      | _ ↦ ((none, some unsupported), s)
    ]

-- What `Do` of a shim does: the response and the error, the head that the request has afterwards,
-- since the handlers answer with a pointer to it, and the servers' state.
pub record Did (S : Type 0) : Type 0 where
  pub response : Response
  pub request : MessageHead
  pub state : S

abbrev pub as_response : MessageHead → MessageHead
as_response head = record head { command = control_resp }

module _ (wire : Wire) (now : ℕ) {S : Type 0} (handlers : Map (TaskHandler S)) where
  -- The response of a handler, which has the head of the request and becomes a response in place.
  unfoldable pub in_place : MessageHead → Response × S → Did S
  in_place head ((none, failure), s) = record {
    response = (none, failure);
    request = head;
    state = s;
  }
  in_place head ((some (h, b), failure), s) = record {
    response = (some (as_response h, b), failure);
    request = as_response head;
    state = s;
  }

  unfoldable pub refused : MessageHead → Fault → S → Did S
  refused head fault s = record {
    response = (some (as_response head, control_task_response wire now 404 []), some fault);
    request = head;
    state = s;
  }

  -- `DoControlRequest` of the local client and of the server, which differ in the error's text.
  unfoldable pub do_control_request : MessageHead → Bytes → S → Did S
  unfolding in_place refused
  do_control_request head body s = elim (wire.task.unmarshal body) [
    | none ↦ refused head not_found s
    | some task ↦ elim (lookup task.destination handlers) [
      | none ↦ refused head no_handler s
      | some h ↦ in_place head (h head body s)
    ]
  ]

  dropped_response : MessageHead → Response × S → Did S
  dropped_response head ((response, failure), s) = record {
    response = (none, failure);
    request = head;
    state = s;
  }

  without : MessageHead → Fault → S → Did S
  without head fault s = record { response = (none, some fault); request = head; state = s }

  -- `DoControlMultiRequest`, of both
  unfoldable pub do_control_multi_request : MessageHead → Bytes → S → Did S
  unfolding dropped_response without
  do_control_multi_request head body s = elim (wire.multi_task.unmarshal body) [
    | none ↦ without head not_found s
    | some task ↦ elim (lookup task.destination handlers) [
      | none ↦ without head no_handler s
      | some h ↦ dropped_response head (h head body s)
    ]
  ]

  -- The switch of `Do`
  unfoldable pub shim_command : CommandType → MessageHead → Bytes → S → Did S
  unfolding do_control_request do_control_multi_request without
  shim_command control_req head body s = do_control_request head body s
  shim_command control_multi_req head body s = do_control_multi_request head body s
  shim_command _ head body s = without head unsupported s

  -- `Do`, of both
  unfoldable pub shim_do : MessageHead → Bytes → S → Did S
  unfolding shim_command
  shim_do head body s = shim_command head.command head body s
