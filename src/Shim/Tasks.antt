-- ===== src/Shim/Tasks.antt =====
-- What the edge handler does with a task that its local shim can carry out, and with one it cannot.
use ote_stack.Prelude.{
  ℕ, String, ◌≡◌, refl, ap, ◌∙◌, Bool, true, false, ◌||◌, none, some, arith, ◌==◌, eq_iff,
  Bool-cases, inl, inr,
}
use ote_stack.Maps.{Map, lookup}
use ote_stack.Message.{Bytes, control_req, MessageHead, ControllerTask}
use ote_stack.Wire.{Wire}
use ote_stack.Shim.{
  Request, Answer, TaskHandler, is_plain_method, control_task_response, k8s_task,
  k8s_control_request, k8s_command, k8s_handler, as_response, in_place, do_control_request,
  shim_command, shim_do, in_place,
}

-- The methods that the handler of the apiserver takes.
abbrev pub is_method : String → Bool
is_method m = is_plain_method m || m == "PATCH"

-- The request of a task
abbrev pub request_of : ControllerTask → Request
request_of task = record {
  verb = task.method;
  json_patch = task.method == "PATCH";
  uri = task.uri;
  body = task.body;
}

plain-patch : (m : String) → is_plain_method m ≡ true → (m == "PATCH") ≡ false
plain-patch m plain = elim (Bool-cases (m == "PATCH")) [
  | inr other ↦ other
  | inl e ↦ absurd (ground (arith, ap is_plain_method ((eq_iff m "PATCH").0 e)))
]

module _ (wire : Wire) (now : ℕ) {S : Type 0} (serve : Request → S → Answer × S) where
  k8s_task_lem :
      (task : ControllerTask) (s : S)
      → is_method task.method ≡ true
      → k8s_task wire now serve task s ≡ (
        (
          control_task_response wire now
              (serve (request_of task) s).0.status_code
              (serve (request_of task) s).0.raw,
          none,
        ),
        (serve (request_of task) s).1,
      )
  unfolding k8s_task
  k8s_task_lem task s h = elim (Bool-cases (is_plain_method task.method)) [
    | inl plain ↦ rw (plain, k8s_task) (rw (plain-patch task.method plain) refl)
    | inr other ↦
        let patch : (task.method == "PATCH") ≡ true = ground (arith, other, h) in
        rw (other, k8s_task) (rw patch (rw ((eq_iff task.method "PATCH").0 patch) refl))
  ]

  k8s_handler_lem :
      (head : MessageHead) (body : Bytes) (task : ControllerTask) (s : S)
      → head.command ≡ control_req
      → wire.task.unmarshal body ≡ some task
      → is_method task.method ≡ true
      → let (a, s') = serve (request_of task) s in
        k8s_handler wire now serve head body s
        ≡ ((some (head, control_task_response wire now a.status_code a.raw), none), s')
  unfolding k8s_handler k8s_command k8s_control_request
  k8s_handler_lem head body task s command read method =
      ap (λ k. k8s_command wire now serve k head body s) command
      ∙ rw (read, k8s_control_request) (rw (k8s_task_lem task s method) refl)

  -- A task that can be read, for a destination that the apiserver's handler is registered for.
  pub shim_do_served :
      (handlers : Map (TaskHandler S)) (head : MessageHead) (body : Bytes) (task : ControllerTask)
      (s : S)
      → head.command ≡ control_req
      → wire.task.unmarshal body ≡ some task
      → lookup task.destination handlers ≡ some (k8s_handler wire now serve)
      → is_method task.method ≡ true
      → let (a, s') = serve (request_of task) s in
        shim_do wire now handlers head body s ≡ record {
          response =
              (some (as_response head, control_task_response wire now a.status_code a.raw), none);
          request = as_response head;
          state = s';
        }
  unfolding shim_do shim_command do_control_request in_place
  shim_do_served handlers head body task s command read known method = simp command (
      rw (read, do_control_request)
        (rw (known, do_control_request)
          (rw (k8s_handler_lem head body task s command read method) refl)))
