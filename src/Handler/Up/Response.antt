-- ===== src/Handler/Up/Response.antt =====
-- A control response that reaches the root.
use ote_stack.Prelude.{
  ℕ, String, ◌≡◌, ap, ◌∙◌, Bool, true, some, arith, ok, if◌then◌else◌, ◌==◌, sym,
}
use ote_stack.Maps.{lookup}
use ote_stack.Message.{Bytes, MessageHead, control_resp, ControllerTaskResponse}
use ote_stack.Crd.{Api, ClusterController, cluster_namespace}
use ote_stack.Wire.{Wire}
use ote_stack.Handler.Down.{named_head, command-named_head}
use ote_stack.Handler.{Handler, State, is_root, send_to_controller_manager, ClusterMessage}
use ote_stack.Handler.Up.{dispatch, report, respond, merge_to_apiserver, handle_message_from_child}
use ote_stack.Handler.Up.Dispatch.{Carries, named_message, dispatched}
use ote_stack.Handler.Up.Merge.{newer, status_of, merge_to_apiserver_lem}

named_parts :
    (h : Handler) (head : MessageHead)
    → ((named_head h head).message_id ≡ head.message_id)
      × ((named_head h head).cluster_name ≡ head.cluster_name)
unfolding named_head
named_parts h head = ground arith

-- What the clustercontroller `origin` becomes by the response `resp` of the cluster `name`.
pub record Merged (name : String) (resp : ControllerTaskResponse) (origin new : ClusterController)
    : Type 0 where
  pub spec : new.spec ≡ origin.spec
  pub status :
      (j : String)
      → lookup j new.status ≡ (
          if name == j
          then some (newer (status_of resp) (lookup j origin.status))
          else lookup j origin.status)

module _ (wire : Wire) (api : Api) (reach : Bytes → Bool) (h : Handler) (now : ℕ)
    (client : String) where
  kept_server :
      (msg : ClusterMessage) (s : State api.Server)
      → (send_to_controller_manager wire.message reach msg s).1.server ≡ s.server
  unfolding send_to_controller_manager
  kept_server msg s = ground arith

  response_dispatched :
      (b body : Bytes) (head : MessageHead) (s : State api.Server)
      → is_root h ≡ true
      → Carries wire b head body
      → head.command ≡ control_resp
      → handle_message_from_child wire api reach h now client b s
        ≡ merge_to_apiserver wire api reach
            (named_head h head)
            body
            (send_to_controller_manager wire.message reach (named_message h head body) s).1
  unfolding dispatch report respond
  response_dispatched b body head s root carries command =
      dispatched wire api reach h now client b head body control_resp s carries command
      ∙ rw root (
          ap
            (λ k.
              respond wire api reach k (named_head h head) (named_message h head body)
                (send_to_controller_manager wire.message reach (named_message h head body) s))
            (command-named_head h head ∙ command))

  -- A control response that can be read, at the root, for a stored clustercontroller, at an apiserver
  -- whose updates succeed: afterwards the clustercontroller has the newer of the stored status and the
  -- response's for the cluster that the message names, every other cluster's status and the spec as
  -- before.
  pub response_recorded :
      (b body : Bytes) (head : MessageHead) (resp : ControllerTaskResponse)
      (origin : ClusterController) (s : State api.Server)
      → ((c : ClusterController) (t : api.Server)
          → api.get_controller c.namespace c.name (api.update_controller c t) ≡ some c)
      → is_root h ≡ true
      → Carries wire b head body
      → head.command ≡ control_resp
      → wire.response.unmarshal body ≡ some resp
      → api.get_controller cluster_namespace head.message_id s.server ≡ some origin
      → origin.namespace ≡ cluster_namespace
      → origin.name ≡ head.message_id
      → let (result, s') = handle_message_from_child wire api reach h now client b s in
        (result ≡ ok tt)
        × ((new : ClusterController) × (api.get_controller cluster_namespace head.message_id
                s'.server
              ≡ some new)
            × Merged head.cluster_name resp origin new)
  response_recorded b body head resp origin s stored root carries command read found ns id =
      let named = named_head h head in
      let s₁ = (send_to_controller_manager wire.message reach (named_message h head body) s).1 in
      let (same_id, same_name) = named_parts h head in
      let there =
        ap (λ k. api.get_controller cluster_namespace k s₁.server) same_id
        ∙ ap (api.get_controller cluster_namespace head.message_id)
            (kept_server (named_message h head body) s)
        ∙ found in
      let (done, (new, at, spec, status), _, _) =
        merge_to_apiserver_lem wire api reach named body resp origin s₁ stored read there ns
          (id ∙ sym same_id) in
      let (result, s') = merge_to_apiserver wire api reach named body s₁ in
      rw (response_dispatched b body head s root carries command) (
        done,
        (
          new,
          ap (λ k. api.get_controller cluster_namespace k s'.server) (sym same_id) ∙ at,
          record {
            spec = spec;
            status = λ j.
                status j
                ∙ ap
                    (λ n.
                      if n == j
                      then some (newer (status_of resp) (lookup j origin.status))
                      else lookup j origin.status)
                    same_name;
          },
        ),
      )
