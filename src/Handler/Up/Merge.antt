-- ===== src/Handler/Up/Merge.antt =====
-- Responses and status updates at the root's apiserver.
use mathlib.Core.Path.{subst₂}
use ote_stack.Prelude.{
  ok, refl, ℕ, String, ◌≡◌, Bool, true, Option, none, some, arith, eq_iff, if◌then◌else◌, ◌==◌, err,
  nil_dereference, ltb,
}
use ote_stack.Maps.{Map, lookup, lookup-insert}
use ote_stack.Message.{Bytes, MessageHead, control_resp, ControllerTaskResponse}
use ote_stack.Crd.{Api, ClusterController, ClusterControllerStatus, cluster_namespace}
use ote_stack.Wire.{Wire}
use ote_stack.Handler.Down.{command-named_head}
use ote_stack.Handler.{Handler, State, is_root}
use ote_stack.Handler.Up.Dispatch.{Carries}
use ote_stack.Handler.Up.{merge_status, merge_to_apiserver, handle_message_from_child}

-- The newer of what is stored and what comes in; the stored one stays where neither is newer.
abbrev pub newer :
    ClusterControllerStatus → Option ClusterControllerStatus → ClusterControllerStatus
newer status none = status
newer status (some origin) = if ltb origin.timestamp status.timestamp then status else origin

-- A merged response leaves the newer of the stored status and its own for its cluster, the stored
-- one where neither is newer, and every other cluster's status.
pub lookup-merge_status :
    (cn j : String) (status : ClusterControllerStatus) (m : Map ClusterControllerStatus)
    → lookup j (merge_status cn status m)
      ≡ (if cn == j then some (newer status (lookup j m)) else lookup j m)
unfolding merge_status
lookup-merge_status cn j status m = ground (arith, lookup-insert cn j status m, eq_iff cn j)

-- At the root a control response whose body is no response dereferences nil, whatever the state.
malformed_response_panics :
    (wire : Wire) (api : Api) (reach : Bytes → Bool) (h : Handler) (now : ℕ) (client : String)
    (data' : Bytes) (head : MessageHead) (body : Bytes) (s : State api.Server)
    → is_root h ≡ true
    → Carries wire data' head body
    → head.command ≡ control_resp
    → wire.response.unmarshal body ≡ none
    → (handle_message_from_child wire api reach h now client data' s).0 ≡ err nil_dereference
unfolding handle_message_from_child merge_to_apiserver
malformed_response_panics wire api reach h now client data' head body s root carries command bad =
    ground (arith, command-named_head h head)

-- The status that a response makes.
abbrev pub status_of : ControllerTaskResponse → ClusterControllerStatus
status_of resp = record {
  timestamp = resp.timestamp;
  status_code = resp.status_code;
  body = resp.body;
}

-- A response that can be read, to a stored clustercontroller, at an apiserver whose updates succeed:
-- afterwards the clustercontroller has the newer of the stored status and the response's for the
-- cluster that responds, every other cluster's status as before, and the same spec; nothing is sent
-- and no route changes.
pub merge_to_apiserver_lem :
    (wire : Wire) (api : Api) (reach : Bytes → Bool) (head : MessageHead) (body : Bytes)
    (resp : ControllerTaskResponse) (origin : ClusterController) (s : State api.Server)
    → ((c : ClusterController) (t : api.Server)
        → api.get_controller c.namespace c.name (api.update_controller c t) ≡ some c)
    → wire.response.unmarshal body ≡ some resp
    → api.get_controller cluster_namespace head.message_id s.server ≡ some origin
    → origin.namespace ≡ cluster_namespace
    → origin.name ≡ head.message_id
    → let (result, s') = merge_to_apiserver wire api reach head body s in
      (result ≡ ok tt)
      × ((new : ClusterController) × (api.get_controller cluster_namespace head.message_id s'.server
            ≡ some new)
          × (new.spec ≡ origin.spec)
          × ((j : String)
              → lookup j new.status ≡ (
                  if head.cluster_name == j
                  then some (newer (status_of resp) (lookup j origin.status))
                  else lookup j origin.status)))
      × (s'.router ≡ s.router)
      × (s'.effects ≡ s.effects)
unfolding merge_to_apiserver
merge_to_apiserver_lem wire api reach head body resp origin s stored read found ns id =
    let new : ClusterController = record origin {
      status = merge_status head.cluster_name (status_of resp) origin.status;
    } in
    (
      rw (read, merge_to_apiserver) (rw found refl),
      (
        new,
        rw (read, merge_to_apiserver)
            (rw found (
              subst₂ (λ a b. api.get_controller a b (api.update_controller new s.server) ≡ some new)
                ns id (stored new s.server))),
        refl,
        λ j. lookup-merge_status head.cluster_name j (status_of resp) origin.status,
      ),
      rw (read, merge_to_apiserver) (rw found refl),
      rw (read, merge_to_apiserver) (rw found refl),
    )
