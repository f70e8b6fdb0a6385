-- ===== src/Hub/Status.antt =====
-- pkg/server/handler: the statuses of the answers. `WriteError` passes a status to `WriteHeader`, which
-- takes three digits.
use ote_stack.Prelude.{Bool, ◌≤◌}
use ote_stack.Maps.{Map}
use ote_stack.Storage.{EdgehubStorage, Objects}
use ote_stack.Hub.{K8sClient}
use ote_stack.Hub.Resource.{ResourceKind, Fields}
use ote_stack.Hub.Service.{
  HubRequest, HubJson, Written, wrote, wrote_error, watched, create_handler, delete_handler,
  update_put_handler, update_patch_handler, get_handler, list_handler,
}

-- The handlers of the routes.
pub data Route : Type 0 where
  creating deleting putting patching getting listing : Route

-- A status of three digits, if there is one
abbrev pub ThreeDigits : Written → Type 0
ThreeDigits (wrote body) = Unit
ThreeDigits (wrote_error code e) = (100 ≤ code) × (code ≤ 999)
ThreeDigits watched = Unit

module _ {Obj : Type 0} (client : K8sClient) (objects : Objects Obj) (disk remote : Bool)
    (json : HubJson Obj) (fields : Fields Obj) (handlers : Map ResourceKind) where
  -- The handler of a route.
  pub routed : Route → HubRequest → EdgehubStorage Obj → Written × EdgehubStorage Obj
  routed creating = create_handler client objects disk remote handlers
  routed deleting = delete_handler client objects disk remote handlers
  routed putting = update_put_handler client objects disk remote handlers
  routed patching = update_patch_handler client objects disk remote handlers
  routed getting = λ r s. (get_handler objects json fields handlers r s, s)
  routed listing = λ r s. (list_handler objects json fields handlers r s, s)
