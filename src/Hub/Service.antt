-- ===== src/Hub/Service.antt =====
-- pkg/server/handler: the handlers of the routes. Reading a body, the query, and how the router finds
-- the path's parameters are a `HubRequest`.
use ote_stack.Prelude.{
  String, ℕ, Bool, Option, none, some, List, [], ◌∷◌, Fault, unsupported, request_failed,
  if◌then◌else◌, ◌==◌,
}
use ote_stack.Maps.{Map, lookup}
use ote_stack.Message.{Bytes}
use ote_stack.Text.{split_once}
use ote_stack.Storage.{EdgehubStorage, Objects}
use ote_stack.Hub.{
  Response, K8sClient, full_name, check_response_code, do_delete, do_get, do_update_put,
  do_update_patch,
}
use ote_stack.Hub.Resource.{ResourceKind, ObjectList, Fields, create, resource_list}

-- A request; its body is none where it cannot be read.
pub record HubRequest : Type 0 where
  pub resource : String
  pub namespace : String
  pub name : String
  pub request_uri : String
  pub request_body : Option Bytes
  pub watch : String
  pub field_selector : String

-- What is written: the body with status 200, an error with its status, or the answer of the watch.
pub data Written : Type 0 where
  wrote : Bytes → Written
  wrote_error : ℕ → Fault → Written
  watched : Written

-- The end of each handler
unfoldable pub finished : Response → Written
finished r = elim r.error [
  | none ↦ wrote r.body
  | some e ↦ wrote_error (if check_response_code r.code then r.code else 500) e
]

-- The address that an endpoint subset has, and its port.
pub record Subset : Type 0 where
  pub ip : String
  pub port_name : String
  pub port : ℕ
  pub protocol : String

-- `corev1.Endpoints`; `rest` is all but the subsets.
pub record Endpoints : Type 0 where
  pub subsets : List Subset
  pub rest : Bytes

-- `changeEdgehubEndpoint`
unfoldable pub change_edgehub_endpoint : Endpoints → Endpoints
change_edgehub_endpoint ep = record ep {
  subsets = record { ip = "127.0.0.1"; port_name = "https"; port = 8778; protocol = "TCP" } ∷ [];
}

-- The JSON forms that the handlers read and write.
pub record HubJson (Obj : Type 0) : Type 0 where
  pub marshal_list : ObjectList Obj → Option Bytes
  pub unmarshal_endpoints : Bytes → Option Endpoints
  pub marshal_endpoints : Endpoints → Option Bytes

module _ {Obj : Type 0} (json : HubJson Obj) where
  -- `handleK3sGetEndpoint`
  unfoldable pub handle_k3s_get_endpoint : Bytes → Bytes
  unfolding change_edgehub_endpoint
  handle_k3s_get_endpoint data' = elim (json.unmarshal_endpoints data') [
    | none ↦ []
    | some endpoint ↦ elim (json.marshal_endpoints (change_edgehub_endpoint endpoint)) [
      | none ↦ []
      | some ret ↦ ret
    ]
  ]

  -- The end of `getHandler`
  unfoldable pub got : String → Response → Response
  unfolding handle_k3s_get_endpoint
  got uri r = elim r.error [
    | some e ↦ r
    | none ↦
        if uri == "/api/v1/namespaces/default/endpoints/kubernetes"
        then record r { body = handle_k3s_get_endpoint r.body }
        else r
  ]

-- `strings.Split(uri, "?")[0]`
unfoldable pub path_of : String → String
path_of uri = elim (split_once "?" uri) [ none ↦ uri | some (path, query) ↦ path ]

module _ {Obj : Type 0} (handlers : Map ResourceKind) where
  -- What the handlers of changes share: the body, the resource, then the work.
  unfoldable pub changes :
      (ResourceKind → Bytes → EdgehubStorage Obj → Response × EdgehubStorage Obj)
      → HubRequest
      → EdgehubStorage Obj
      → Written × EdgehubStorage Obj
  unfolding finished
  changes work r s = elim r.request_body [
    | none ↦ (wrote_error 400 request_failed, s)
    | some body ↦ elim (lookup r.resource handlers) [
      | none ↦ (wrote_error 400 unsupported, s)
      | some k ↦ let (result, s') = work k body s in (finished result, s')
    ]
  ]

module _ {Obj : Type 0} (client : K8sClient) (objects : Objects Obj) (disk remote : Bool) where
  -- The call of `Create` with the request's parameters
  abbrev pub create_call :
      HubRequest → ResourceKind → Bytes → EdgehubStorage Obj → Response × EdgehubStorage Obj
  create_call r k body = create client objects disk remote k body r.request_uri

  -- The call of `Delete` with the request's parameters
  abbrev pub delete_call :
      HubRequest → ResourceKind → Bytes → EdgehubStorage Obj → Response × EdgehubStorage Obj
  delete_call r k body =
      do_delete client objects disk remote k.obj_type (full_name r.namespace r.name) r.request_uri
        body

  -- The call of `UpdatePut` with the request's parameters
  abbrev pub update_put_call :
      HubRequest → ResourceKind → Bytes → EdgehubStorage Obj → Response × EdgehubStorage Obj
  update_put_call r k body =
      do_update_put client objects disk remote k.obj_type (full_name r.namespace r.name)
        r.request_uri body

  -- The call of `UpdatePatch` with the request's parameters
  abbrev pub update_patch_call :
      HubRequest → ResourceKind → Bytes → EdgehubStorage Obj → Response × EdgehubStorage Obj
  update_patch_call r k body =
      do_update_patch client objects disk remote k.obj_type (full_name r.namespace r.name)
        r.request_uri body

module _ {Obj : Type 0} (client : K8sClient) (objects : Objects Obj) (disk remote : Bool)
    (handlers : Map ResourceKind) where
  -- `createHandler`
  unfoldable pub create_handler : HubRequest → EdgehubStorage Obj → Written × EdgehubStorage Obj
  unfolding changes
  create_handler r = changes handlers (create_call client objects disk remote r) r

  -- `deleteHandler`
  unfoldable pub delete_handler : HubRequest → EdgehubStorage Obj → Written × EdgehubStorage Obj
  unfolding changes
  delete_handler r = changes handlers (delete_call client objects disk remote r) r

  -- `updatePutHandler`
  unfoldable pub update_put_handler : HubRequest → EdgehubStorage Obj → Written × EdgehubStorage Obj
  unfolding changes
  update_put_handler r = changes handlers (update_put_call client objects disk remote r) r

  -- `updatePatchHandler`
  unfoldable pub update_patch_handler :
      HubRequest → EdgehubStorage Obj → Written × EdgehubStorage Obj
  unfolding changes
  update_patch_handler r = changes handlers (update_patch_call client objects disk remote r) r

module _ {Obj : Type 0} (objects : Objects Obj) (json : HubJson Obj) (fields : Fields Obj)
    (handlers : Map ResourceKind) where
  -- `getHandler`
  unfoldable pub get_handler : HubRequest → EdgehubStorage Obj → Written
  unfolding got finished
  get_handler r s = if r.watch == "true" then watched else elim (lookup r.resource handlers) [
    | none ↦ wrote_error 400 unsupported
    | some k ↦
        finished
          (got json r.request_uri (do_get objects k.obj_type (full_name r.namespace r.name) s))
  ]

  -- `listHandler`
  unfoldable pub list_handler : HubRequest → EdgehubStorage Obj → Written
  unfolding finished
  list_handler r s = if r.watch == "true" then watched else elim (lookup r.resource handlers) [
    | none ↦ wrote_error 400 unsupported
    | some k ↦ finished (
        resource_list fields json.marshal_list k r.field_selector r.namespace
          (path_of r.request_uri) s)
  ]
