-- ===== src/Hub.antt =====
-- pkg/server/handler: what the edge hub does for a request to the Kubernetes API, at the apiserver
-- while the backends are healthy and in its storage otherwise. The apiserver's answers, the JSON
-- forms and the keys are parameters.
pub mod Resource
pub mod Kinds
pub mod Service
pub mod Status
pub mod Answers
pub mod Lifecycle
pub mod Watch
pub mod Session
use ote_stack.Prelude.{
  String, ℕ, Bool, true, false, ◌||◌, Option, none, some, Result, ok, err, Fault, already_exists,
  not_found, if◌then◌else◌, ◌==◌, ltb, [],
}
use ote_stack.Message.{Bytes}
use Prim.Native.String.{◌++◌}
use ote_stack.Text.{split_once}
use ote_stack.Storage.{EdgehubStorage, Objects, Item, object, serialized, get, update, delete}

-- `Response`; the code counts only with an error.
pub record Response : Type 0 where
  pub code : ℕ
  pub error : Option Fault
  pub body : Bytes

abbrev pub answered : Bytes → Response
answered body = record { code = 0; error = none; body = body }

abbrev pub failed : ℕ → Fault → Response
failed code e = record { code = code; error = some e; body = [] }

-- The verbs of the requests that go to the apiserver.
pub data Verb : Type 0 where
  posts deletes puts patches : Verb

-- What `Do` returns: the status code, 0 without an answer, and `Raw`.
pub record ApiResult : Type 0 where
  pub status : ℕ
  pub raw : Result Bytes

abbrev pub K8sClient : Type 0
K8sClient = Verb → String → Bytes → ApiResult

-- `util.FormKeyName`
unfoldable pub full_name : String → String → String
full_name namespace name = if namespace == "" then name else namespace ++ "/" ++ name

-- `CheckResponseCode`
abbrev pub check_response_code : ℕ → Bool
check_response_code code = if ltb code 100 || ltb 999 code then false else true

first_part : String → String
first_part s = elim (split_once "=" s) [ none ↦ s | some (part, rest) ↦ part ]

-- `IsFilterFromQueryParams`
unfoldable pub is_filter_from_query_params : String → String → String → Bool
unfolding first_part
is_filter_from_query_params field_selector node_name name =
    if field_selector == "" then true else elim (split_once "=" field_selector) [
      | none ↦ true
      | some (field, rest) ↦
          if field == "metadata.name"
          then first_part rest == name
          else if field == "spec.nodeName"
          then first_part rest == node_name
          else true
    ]

module _ (client : K8sClient) where
  -- The first branch of the `Do...` functions
  unfoldable pub forwarded : Verb → String → Bytes → Response
  forwarded verb uri body =
      let result = client verb uri body in
      elim result.raw [ ok raw ↦ answered raw | err e ↦ failed result.status e ]

module _ {Obj : Type 0} where
  -- The answer after a change of the storage
  pub written : Response → Result (Unit {0}) × EdgehubStorage Obj → Response × EdgehubStorage Obj
  written response (ok u, s) = (response, s)
  written response (err e, s) = (failed 500 e, s)

  -- `data.([]byte)`; `Get` never returns the object itself where it is asked for the JSON form.
  pub data_of : Item Obj → Bytes
  data_of (object obj) = []
  data_of (serialized data') = data'

module _ {Obj : Type 0} (client : K8sClient) (objects : Objects Obj) (disk remote : Bool) where
  -- `DoCreate`
  unfoldable pub do_create :
      String → String → String → Bytes → EdgehubStorage Obj → Response × EdgehubStorage Obj
  unfolding forwarded written
  do_create obj_type key uri body s =
      if remote
      then (forwarded client posts uri body, s)
      else elim (get objects obj_type key false s) [
        | ok obj ↦ (failed 409 already_exists, s)
        | err e ↦ written (answered body) (update objects disk obj_type key body s)
      ]

  -- `DoDelete`
  unfoldable pub do_delete :
      String → String → String → Bytes → EdgehubStorage Obj → Response × EdgehubStorage Obj
  unfolding forwarded written
  do_delete obj_type key uri body s =
      if remote
      then (forwarded client deletes uri body, s)
      else written (record { code = 200; error = none; body = [] })
          (delete objects disk obj_type key s)

  -- `DoUpdatePut`
  unfoldable pub do_update_put :
      String → String → String → Bytes → EdgehubStorage Obj → Response × EdgehubStorage Obj
  unfolding forwarded written
  do_update_put obj_type key uri body s =
      if remote
      then (forwarded client puts uri body, s)
      else written (answered body) (update objects disk obj_type key body s)

  -- `DoUpdatePatch`; the storage is not patched.
  unfoldable pub do_update_patch :
      String → String → String → Bytes → EdgehubStorage Obj → Response × EdgehubStorage Obj
  unfolding forwarded data_of
  do_update_patch obj_type key uri body s =
      if remote
      then (forwarded client patches uri body, s)
      else elim (get objects obj_type key true s) [
        | err e ↦ (failed 500 e, s)
        | ok found ↦ (answered (data_of found), s)
      ]

module _ {Obj : Type 0} (objects : Objects Obj) where
  -- `DoGet`, which only reads the storage.
  unfoldable pub do_get : String → String → EdgehubStorage Obj → Response
  unfolding data_of
  do_get obj_type key s = elim (get objects obj_type key true s) [
    | err e ↦ failed 404 not_found
    | ok found ↦ answered (data_of found)
  ]
