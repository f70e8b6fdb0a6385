-- ===== src/Hub/Resource.antt =====
-- pkg/server/*/resource: the handlers of the resources, which repeat one another. A `ResourceKind`
-- has what they do differently.
use ote_stack.Prelude.{
  String, Bool, false, not, ◌&&◌, ◌||◌, Option, none, some, List, [], if◌then◌else◌, ◌==◌,
  marshal_failed, unmarshal_failed, bad_key_name, keep,
}
use ote_stack.Message.{Bytes}
use ote_stack.Storage.{EdgehubStorage, Objects, list}
use ote_stack.Hub.{Response, answered, failed, K8sClient, is_filter_from_query_params, do_create}

pub record ResourceKind : Type 0 where
  pub obj_type : String
  pub list_kind : String
  pub api_version : String
  pub list_version : String
  -- Does `Create` make the key from the body? It is empty otherwise.
  pub keyed : Bool
  -- Do `List` and `GetInitWatchEvent` look at the storage?
  pub listed : Bool
  -- Do they pass the objects of the namespace alone?
  pub by_namespace : Bool

-- The fields of an object that the filters read.
pub record Fields (Obj : Type 0) : Type 0 where
  pub namespace_of : Obj → String
  pub name_of : Obj → String
  pub node_name_of : Obj → String

-- The list of the objects, such as `PodList`
pub record ObjectList (Obj : Type 0) : Type 0 where
  pub kind : String
  pub api_version : String
  pub self_link : String
  pub resource_version : String
  pub items : List Obj

module _ {Obj : Type 0} (client : K8sClient) (objects : Objects Obj) (disk remote : Bool) where
  -- `Create`
  unfoldable pub create :
      ResourceKind → Bytes → String → EdgehubStorage Obj → Response × EdgehubStorage Obj
  create k body uri s =
      if k.keyed
      then elim (objects.decode k.obj_type body) [
        | none ↦ (failed 400 unmarshal_failed, s)
        | some obj ↦ elim (objects.key_of obj) [
          | none ↦ (failed 400 bad_key_name, s)
          | some key ↦ do_create client objects disk remote k.obj_type key uri body s
        ]
      ]
      else do_create client objects disk remote k.obj_type "" uri body s

module _ {Obj : Type 0} (fields : Fields Obj) where
  -- The node's name, which only the pods have.
  abbrev pub node_name : String → Obj → String
  node_name obj_type obj = if obj_type == "pods" then fields.node_name_of obj else ""

  -- Does the loop of `List` pass the object?
  abbrev pub is_listed : ResourceKind → String → String → Obj → Bool
  is_listed k field_selector namespace obj =
      (not k.by_namespace || namespace == "" || fields.namespace_of obj == namespace)
      && is_filter_from_query_params field_selector (node_name k.obj_type obj) (fields.name_of obj)

  -- `List`, with `json.Marshal`; the handlers that do not list answer nothing.
  unfoldable pub resource_list :
      (ObjectList Obj → Option Bytes)
      → ResourceKind
      → String
      → String
      → String
      → EdgehubStorage Obj
      → Response
  resource_list marshal k field_selector namespace uri s =
      let items : List Obj = keep (is_listed k field_selector namespace) (list k.obj_type s) in
      let result : ObjectList Obj = record {
        kind = k.list_kind;
        api_version = k.api_version;
        self_link = uri;
        resource_version = k.list_version;
        items = items;
      } in
      if k.listed
      then elim (marshal result) [ none ↦ failed 500 marshal_failed | some data' ↦ answered data' ]
      else answered []

  -- Does the loop of `GetInitWatchEvent` pass the object?
  abbrev pub is_initial : ResourceKind → String → String → String → Obj → Bool
  is_initial k field_selector namespace name obj =
      (name == "" || fields.name_of obj == name) && is_listed k field_selector namespace obj

  -- `GetInitWatchEvent`: the objects of its events, which are all of the type `ADDED`. A k3s agent's
  -- watch of the apiserver's own endpoints gets none.
  unfoldable pub get_init_watch_event :
      ResourceKind → String → String → String → EdgehubStorage Obj → List Obj
  get_init_watch_event k field_selector namespace name s =
      let found : List Obj =
        keep (is_initial k field_selector namespace name) (list k.obj_type s) in
      if k.obj_type == "endpoints"
        && namespace == "default"
        && field_selector == "metadata.name=kubernetes"
      then []
      else if k.listed
      then found
      else []

  -- `checkIsNeedToWatch`
  unfoldable pub check_is_need_to_watch : String → String → String → String → Obj → Bool
  check_is_need_to_watch obj_type field_selector namespace name obj =
      let right_name : Bool = name == "" || fields.name_of obj == name in
      let right_namespace : Bool = namespace == "" || fields.namespace_of obj == namespace in
      if field_selector == "metadata.name=kubernetes" && obj_type == "endpoints"
      then false
      else if is_filter_from_query_params field_selector (node_name obj_type obj)
          (fields.name_of obj)
      then (if obj_type == "nodes" then right_name else right_namespace && right_name)
      else false
