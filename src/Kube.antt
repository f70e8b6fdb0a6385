-- ===== src/Kube.antt =====
-- Kubernetes objects and their client, as pkg/reporter and pkg/controllermanager use them.
-- The client and the apiserver behind it are a parameter, `Client`. A structure that the code only
-- copies is its text, and an edge version is a natural number, as Kubernetes makes them.
pub mod Reliable
use ote_stack.Prelude.{ℕ, String, Bool, Option, none, some, List}
use ote_stack.Maps.{Map, lookup}
use ote_stack.Crd.{Answer}

-- `labels` is none for a nil map, and `deletion_timestamp` says that the field is set.
pub record ObjectMeta : Type 0 where
  pub name : String
  pub namespace : String
  pub uid : String
  pub resource_version : String
  pub labels : Option (Map String)
  pub annotations : Map String
  pub deletion_timestamp : Bool

pub record Resource (Spec Status : Type 0) : Type 0 where
  pub meta : ObjectMeta
  pub spec : Spec
  pub status : Status

-- Go's `m[key]` on a map that may be nil: a missing key reads as the empty text.
abbrev pub read_map : String → Option (Map String) → String
read_map key none = ""
read_map key (some m) = elim (lookup key m) [ none ↦ "" | some value ↦ value ]

-- What a `Get` returns: an object, the error that there is none, or any other error.
pub data Got (R : Type 0) : Type 0 where
  got : R → Got R
  missing failed : Got R

-- The client for one kind of objects. The Booleans say that no error is returned; `list label value`
-- is the `List` of all namespaces with the selector `label=value`.
pub record Client (R : Type 0) : Type 1 where
  pub Store : Type 0
  pub get : String → String → Store → Got R
  pub create : R → Store → Bool × Store
  pub update : R → Store → Answer × Store
  pub update_status : R → Store → Answer × Store
  pub delete : String → String → Store → Bool × Store
  pub list : String → String → Store → Option (List R)
  pub retry_on_conflict : (S : Type 0) → (S → Answer × S) → S → Answer × S
