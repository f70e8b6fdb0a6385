-- ===== src/Hub/Answers.antt =====
-- pkg/server/handler: what the handlers answer from the storage.
use ote_stack.Prelude.{
  String, ◌≡◌, refl, none, some, not_found, arith, Option-cases, ◌==◌, true, false, Bool, Fault,
  err, no_type, inl, inr,
}
use ote_stack.Maps.{lookup, Map}
use ote_stack.Message.{Bytes}
use ote_stack.Storage.{EdgehubStorage, Objects, get, item}
use ote_stack.Storage.Access.{held}
use ote_stack.Hub.Service.{HubRequest, HubJson, finished, changes, got}
use ote_stack.Hub.Resource.{ResourceKind}
use ote_stack.Hub.{Response, answered, failed, do_get, data_of, true, false}

module _ {Obj : Type 0} (objects : Objects Obj) where
  -- A stored object is answered in its JSON form.
  pub do_get-held :
      (t key : String) (obj : Obj) (bytes : Bytes) (s : EdgehubStorage Obj)
      → held t key s.cache ≡ some obj
      → objects.encode obj ≡ some bytes
      → do_get objects t key s ≡ answered bytes
  unfolding do_get data_of get item
  do_get-held t key obj bytes s there encoded = elim (Option-cases (lookup t s.cache)) [
    | inl e ↦ absurd (ground (arith, e, there))
    | inr (indexer, e) ↦
        let found : lookup key indexer ≡ some obj = ground (arith, e, there) in
        rw (e, do_get) (rw found (rw encoded refl))
  ]

  pub get-missing :
      (t key : String) (b : Bool) (s : EdgehubStorage Obj)
      → held t key s.cache ≡ none
      → (e : Fault) × (get objects t key b s ≡ err e)
  unfolding get
  get-missing t key b s gone = elim (Option-cases (lookup t s.cache)) [
    | inl e ↦ (no_type, rw (e, get) refl)
    | inr (indexer, e) ↦
        let found : lookup key indexer ≡ none = ground (arith, e, gone) in
        (not_found, rw (e, get) (rw found refl))
  ]

  -- One that is not stored is not found.
  pub do_get-missing :
      (t key : String) (s : EdgehubStorage Obj)
      → held t key s.cache ≡ none
      → do_get objects t key s ≡ failed 404 not_found
  unfolding do_get
  do_get-missing t key s gone =
      let (e, refused) = get-missing t key true s gone in rw (refused, do_get) refl

pub got-other :
    {Obj : Type 0} (json : HubJson Obj) (uri : String) (x : Response)
    → (uri == "/api/v1/namespaces/default/endpoints/kubernetes") ≡ false
    → got json uri x ≡ x
unfolding got
got-other json uri x other = elim (Option-cases x.error) [
  | inl e ↦ ground (arith, e, other)
  | inr (f, e) ↦ ground (arith, e)
]

-- A change whose body and resource are fine.
pub changes-handled :
    {Obj : Type 0} (handlers : Map ResourceKind)
    (work : ResourceKind → Bytes → EdgehubStorage Obj → Response × EdgehubStorage Obj)
    (k : ResourceKind) (r : HubRequest) (body : Bytes) (s : EdgehubStorage Obj)
    → r.request_body ≡ some body
    → lookup r.resource handlers ≡ some k
    → changes handlers work r s ≡ (finished (work k body s).0, (work k body s).1)
unfolding changes
changes-handled handlers work k r body s sent handled = rw (sent, changes) (rw handled refl)
