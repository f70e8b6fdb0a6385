-- ===== src/Hub/Lifecycle.antt =====
-- pkg/server/handler without the backends: an object from its creation to its deletion.
use ote_stack.Prelude.{
  String, ◌≡◌, refl, none, some, not_found, arith, eq_iff, eq_refl, ◌&&◌, if◌then◌else◌, ap, ok,
  already_exists, Bool, write_failed, ◌==◌, true, false, [], ◌∙◌,
}
use ote_stack.Maps.{lookup, Map}
use ote_stack.Message.{Bytes}
use ote_stack.Storage.{update, delete, EdgehubStorage, Objects, object, get}
use ote_stack.Storage.Access.{held, WellKeyed, update_lem, delete_lem, get-held}
use ote_stack.Hub.Service.{
  HubRequest, HubJson, wrote, wrote_error, finished, create_handler, create_call, delete_call,
  delete_handler, get_handler, got,
}
use ote_stack.Hub.Resource.{ResourceKind, Fields, create}
use ote_stack.Hub.{
  K8sClient, written, do_create, do_delete, full_name, answered, failed, do_get, K8sClient, true,
  false, update,
}
use ote_stack.Hub.Answers.{do_get-held, get-missing, do_get-missing, got-other, changes-handled}

module _ {Obj : Type 0} (client : K8sClient) (objects : Objects Obj) (json : HubJson Obj)
    (fields : Fields Obj) (handlers : Map ResourceKind) (k : ResourceKind) (r : HubRequest)
    (body bytes : Bytes) (obj : Obj) (indexer : Map Obj) (s : EdgehubStorage Obj)
    (handled : lookup r.resource handlers ≡ some k) (with_key : k.keyed ≡ true)
    (sent : r.request_body ≡ some body) (decoded : objects.decode k.obj_type body ≡ some obj)
    (named : objects.key_of obj ≡ some (full_name r.namespace r.name))
    (encoded : objects.encode obj ≡ some bytes) (off : s.remote_enable ≡ false)
    (cached : lookup k.obj_type s.cache ≡ some indexer) (keyed : WellKeyed objects s.cache) where
  key : String
  key = full_name r.namespace r.name

  created : EdgehubStorage Obj
  created = (update objects true k.obj_type key body s).1

  -- `Create` comes to the end, with what `Get` says of the key.
  create_call_lem :
      (disk : Bool) (t : EdgehubStorage Obj)
      → create_call client objects disk false r k body t
        ≡ do_create client objects disk false k.obj_type key r.request_uri body t
  unfolding create key
  create_call_lem disk t = rw (with_key, create) (rw decoded (rw named refl))

  -- A creation of an object that is not stored.
  creation :
      held k.obj_type key s.cache ≡ none
      → create_handler client objects true false handlers r s ≡ (wrote body, created)
  unfolding create_handler finished do_create written created update
  creation fresh =
      let (e, refused) = get-missing objects k.obj_type key false s fresh in
      let made : do_create client objects true false k.obj_type key r.request_uri body s
          ≡ (answered body, created) =
        rw (refused, do_create) refl in
      changes-handled handlers (create_call client objects true false r) k r body s sent handled
      ∙ ap (λ p. (finished p.0, p.1)) (create_call_lem true s ∙ made)

  -- One of an object that is stored.
  conflict :
      (t : EdgehubStorage Obj)
      → get objects k.obj_type key false t ≡ ok (object obj)
      → create_handler client objects true false handlers r t ≡ (wrote_error 409 already_exists, t)
  unfolding create_handler finished do_create
  conflict t there =
      let refused : do_create client objects true false k.obj_type key r.request_uri body t
          ≡ (failed 409 already_exists, t) =
        rw (there, do_create) refl in
      changes-handled handlers (create_call client objects true false r) k r body t sent handled
      ∙ ap (λ p. (finished p.0, p.1)) (create_call_lem true t ∙ refused)

  deleted : EdgehubStorage Obj
  deleted = (delete objects true k.obj_type key created).1

  deletion : delete_handler client objects true false handlers r created ≡ (wrote [], deleted)
  unfolding delete_handler finished do_delete written deleted delete key
  deletion =
      changes-handled handlers (delete_call client objects true false r) k r body created sent
        handled

  -- A read that is neither a watch nor of the apiserver's own endpoints.
  reading :
      (t : EdgehubStorage Obj)
      → (r.watch == "true") ≡ false
      → (r.request_uri == "/api/v1/namespaces/default/endpoints/kubernetes") ≡ false
      → get_handler objects json fields handlers r t ≡ finished (do_get objects k.obj_type key t)
  unfolding get_handler got finished key
  reading t once other =
      rw (once, get_handler)
        (rw handled
          (ap finished (got-other json r.request_uri (do_get objects k.obj_type key t) other)))

  held-created :
      (t k' : String)
      → held t k' created.cache
        ≡ (if k.obj_type == t && key == k' then some obj else held t k' s.cache)
  unfolding created key
  held-created = (update_lem objects k.obj_type key body obj indexer s off cached decoded named).2

  created-WellKeyed : WellKeyed objects created.cache
  unfolding key
  created-WellKeyed t k' o there =
      ground (arith, held-created t k', keyed t k' o, named, eq_iff key k')

  held-deleted :
      (t k' : String)
      → held t k' deleted.cache
        ≡ (if k.obj_type == t && key == k' then none else held t k' created.cache)
  unfolding deleted created update key
  held-deleted = (delete_lem objects k.obj_type key created off created-WellKeyed).1

  -- Without the backends, and while LevelDB takes the writes: an object that is not stored is created
  -- and then read; a second creation of it is a conflict; after its deletion it is not found, and the
  -- caches hold for every key what they held before.
  pub offline_lifecycle :
      held k.obj_type (full_name r.namespace r.name) s.cache ≡ none
      → (r.watch == "true") ≡ false
      → (r.request_uri == "/api/v1/namespaces/default/endpoints/kubernetes") ≡ false
      → let (reply, s1) = create_handler client objects true false handlers r s in
        let (reply', s2) = delete_handler client objects true false handlers r s1 in
        (reply ≡ wrote body)
        × (get_handler objects json fields handlers r s1 ≡ wrote bytes)
        × ((create_handler client objects true false handlers r s1).0
            ≡ wrote_error 409 already_exists)
        × (reply' ≡ wrote [])
        × (get_handler objects json fields handlers r s2 ≡ wrote_error 404 not_found)
        × ((t k' : String) → held t k' s2.cache ≡ held t k' s.cache)
  unfolding finished key
  offline_lifecycle fresh once other =
      let there : held k.obj_type key created.cache ≡ some obj =
        ground (arith, held-created k.obj_type key, eq_refl k.obj_type, eq_refl key) in
      let gone : held k.obj_type key deleted.cache ≡ none =
        ground (arith, held-deleted k.obj_type key, eq_refl k.obj_type, eq_refl key) in
      let missing : get_handler objects json fields handlers r deleted ≡ wrote_error 404 not_found =
        reading deleted once other
        ∙ ap finished (do_get-missing objects k.obj_type key deleted gone) in
      rw (creation fresh) (
        rw deletion (
          refl,
          reading created once other
              ∙ ap finished (do_get-held objects k.obj_type key obj bytes created there encoded),
          ap (λ p. p.0) (conflict created (get-held objects k.obj_type key obj created there)),
          refl,
          missing,
          λ t k'. ground (
            arith,
            held-deleted t k',
            held-created t k',
            fresh,
            eq_iff k.obj_type t,
            eq_iff key k',
          ),
        ))

  half_created : EdgehubStorage Obj
  half_created = (update objects false k.obj_type key body s).1

  held-half_created : held k.obj_type key half_created.cache ≡ some obj
  unfolding half_created created update
  held-half_created = ground (arith, held-created k.obj_type key, eq_refl k.obj_type, eq_refl key)

  refused_creation :
      held k.obj_type key s.cache ≡ none
      → create_handler client objects false false handlers r s
        ≡ (wrote_error 500 write_failed, half_created)
  unfolding create_handler finished do_create written half_created update
  refused_creation fresh =
      let (e, refused) = get-missing objects k.obj_type key false s fresh in
      let made : do_create client objects false false k.obj_type key r.request_uri body s
          ≡ (failed 500 write_failed, half_created) =
        rw (refused, do_create) refl in
      changes-handled handlers (create_call client objects false false r) k r body s sent handled
      ∙ ap (λ p. (finished p.0, p.1)) (create_call_lem false s ∙ made)

  -- Without the backends, and while LevelDB refuses the writes: the creation of an object that is not
  -- stored answers status 500, and yet a read then answers the object.
  pub refused_creation_served :
      held k.obj_type (full_name r.namespace r.name) s.cache ≡ none
      → (r.watch == "true") ≡ false
      → (r.request_uri == "/api/v1/namespaces/default/endpoints/kubernetes") ≡ false
      → let (reply, s1) = create_handler client objects false false handlers r s in
        (reply ≡ wrote_error 500 write_failed)
        × (get_handler objects json fields handlers r s1 ≡ wrote bytes)
  unfolding finished key
  refused_creation_served fresh once other = rw (refused_creation fresh) (
    refl,
    reading half_created once other
        ∙ ap finished
            (do_get-held objects k.obj_type key obj bytes half_created held-half_created encoded),
  )
