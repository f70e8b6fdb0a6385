-- ===== src/Hub/Watch.antt =====
-- pkg/server/handler/watcher.go: the filters of a watch.
use ote_stack.Prelude.{
  String, ◌≡◌, refl, Bool, true, false, Bool-cases, inl, inr, not, ◌&&◌, ◌||◌, List, [], ◌∷◌, keep,
  if◌then◌else◌, ◌==◌, arith,
}
use ote_stack.Storage.{EdgehubStorage, list}
use ote_stack.Hub.Resource.{
  ResourceKind, Fields, is_initial, get_init_watch_event, check_is_need_to_watch,
}

module _ {Obj : Type 0} (fields : Fields Obj) where
  -- Two filters that agree keep the same.
  keep-agree :
      (p q : Obj → Bool) (objs : List Obj) → ((o : Obj) → p o ≡ q o) → keep p objs ≡ keep q objs
  keep-agree p q [] same = refl
  keep-agree p q (o ∷ objs) same = ground (arith, same o, keep-agree p q objs same)

  keep-nothing : (p : Obj → Bool) (objs : List Obj) → ((o : Obj) → p o ≡ false) → keep p objs ≡ []
  keep-nothing p [] fails = refl
  keep-nothing p (o ∷ objs) fails = ground (arith, fails o, keep-nothing p objs fails)

  -- A watch whose two filters agree: of a resource that is listed; by namespaces, or of the nodes,
  -- or of every namespace; and not of the apiserver's own endpoints but in the namespace `default`.
  abbrev pub agrees : ResourceKind → String → String → Bool
  agrees k field_selector namespace =
      k.listed
      && (if k.by_namespace
          then not (k.obj_type == "nodes")
          else k.obj_type == "nodes" || namespace == "")
      && (not (k.obj_type == "endpoints")
          || not (field_selector == "metadata.name=kubernetes")
          || namespace == "default")

  -- The first events of such a watch are of the stored objects whose later events it would send.
  pub get_init_watch_event-check_is_need_to_watch :
      (k : ResourceKind) (field_selector namespace name : String) (s : EdgehubStorage Obj)
      → agrees k field_selector namespace ≡ true
      → get_init_watch_event fields k field_selector namespace name s
        ≡ keep
            (check_is_need_to_watch fields k.obj_type field_selector namespace name)
            (list k.obj_type s)
  unfolding get_init_watch_event check_is_need_to_watch
  get_init_watch_event-check_is_need_to_watch k field_selector namespace name s h =
      let own : Bool = k.obj_type == "endpoints" && field_selector == "metadata.name=kubernetes" in
      elim (Bool-cases own) [
        | inl e ↦
            let none_needed : (o : Obj)
                → check_is_need_to_watch fields k.obj_type field_selector namespace name o ≡ false =
              λ o. ground (arith, e) in
            rw
              (keep-nothing (check_is_need_to_watch fields k.obj_type field_selector namespace name)
                (list k.obj_type s) none_needed)
              (ground (arith, e, h))
        | inr e ↦
            let same : (o : Obj)
                → is_initial fields k field_selector namespace name o
                  ≡ check_is_need_to_watch fields k.obj_type field_selector namespace name o =
              λ o. ground (arith, e, h) in
            ground (
              arith,
              e,
              h,
              keep-agree (is_initial fields k field_selector namespace name)
                  (check_is_need_to_watch fields k.obj_type field_selector namespace name)
                  (list k.obj_type s) same,
            )
      ]
