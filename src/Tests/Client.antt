-- ===== src/Tests/Client.antt =====
-- A client of an apiserver with room for one object.
use ote_stack.Prelude.{
  String, ◌≡◌, ◌≢◌, refl, ap, Bool, true, false, ◌&&◌, inl, inr, Option, none, some, List, [], ◌∷◌,
  if◌then◌else◌, ◌==◌, eq_iff, eq_refl, arith, Bool-cases, ◌∙◌,
}
use mathlib.Core.Path.{subst}
use ote_stack.Crd.{Answer, done, refused}
use ote_stack.Kube.{Resource, Client, Got, got, missing, failed, read_map}
use ote_stack.Kube.Reliable.{Reliable, Deletes, Lists, names, is_in, has_label}

module _ {Spec Status : Type 0} where
  abbrev find : String → String → Option (Resource Spec Status) → Got (Resource Spec Status)
  find ns n none = missing
  find ns n (some r) = if names r.meta ns n then got r else missing

  abbrev add :
      Resource Spec Status → Option (Resource Spec Status) → Bool × Option (Resource Spec Status)
  add r none = (true, some r)
  add r (some old) = (false, some old)

  abbrev replace :
      Resource Spec Status → Option (Resource Spec Status) → Answer × Option (Resource Spec Status)
  replace r none = (refused, none)
  replace r (some old) =
      if names old.meta r.meta.namespace r.meta.name then (done, some r) else (refused, some old)

  abbrev remove :
      String → String → Option (Resource Spec Status) → Bool × Option (Resource Spec Status)
  remove ns n none = (false, none)
  remove ns n (some r) = if names r.meta ns n then (true, none) else (false, some r)

  abbrev list_of :
      String → String → Option (Resource Spec Status) → Option (List (Resource Spec Status))
  list_of label value none = some []
  list_of label value (some r) =
      if read_map label r.meta.labels == value then some (r ∷ []) else some []

  abbrev pub one_object : Client (Resource Spec Status)
  one_object = record {
    Store = Option (Resource Spec Status);
    get = find;
    create = add;
    update = replace;
    update_status = replace;
    delete = remove;
    list = list_of;
    retry_on_conflict = λ S f s. f s;
  }

  named_itself : (r : Resource Spec Status) → find r.meta.namespace r.meta.name (some r) ≡ got r
  named_itself r = ground (arith, eq_refl r.meta.namespace, eq_refl r.meta.name)

  find-names :
      (ns n : String) (t : Option (Resource Spec Status)) (r : Resource Spec Status)
      → find ns n t ≡ got r
      → (r.meta.namespace ≡ ns) × (r.meta.name ≡ n)
  find-names ns n none r e = absurd (ground arith)
  find-names ns n (some old) r e =
      (ground (arith, eq_iff old.meta.namespace ns), ground (arith, eq_iff old.meta.name n))

  replace-stored :
      (r : Resource Spec Status) (t : Option (Resource Spec Status))
      → (replace r t).0 ≡ done
      → (replace r t).1 ≡ some r
  replace-stored r none e = absurd (ground arith)
  replace-stored r (some old) e = ground arith

  replace-others :
      (r : Resource Spec Status) (t : Option (Resource Spec Status)) (ns n : String)
      → names r.meta ns n ≡ false
      → find ns n (replace r t).1 ≡ find ns n t
  replace-others r none ns n h = refl
  replace-others r (some old) ns n h =
      ground (arith, eq_iff old.meta.namespace r.meta.namespace, eq_iff old.meta.name r.meta.name)

  replace-failed :
      (r : Resource Spec Status) (t : Option (Resource Spec Status)) (ns n : String)
      → (replace r t).0 ≢ done
      → find ns n (replace r t).1 ≡ find ns n t
  replace-failed r none ns n h = refl
  replace-failed r (some old) ns n h = ground arith

  add-others :
      (r : Resource Spec Status) (t : Option (Resource Spec Status)) (ns n : String)
      → names r.meta ns n ≡ false
      → find ns n (add r t).1 ≡ find ns n t
  add-others r none ns n h = ground arith
  add-others r (some old) ns n h = refl

  add-failed :
      (r : Resource Spec Status) (t : Option (Resource Spec Status)) (ns n : String)
      → (add r t).0 ≡ false
      → find ns n (add r t).1 ≡ find ns n t
  add-failed r none ns n h = absurd (ground arith)
  add-failed r (some old) ns n h = refl

  add-stored :
      (r : Resource Spec Status) (t : Option (Resource Spec Status))
      → (add r t).0 ≡ true
      → (add r t).1 ≡ some r
  add-stored r none h = refl
  add-stored r (some old) h = absurd (ground arith)

  pub one_object-Reliable : Reliable one_object
  one_object-Reliable = record {
    get-named = find-names;
    create-stored = λ r t h.
        (r, ap (find r.meta.namespace r.meta.name) (add-stored r t h) ∙ named_itself r, refl);
    create-others = add-others;
    create-failed = add-failed;
    update-stored = λ r t h.
        (r, ap (find r.meta.namespace r.meta.name) (replace-stored r t h) ∙ named_itself r, refl);
    update-others = replace-others;
    update-failed = replace-failed;
    status-stored = λ r old t e h. (
      r,
      ap (find r.meta.namespace r.meta.name) (replace-stored r t h) ∙ named_itself r,
      inl refl,
    );
    status-others = replace-others;
    status-failed = replace-failed;
    retry_keeps = λ S P f s step h. step s h;
    retry_once = λ S f s h. refl;
  }

  remove-gone :
      (ns n : String) (t : Option (Resource Spec Status))
      → (remove ns n t).0 ≡ true
      → find ns n (remove ns n t).1 ≡ missing
  remove-gone ns n none h = refl
  remove-gone ns n (some r) h = ground arith

  remove-others :
      (ns n ns' n' : String) (t : Option (Resource Spec Status))
      → (ns == ns' && n == n') ≡ false
      → find ns' n' (remove ns n t).1 ≡ find ns' n' t
  remove-others ns n ns' n' none h = refl
  remove-others ns n ns' n' (some r) h =
      ground (arith, eq_iff r.meta.namespace ns, eq_iff r.meta.name n)

  remove-missing :
      (ns n : String) (t : Option (Resource Spec Status))
      → find ns n t ≡ missing
      → find ns n (remove ns n t).1 ≡ missing
  remove-missing ns n none h = refl
  remove-missing ns n (some r) h = ground arith

  remove-there :
      (ns n : String) (t : Option (Resource Spec Status)) (r : Resource Spec Status)
      → find ns n t ≡ got r
      → (remove ns n t).0 ≡ true
  remove-there ns n none r h = absurd (ground arith)
  remove-there ns n (some old) r h = ground arith

  pub one_object-Deletes : Deletes one_object
  one_object-Deletes = record {
    delete-gone = remove-gone;
    delete-others = remove-others;
    delete-missing = remove-missing;
    delete-there = remove-there;
  }

  abbrev Right : Bool → String → String → Option (List (Resource Spec Status)) → Type 0
  Right b ns n none = ⊥
  Right b ns n (some rs) = is_in ns n rs ≡ b

  list_of-Right :
      (label value ns n : String) (t : Option (Resource Spec Status))
      → Right (has_label label value (find ns n t)) ns n (list_of label value t)
  list_of-Right label value ns n none = refl
  list_of-Right label value ns n (some r) =
      elim (Bool-cases (read_map label r.meta.labels == value)) [
        | inl e ↦ rw e (ground (arith, e))
        | inr e ↦ rw e (ground (arith, e))
      ]

  list_of-is_in :
      (label value : String) (t : Option (Resource Spec Status)) (rs : List (Resource Spec Status))
      → list_of label value t ≡ some rs
      → (ns n : String) → is_in ns n rs ≡ has_label label value (find ns n t)
  list_of-is_in label value t rs e ns n =
      subst (Right (has_label label value (find ns n t)) ns n) e (list_of-Right label value ns n t)

  pub one_object-Lists : Lists one_object
  one_object-Lists = record {
    list-of = λ label value t rs h e ns n. list_of-is_in label value t rs e ns n;
  }

  -- A read of the one object never fails.
  pub find-reads : (ns n : String) (t : Option (Resource Spec Status)) → find ns n t ≢ failed
  find-reads ns n none e = ground arith
  find-reads ns n (some r) e = ground arith
