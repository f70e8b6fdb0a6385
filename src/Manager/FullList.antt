-- ===== src/Manager/FullList.antt =====
-- What the full list of a report leaves at the center.
use ote_stack.Prelude.{
  inl, inr, ap, String, ◌≡◌, refl, ◌∙◌, true, false, not, ◌&&◌, Option, some, List, [], ◌∷◌, map,
  if◌then◌else◌, ◌==◌, elem, arith, Bool-cases,
}
use mathlib.Core.Path.{subst₂}
use ote_stack.Kube.{ObjectMeta, Resource, Client, Got, got, missing, failed}
use ote_stack.Kube.Reliable.{Deletes, Lists, names, names-eq, is_in, has_label}
use ote_stack.Reporter.{cluster_label}
use ote_stack.Manager.{
  Kind, delete_resource, delete_excess, excess_loop, excess_keyed, listed, handle_full_list, ℕ,
}
use ote_stack.Manager.Names.{unique_full_resource_name}

-- The names at the center that the objects of a full list have.
abbrev pub wanted_names : String → List String → List String
wanted_names cluster_name = map (λ key. unique_full_resource_name key cluster_name)

-- What is left of an object of that key: nothing, if it is of the cluster but not in the list.
abbrev pub remaining :
    {Spec Status : Type 0}
    → String
    → List String
    → String
    → Got (Resource Spec Status)
    → Got (Resource Spec Status)
remaining cluster_name full_list key g =
    if has_label cluster_label cluster_name g
      && not (elem key (wanted_names cluster_name full_list))
    then missing
    else g

module _ {Spec Status : Type 0} (kind : Kind Spec Status) (client : Client (Resource Spec Status))
    (atoi : String → Option ℕ) (key_of : ObjectMeta → Option String)
    (key : String → String → String)
    (keyed : (m : ObjectMeta) → key_of m ≡ some (key m.namespace m.name)) (deletes : Deletes client)
    (ns n : String) where
  open client use {Store, get}

  abbrev R : Type 0
  R = Resource Spec Status

  abbrev turn : List String → R → Store → Store
  turn wanted r t = delete_excess kind client atoi key_of wanted r t

  turn_lem :
      (wanted : List String) (r : R) (t : Store)
      → turn wanted r t ≡ (
          if elem (key r.meta.namespace r.meta.name) wanted
          then t
          else (client.delete r.meta.namespace r.meta.name t).1)
  unfolding delete_excess excess_keyed delete_resource
  turn_lem wanted r t = ap (excess_keyed kind client atoi key_of wanted r t) (keyed r.meta)

  -- An object of another name is not touched, and neither is one that is wanted.
  turn-others :
      (wanted : List String) (r : R) (t : Store)
      → names r.meta ns n ≡ false
      → get ns n (turn wanted r t) ≡ get ns n t
  turn-others wanted r t other =
      elim (Bool-cases (elem (key r.meta.namespace r.meta.name) wanted)) [
        | inl h ↦ rw (turn_lem wanted r t, h) refl
        | inr h ↦
            rw (turn_lem wanted r t, h)
              (deletes.delete-others r.meta.namespace r.meta.name ns n t other)
      ]

  -- The turn for the object itself.
  turn-same :
      (wanted : List String) (r : R) (t : Store)
      → names r.meta ns n ≡ true
      → turn wanted r t ≡ (if elem (key ns n) wanted then t else (client.delete ns n t).1)
  turn-same wanted r t same =
      let (p, q) = names-eq r.meta ns n same in
      subst₂
        (λ a b. turn wanted r t ≡ (if elem (key a b) wanted then t else (client.delete a b t).1)) p
        q (turn_lem wanted r t)

  turn-wanted :
      (wanted : List String) (r : R) (t : Store)
      → elem (key ns n) wanted ≡ true
      → get ns n (turn wanted r t) ≡ get ns n t
  turn-wanted wanted r t h = elim (Bool-cases (names r.meta ns n)) [
    | inr other ↦ turn-others wanted r t other
    | inl same ↦ rw (turn-same wanted r t same, h) refl
  ]

  turn-excess :
      (wanted : List String) (r o : R) (t : Store)
      → names r.meta ns n ≡ true
      → elem (key ns n) wanted ≡ false
      → get ns n t ≡ got o
      → get ns n (turn wanted r t) ≡ missing
  turn-excess wanted r o t same h there =
      rw (turn-same wanted r t same, h)
        (deletes.delete-gone ns n t (deletes.delete-there ns n t o there))

  turn-missing :
      (wanted : List String) (r : R) (t : Store)
      → get ns n t ≡ missing
      → get ns n (turn wanted r t) ≡ missing
  turn-missing wanted r t gone = elim (Bool-cases (names r.meta ns n)) [
    | inr other ↦ turn-others wanted r t other ∙ gone
    | inl same ↦ elim (Bool-cases (elem (key ns n) wanted)) [
      | inl h ↦ turn-wanted wanted r t h ∙ gone
      | inr h ↦ rw (turn-same wanted r t same, h) (deletes.delete-missing ns n t gone)
    ]
  ]

  abbrev loop : List String → List R → Store → Store
  loop wanted rs t = excess_loop kind client atoi key_of wanted rs t

  loop-missing :
      (wanted : List String) (rs : List R) (t : Store)
      → get ns n t ≡ missing
      → get ns n (loop wanted rs t) ≡ missing
  unfolding excess_loop
  loop-missing wanted [] t gone = gone
  loop-missing wanted (r ∷ rs) t gone =
      loop-missing wanted rs (turn wanted r t) (turn-missing wanted r t gone)

  loop-wanted :
      (wanted : List String) (rs : List R) (t : Store)
      → elem (key ns n) wanted ≡ true
      → get ns n (loop wanted rs t) ≡ get ns n t
  unfolding excess_loop
  loop-wanted wanted [] t h = refl
  loop-wanted wanted (r ∷ rs) t h =
      loop-wanted wanted rs (turn wanted r t) h ∙ turn-wanted wanted r t h

  loop-others :
      (wanted : List String) (rs : List R) (t : Store)
      → is_in ns n rs ≡ false
      → get ns n (loop wanted rs t) ≡ get ns n t
  unfolding excess_loop
  loop-others wanted [] t h = refl
  loop-others wanted (r ∷ rs) t h =
      loop-others wanted rs (turn wanted r t) (ground arith) ∙ turn-others wanted r t (ground arith)

  loop-excess :
      (wanted : List String) (rs : List R) (o : R) (t : Store)
      → is_in ns n rs ≡ true
      → elem (key ns n) wanted ≡ false
      → get ns n t ≡ got o
      → get ns n (loop wanted rs t) ≡ missing
  unfolding excess_loop
  loop-excess wanted [] o t h h' there = absurd (ground arith)
  loop-excess wanted (r ∷ rs) o t h h' there = elim (Bool-cases (names r.meta ns n)) [
    | inl same ↦ loop-missing wanted rs (turn wanted r t) (turn-excess wanted r o t same h' there)
    | inr other ↦
        loop-excess wanted rs o (turn wanted r t) (ground arith) h'
          (turn-others wanted r t other ∙ there)
  ]

  -- For an object that is listed if and only if it has the label.
  loop-remaining :
      (cluster_name : String) (full_list : List String) (rs : List R) (t : Store) (g : Got R)
      → get ns n t ≡ g
      → is_in ns n rs ≡ has_label cluster_label cluster_name g
      → get ns n (loop (wanted_names cluster_name full_list) rs t)
        ≡ remaining cluster_name full_list (key ns n) g
  loop-remaining cluster_name full_list rs t missing e h =
      loop-missing (wanted_names cluster_name full_list) rs t e
  loop-remaining cluster_name full_list rs t failed e h =
      loop-others (wanted_names cluster_name full_list) rs t h ∙ e
  loop-remaining cluster_name full_list rs t (got o) e h =
      let wanted = wanted_names cluster_name full_list in
      elim (Bool-cases (elem (key ns n) wanted)) [
        | inl w ↦ ground (arith, loop-wanted wanted rs t w, e, w)
        | inr w ↦ elim (Bool-cases (has_label cluster_label cluster_name (got o))) [
          | inl l ↦ ground (arith, loop-excess wanted rs o t (h ∙ l) w e, w, l)
          | inr l ↦ ground (arith, loop-others wanted rs t (h ∙ l), e, w, l)
        ]
      ]

  -- After a full list of a cluster, whose name is not empty, an object of the cluster is stored if and
  -- only if it was and its key is one of the list's names at the center; every other object is as
  -- before. The list of the stored objects is read, deletions do what the apiserver promises, and
  -- `key` is how keys are made.
  pub handle_full_list-remaining :
      (cluster_name : String) (full_list : List String) (rs : List R) (t : Store)
      → Lists client
      → (cluster_name == "") ≡ false
      → client.list cluster_label cluster_name t ≡ some rs
      → get ns n (handle_full_list kind client atoi key_of cluster_name full_list t)
        ≡ remaining cluster_name full_list (key ns n) (get ns n t)
  unfolding handle_full_list listed
  handle_full_list-remaining cluster_name full_list rs t lists named e = rw e (
      loop-remaining cluster_name full_list rs t (get ns n t) refl
        (lists.list-of cluster_label cluster_name t rs named e ns n))
