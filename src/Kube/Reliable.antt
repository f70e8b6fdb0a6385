-- ===== src/Kube/Reliable.antt =====
-- What the code relies on of the client and the apiserver behind it.
use ote_stack.Prelude.{
  List, [], ◌∷◌, ◌||◌, some, eq_iff, arith, refl, inl, inr, String, ◌≡◌, ◌≢◌, Bool, true, false,
  ◌&&◌, ◌⊎◌, ◌==◌, inl, inr,
}
use ote_stack.Crd.{Answer, done, conflicted}
use ote_stack.Kube.{ObjectMeta, Resource, Client, read_map, got, missing, Got, failed}

-- Are these the namespace and the name of the object?
abbrev pub names : ObjectMeta → String → String → Bool
names m ns n = m.namespace == ns && m.name == n

-- Is there an object of that name in the list?
abbrev pub is_in : {Spec Status : Type 0} → String → String → List (Resource Spec Status) → Bool
is_in ns n [] = false
is_in ns n (r ∷ rs) = names r.meta ns n || is_in ns n rs

abbrev pub has_label : {Spec Status : Type 0} → String → String → Got (Resource Spec Status) → Bool
has_label label value (got r) = read_map label r.meta.labels == value
has_label label value missing = false
has_label label value failed = false

pub names-eq :
    (m : ObjectMeta) (ns n : String) → names m ns n ≡ true → (m.namespace ≡ ns) × (m.name ≡ n)
names-eq m ns n same =
    ((eq_iff m.namespace ns).0 (ground arith), (eq_iff m.name n).0 (ground arith))

pub Got-cases :
    {R : Type 0} → (g : Got R) → ((r : R) × (g ≡ got r)) ⊎ ((g ≡ missing) ⊎ (g ≡ failed))
Got-cases (got r) = inl (r, refl)
Got-cases missing = inr (inl refl)
Got-cases failed = inr (inr refl)

module _ {Spec Status : Type 0} (client : Client (Resource Spec Status)) where
  open client use {Store, get, create, update, update_status, delete}

  -- There is an object of that name, with labels that pass the test.
  abbrev pub Holds : String → String → (ObjectMeta → Type 0) → Store → Type 0
  Holds ns n P t = (r : Resource Spec Status) × (get ns n t ≡ got r) × P r.meta

  -- A write to the object changes no other object, and a write that fails changes none; a read
  -- returns the object of the name; a retry only repeats its function, and does not repeat it
  -- unless there was a conflict.
  pub record Reliable : Type 1 where
    pub get-named :
        (ns n : String) (t : Store) (r : Resource Spec Status)
        → get ns n t ≡ got r
        → (r.meta.namespace ≡ ns) × (r.meta.name ≡ n)
    pub create-stored :
        (r : Resource Spec Status) (t : Store)
        → (create r t).0 ≡ true
        → Holds r.meta.namespace r.meta.name (λ m. m.labels ≡ r.meta.labels) (create r t).1
    pub create-others :
        (r : Resource Spec Status) (t : Store) (ns n : String)
        → names r.meta ns n ≡ false
        → get ns n (create r t).1 ≡ get ns n t
    pub create-failed :
        (r : Resource Spec Status) (t : Store) (ns n : String)
        → (create r t).0 ≡ false
        → get ns n (create r t).1 ≡ get ns n t
    pub update-stored :
        (r : Resource Spec Status) (t : Store)
        → (update r t).0 ≡ done
        → Holds r.meta.namespace r.meta.name (λ m. m.labels ≡ r.meta.labels) (update r t).1
    pub update-others :
        (r : Resource Spec Status) (t : Store) (ns n : String)
        → names r.meta ns n ≡ false
        → get ns n (update r t).1 ≡ get ns n t
    pub update-failed :
        (r : Resource Spec Status) (t : Store) (ns n : String)
        → (update r t).0 ≢ done
        → get ns n (update r t).1 ≡ get ns n t
    -- the status of some kinds is written with the labels, and that of others alone
    pub status-stored :
        (r old : Resource Spec Status) (t : Store)
        → get r.meta.namespace r.meta.name t ≡ got old
        → (update_status r t).0 ≡ done
        → Holds r.meta.namespace r.meta.name
            (λ m. (m.labels ≡ r.meta.labels) ⊎ (m.labels ≡ old.meta.labels))
            (update_status r t).1
    pub status-others :
        (r : Resource Spec Status) (t : Store) (ns n : String)
        → names r.meta ns n ≡ false
        → get ns n (update_status r t).1 ≡ get ns n t
    pub status-failed :
        (r : Resource Spec Status) (t : Store) (ns n : String)
        → (update_status r t).0 ≢ done
        → get ns n (update_status r t).1 ≡ get ns n t
    pub retry_keeps :
        (S : Type 0) (P : S → Type 0) (f : S → Answer × S) (s : S)
        → ((u : S) → P u → P (f u).1)
        → P s
        → P (client.retry_on_conflict S f s).1
    pub retry_once :
        (S : Type 0) (f : S → Answer × S) (s : S)
        → (f s).0 ≢ conflicted
        → client.retry_on_conflict S f s ≡ f s

  -- Deletions: one that succeeds takes away the object, and no deletion touches another.
  pub record Deletes : Type 0 where
    pub delete-gone :
        (ns n : String) (t : Store)
        → (delete ns n t).0 ≡ true
        → get ns n (delete ns n t).1 ≡ missing
    pub delete-others :
        (ns n ns' n' : String) (t : Store)
        → (ns == ns' && n == n') ≡ false
        → get ns' n' (delete ns n t).1 ≡ get ns' n' t
    -- what is not there cannot be deleted, and stays so
    pub delete-missing :
        (ns n : String) (t : Store) → get ns n t ≡ missing → get ns n (delete ns n t).1 ≡ missing
    pub delete-there :
        (ns n : String) (t : Store) (r : Resource Spec Status)
        → get ns n t ≡ got r
        → (delete ns n t).0 ≡ true

  -- A list has the stored objects with the label, and no others; the value is not the empty text.
  pub record Lists : Type 0 where
    pub list-of :
        (label value : String) (t : Store) (rs : List (Resource Spec Status))
        → (value == "") ≡ false
        → client.list label value t ≡ some rs
        → (ns n : String) → is_in ns n rs ≡ has_label label value (get ns n t)
