-- ===== src/Maps.antt =====
-- Go's `map[string]V` as an association list: the first entry of a key is the one that counts.
-- A range over a map visits its keys in an order of the list; the laws do not depend on it.
use ote_stack.Prelude.{
  String, ◌≡◌, refl, Bool, true, ◌&&◌, Option, none, some, List, [], ◌∷◌, arith, ◌==◌, eq_iff,
  if◌then◌else◌, holds, is_some, elem, sym, ap, ◌∙◌, inl, inr, Option-cases, holds_eq, eq_refl,
}

abbrev pub Map {ℓ} : Type ℓ → Type ℓ
Map V = List (String × V)

module _ {ℓ} {V : Type ℓ} where
  unfoldable pub lookup : String → Map V → Option V
  lookup wanted [] = none
  lookup wanted ((key, value) ∷ rest) = if key == wanted then some value else lookup wanted rest

  -- Go's `m[added] = new`, in the place of an entry of that key.
  unfoldable pub insert : String → V → Map V → Map V
  insert added new [] = (added, new) ∷ []
  insert added new ((key, value) ∷ rest) =
      if key == added then (added, new) ∷ rest else (key, value) ∷ insert added new rest

  -- Go's `delete`, which does nothing for a missing key.
  unfoldable pub erase : String → Map V → Map V
  erase gone [] = []
  erase gone ((key, value) ∷ rest) =
      if key == gone then erase gone rest else (key, value) ∷ erase gone rest

  unfoldable pub keys : Map V → List String
  keys [] = []
  keys ((key, value) ∷ rest) = key ∷ keys rest

  pub lookup-nil : (wanted : String) → lookup wanted [] ≡ none
  unfolding lookup
  lookup-nil wanted = refl

  pub lookup-insert :
      (added wanted : String) (new : V) (table : Map V)
      → lookup wanted (insert added new table)
        ≡ (if added == wanted then some new else lookup wanted table)
  unfolding lookup insert
  lookup-insert added wanted new [] = refl
  lookup-insert added wanted new ((key, value) ∷ rest) = ground (
    lookup-insert added wanted new rest,
    eq_iff key wanted,
    eq_iff added wanted,
    eq_iff key added,
    arith,
  )

  pub lookup-erase :
      (gone wanted : String) (table : Map V)
      → lookup wanted (erase gone table) ≡ (if gone == wanted then none else lookup wanted table)
  unfolding lookup erase
  lookup-erase gone wanted [] = ground arith
  lookup-erase gone wanted ((key, value) ∷ rest) =
      ground (
        lookup-erase gone wanted rest,
        eq_iff key wanted,
        eq_iff gone wanted,
        eq_iff key gone,
        arith,
      )

  -- The keys are those that a lookup finds.
  pub elem-keys : (k : String) (m : Map V) → elem k (keys m) ≡ is_some (lookup k m)
  unfolding lookup keys
  elem-keys k [] = refl
  elem-keys k ((j, w) ∷ m) = ground (arith, elem-keys k m)

pub ruleset map_laws = (lookup-nil, lookup-insert, lookup-erase)

-- `reflect.DeepEqual` on two maps of texts: as many keys, and the same value under each.
all_in : List String → Map String → Map String → Bool
all_in [] m n = true
all_in (k ∷ ks) m n = elim (lookup k m) [
  | none ↦ all_in ks m n
  | some v ↦ holds v (lookup k n) && all_in ks m n
]

unfoldable pub deep_equal : Map String → Map String → Bool
unfolding all_in
deep_equal m n = all_in (keys m) m n && all_in (keys n) n m

all_in_sound :
    (ks : List String) (m n : Map String) (k v : String)
    → all_in ks m n ≡ true
    → elem k ks ≡ true
    → lookup k m ≡ some v
    → lookup k n ≡ some v
unfolding all_in
all_in_sound [] m n k v h e l = absurd (ground arith)
all_in_sound (j ∷ ks) m n k v h e l =
    ground (arith, eq_iff j k, holds_eq v (lookup j n), all_in_sound ks m n k v)

-- Equal maps answer every lookup of a present key alike.
deep_equal_found :
    (m n : Map String) (k v : String)
    → deep_equal m n ≡ true
    → lookup k m ≡ some v
    → lookup k n ≡ some v
unfolding deep_equal
deep_equal_found m n k v h l =
    all_in_sound (keys m) m n k v (ground arith) (elem-keys k m ∙ ap is_some l) l

deep_equal_sym : (m n : Map String) → deep_equal m n ≡ deep_equal n m
unfolding deep_equal
deep_equal_sym m n = ground arith

-- Maps that compare equal agree at every key.
pub lookup-deep_equal :
    (m n : Map String) (k : String) → deep_equal m n ≡ true → lookup k m ≡ lookup k n
lookup-deep_equal m n k h = elim (Option-cases (lookup k m)) [
  | inr (v, e) ↦ e ∙ sym (deep_equal_found m n k v h e)
  | inl e ↦ elim (Option-cases (lookup k n)) [
    | inl e' ↦ e ∙ sym e'
    | inr (v, e') ↦ deep_equal_found n m k v (deep_equal_sym n m ∙ h) e' ∙ sym e'
  ]
]

all_in_refl : (ks : List String) (m : Map String) → all_in ks m m ≡ true
unfolding all_in
all_in_refl [] m = refl
all_in_refl (k ∷ ks) m = elim (Option-cases (lookup k m)) [
  | inl e ↦ rw (e, all_in) (all_in_refl ks m)
  | inr (v, e) ↦ ground (arith, all_in_refl ks m, eq_refl v)
]

pub deep_equal_refl : (m : Map String) → deep_equal m m ≡ true
unfolding deep_equal
deep_equal_refl m = rw all_in_refl

all_in_complete :
    (ks : List String) (m n : Map String)
    → ((k : String) → lookup k m ≡ lookup k n)
    → all_in ks m n ≡ true
unfolding all_in
all_in_complete [] m n h = refl
all_in_complete (k ∷ ks) m n h = elim (Option-cases (lookup k m)) [
  | inl e ↦ rw (e, all_in) (all_in_complete ks m n h)
  | inr (v, e) ↦ ground (arith, h k, all_in_complete ks m n h, eq_refl v)
]

-- Maps that agree at every key compare equal.
pub deep_equal_complete :
    (m n : Map String) → ((k : String) → lookup k m ≡ lookup k n) → deep_equal m n ≡ true
unfolding deep_equal
deep_equal_complete m n h =
    rw (all_in_complete (keys m) m n h) (all_in_complete (keys n) n m (λ k. sym (h k)))
