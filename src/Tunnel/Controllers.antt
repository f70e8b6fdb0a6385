-- ===== src/Tunnel/Controllers.antt =====
-- `findAController`: it ends with a controller if one is connected, and what it does to the keys.
use ote_stack.Prelude.{
  inl, inr, ◌++◌, ◌<◌, ◌≤◌, sym, ◌∙◌, ap, refl, elem-append, Option-cases, Bool-cases, ℕ, zero, suc,
  String, ◌≡◌, Bool, true, false, ◌&&◌, Option, none, some, List, [], ◌∷◌, ◌==◌, eq_iff, eq_refl,
  is_some, arith, length, get_elem?, elem,
}
use ote_stack.Maps.{Map, lookup}
use ote_stack.Tunnel.{remove_from_slice_by_value, last_of, find_a_controller}

length-remove :
    (s : String) (vs : List String)
    → elem s vs ≡ true
    → length vs ≡ suc (length (remove_from_slice_by_value s vs))
unfolding remove_from_slice_by_value
length-remove s [] e = absurd (ground arith)
length-remove s (v ∷ vs) e = ground (arith, length-remove s vs)

-- Removing a value takes away no other.
elem-remove :
    (s k : String) (vs : List String)
    → (k == s) ≡ false
    → elem k (remove_from_slice_by_value s vs) ≡ elem k vs
unfolding remove_from_slice_by_value
elem-remove s k [] ne = refl
elem-remove s k (v ∷ vs) ne =
    ground (arith, elem-remove s k vs, eq_iff v s, eq_iff v k, eq_iff k s, eq_refl k)

elem-last_of :
    (k v : String) (vs : List String) → (last_of v vs == k) ≡ true → elem k (v ∷ vs) ≡ true
unfolding last_of
elem-last_of k v [] e = ground arith
elem-last_of k v (w ∷ vs) e = ground (arith, elem-last_of k w vs)

elem_of_get : (xs : List String) (i : ℕ) (s : String) → get_elem? xs i ≡ some s → elem s xs ≡ true
elem_of_get [] i s e = absurd (ground arith)
elem_of_get (x ∷ xs) zero s e = ground (arith, eq_iff x s)
elem_of_get (x ∷ xs) (suc i) s e = ground (arith, elem_of_get xs i s e)

in_range : (xs : List String) (i : ℕ) → i < length xs → is_some (get_elem? xs i) ≡ true
in_range [] i h = absurd (omega arith)
in_range (x ∷ xs) zero h = refl
in_range (x ∷ xs) (suc i) h = in_range xs i (omega arith)

module _ (choose : ℕ → ℕ) (controllers : Map ℕ) where
  -- A key with a connected controller.
  abbrev pub connected : String → List String → Bool
  connected k keys' = elem k keys' && is_some (lookup k controllers)

  -- What the search returns for a slice: a connected key, or nothing where none is.
  abbrev pub Searched : List String → Option String → Type 0
  Searched keys' none = (k : String) → connected k keys' ≡ false
  Searched keys' (some name) = connected name keys' ≡ true

  Searched-congr :
      (a b : List String) (r : Option String)
      → ((k : String) → connected k a ≡ connected k b)
      → Searched a r
      → Searched b r
  Searched-congr a b none same s = λ k. sym (same k) ∙ s k
  Searched-congr a b (some name) same s = sym (same name) ∙ s

  connected-remove :
      (name k : String) (vs : List String)
      → is_some (lookup name controllers) ≡ false
      → connected k (remove_from_slice_by_value name vs) ≡ connected k vs
  connected-remove name k vs lost = elim (Bool-cases (k == name)) [
    | inl e ↦ ground (arith, eq_iff k name)
    | inr e ↦ ap (λ b. b && is_some (lookup k controllers)) (elem-remove name k vs e)
  ]

  -- One more turn: the entry is dropped from the slice, and its array shifted.
  connected-shifted :
      (name k v : String) (vs behind : List String)
      → is_some (lookup name controllers) ≡ false
      → connected k (remove_from_slice_by_value name (v ∷ vs) ++ last_of v vs ∷ behind)
        ≡ connected k (v ∷ vs ++ behind)
  connected-shifted name k v vs behind lost = ground (
    arith,
    connected-remove name k (v ∷ vs) lost,
    elem-append k (remove_from_slice_by_value name (v ∷ vs)) (last_of v vs ∷ behind),
    elem-append k (v ∷ vs) behind,
    elem-last_of k v vs,
  )

  -- What a search gives: the answer for the slice, and an array with the same connected keys.
  abbrev pub Search : List String → List String → Option String × List String → Type 0
  Search keys' behind (r, after) =
      Searched keys' r × ((k : String) → connected k after ≡ connected k (keys' ++ behind))

  find_step :
      (fuel : ℕ) (name v : String) (vs behind : List String)
      → get_elem? (v ∷ vs) (choose (length (v ∷ vs))) ≡ some name
      → is_some (lookup name controllers) ≡ false
      → find_a_controller choose controllers (suc fuel) (v ∷ vs) behind
        ≡ find_a_controller choose controllers fuel
            (remove_from_slice_by_value name (v ∷ vs))
            (last_of v vs ∷ behind)
  unfolding find_a_controller
  find_step fuel name v vs behind e lost = rw (e, find_a_controller) (rw lost refl)

  find_hit :
      (fuel : ℕ) (name v : String) (vs behind : List String)
      → get_elem? (v ∷ vs) (choose (length (v ∷ vs))) ≡ some name
      → is_some (lookup name controllers) ≡ true
      → find_a_controller choose controllers (suc fuel) (v ∷ vs) behind
        ≡ (some name, v ∷ vs ++ behind)
  unfolding find_a_controller
  find_hit fuel name v vs behind e there = rw (e, find_a_controller) (rw there refl)

  find-Search :
      (fuel : ℕ) (keys' behind : List String)
      → ((n : ℕ) → choose (suc n) < suc n)
      → length keys' ≤ fuel
      → Search keys' behind (find_a_controller choose controllers fuel keys' behind)
  unfolding find_a_controller
  find-Search zero [] behind bound h = (λ k. refl, λ k. refl)
  find-Search zero (v ∷ vs) behind bound h = absurd (omega arith)
  find-Search (suc fuel) [] behind bound h = (λ k. refl, λ k. refl)
  find-Search (suc fuel) (v ∷ vs) behind bound h =
      elim (Option-cases (get_elem? (v ∷ vs) (choose (length (v ∷ vs))))) [
        | inl e ↦
            absurd
              (ground (arith, in_range (v ∷ vs) (choose (length (v ∷ vs))) (bound (length vs))))
        | inr (name, e) ↦
            let held = elem_of_get (v ∷ vs) (choose (length (v ∷ vs))) name e in
            elim (Bool-cases (is_some (lookup name controllers))) [
              | inl there ↦
                  rw (find_hit fuel name v vs behind e there)
                    (ground (arith, held, there), λ k. refl)
              | inr lost ↦
                  let rest = remove_from_slice_by_value name (v ∷ vs) in
                  let (found, same) =
                    find-Search fuel rest (last_of v vs ∷ behind) bound
                      (omega (arith, length-remove name (v ∷ vs) held)) in
                  rw (find_step fuel name v vs behind e lost) (
                    Searched-congr rest (v ∷ vs) _ (λ k. connected-remove name k (v ∷ vs) lost)
                        found,
                    λ k. same k ∙ connected-shifted name k v vs behind lost,
                  )
            ]
      ]

  -- For any choice within range: with as many turns as there are keys, the search returns a key
  -- with a connected controller if there is one, and nothing otherwise. The tunnel's own array of
  -- keys, which the search shifts as it drops keys, has the same connected keys as before.
  pub find_a_controller_lem :
      (keys' : List String)
      → ((n : ℕ) → choose (suc n) < suc n)
      → Search keys' [] (find_a_controller choose controllers (length keys') keys' [])
  find_a_controller_lem keys' bound = find-Search (length keys') keys' [] bound (omega arith)
