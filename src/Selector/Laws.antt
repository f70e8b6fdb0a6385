-- ===== src/Selector/Laws.antt =====
-- A selector made of plain names selects by exactly these names.
use Prim.Native.String.{[], ◌∷◌, ◌++◌}
use mathlib.Core.List.{List, map}
use mathlib.Core.Path.{ap₂}
use text.Mathlib.TextLemmas.{nil-append, cons-append}
use ote_stack.Prelude.{String, ◌≡◌, refl, ap, ◌∙◌, Bool, true, not, ◌&&◌, arith, elem, eq_iff}
use ote_stack.Selector.Split.{delimiter, is_delimiter, split, trim_space, join}
use ote_stack.Selector.{new_selector, clusters_to_selector, has}

-- No comma in the text.
abbrev pub is_clean : String → Bool
is_clean [] = true
is_clean (c ∷ s) = not (is_delimiter c) && is_clean s

-- A cluster's name as a pattern on its own: no comma, and no space at its ends.
pub record IsName (w : String) : Type 0 where
  pub clean : is_clean w ≡ true
  pub trimmed : trim_space w ≡ w

abbrev pub AllNames : List String → Type 0
AllNames List.[] = Unit {0}
AllNames (List.◌∷◌ w ws) = IsName w × AllNames ws

split-clean : (w : String) → is_clean w ≡ true → split w ≡ List.◌∷◌ w List.[]
unfolding split
split-clean [] h = refl
split-clean (c ∷ w) h = ground (arith, split-clean w)

split-append :
    (w t : String) → is_clean w ≡ true → split (w ++ (delimiter ∷ t)) ≡ List.◌∷◌ w (split t)
unfolding split
split-append [] t h = rw nil-append
split-append (c ∷ w) t h = rw cons-append (ground (arith, split-append w t))

split-join :
    (w : String) (ws : List String)
    → AllNames (List.◌∷◌ w ws)
    → split (join (List.◌∷◌ w ws)) ≡ List.◌∷◌ w ws
unfolding join
split-join w List.[] h = split-clean w h.0.clean
split-join w (List.◌∷◌ v ws) h =
    split-append w (join (List.◌∷◌ v ws)) h.0.clean ∙ ap (List.◌∷◌ w) (split-join v ws h.1)

map-trim : (ws : List String) → AllNames ws → map trim_space ws ≡ ws
map-trim List.[] h = refl
map-trim (List.◌∷◌ w ws) h = ap₂ List.◌∷◌ h.0.trimmed (map-trim ws h.1)

-- A selector made of one or more plain names, without a comma or a space at their ends, reads back
-- as exactly these names.
pub new_selector-clusters_to_selector :
    (w : String) (ws : List String)
    → AllNames (List.◌∷◌ w ws)
    → new_selector (clusters_to_selector (List.◌∷◌ w ws)) ≡ List.◌∷◌ w ws
unfolding new_selector clusters_to_selector
new_selector-clusters_to_selector w ws h = rw (split-join w ws h) (map-trim (List.◌∷◌ w ws) h)

module _ (matches : String → String → Bool) where
  -- A selector matches what any of its patterns matches.
  pub has_of_elem :
      (p : String) (ps : List String) (name : String)
      → elem p ps ≡ true
      → matches p name ≡ true
      → has matches ps name ≡ true
  unfolding has
  has_of_elem p List.[] name e h = ground arith
  has_of_elem p (List.◌∷◌ q ps) name e h = ground (arith, eq_iff q p, has_of_elem p ps name)

-- Without a text there is one pattern, which is empty.
pub new_selector-empty : new_selector "" ≡ List.◌∷◌ "" List.[]
unfolding new_selector split trim_space
new_selector-empty = refl
