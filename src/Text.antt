-- ===== src/Text.antt =====
-- Go's `strings.HasPrefix`, and `strings.SplitN` into two parts.
use Prim.Native.Char.{Char, code}
use Prim.Native.String.{[], ◌∷◌, ◌++◌}
use text.Mathlib.TextLemmas.{nil-append, cons-append}
use ote_stack.Prelude.{
  String, ◌≡◌, refl, sym, ap, ◌∙◌, Bool, true, not, ◌&&◌, Option, none, some, nat_eq, is_some,
  arith, if◌then◌else◌,
}

-- What follows a prefix, if the text has it.
unfoldable pub strip_prefix : String → String → Option String
strip_prefix [] s = some s
strip_prefix (c ∷ p) [] = none
strip_prefix (c ∷ p) (d ∷ s) =
    let rest = strip_prefix p s in if nat_eq (code c) (code d) then rest else none

-- `strings.HasPrefix(s, p)`
abbrev pub has_prefix : String → String → Bool
has_prefix p s = is_some (strip_prefix p s)

pub before : Char → Option (String × String) → Option (String × String)
before c none = none
before c (some (a, b)) = some (c ∷ a, b)

found : Char → Option (String × String) → Option String → Option (String × String)
unfolding before
found c later none = before c later
found c later (some rest) = some ([], rest)

-- `strings.SplitN(s, sep, 2)` for a separator that is not empty: none where it is not in the text.
unfoldable pub split_once : String → String → Option (String × String)
unfolding found
split_once sep [] = none
split_once sep (c ∷ s) = found c (split_once sep s) (strip_prefix sep (c ∷ s))

pub strip_prefix-append : (p s : String) → strip_prefix p (p ++ s) ≡ some s
unfolding strip_prefix
strip_prefix-append [] s = rw nil-append refl
strip_prefix-append (c ∷ p) s = rw cons-append (ground (arith, strip_prefix-append p s))

-- Is the character not in the text?
abbrev pub lacks : Char → String → Bool
lacks c [] = true
lacks c (d ∷ s) = not (nat_eq (code c) (code d)) && lacks c s

-- A text without the first character of the separator is what stands before it.
pub split_once-append :
    (c : Char) (sep s t : String)
    → lacks c s ≡ true
    → split_once (c ∷ sep) (s ++ ((c ∷ sep) ++ t)) ≡ some (s, t)
unfolding split_once strip_prefix before
split_once-append c sep [] t h =
    let here : strip_prefix (c ∷ sep) (c ∷ (sep ++ t)) ≡ some t =
      ap (strip_prefix (c ∷ sep)) (sym (cons-append c sep t)) ∙ strip_prefix-append (c ∷ sep) t in
    rw nil-append (rw cons-append (ap (found c (split_once (c ∷ sep) (sep ++ t))) here))
split_once-append c sep (d ∷ s) t h =
    let other : strip_prefix (c ∷ sep) (d ∷ (s ++ ((c ∷ sep) ++ t))) ≡ none = ground (arith, h) in
    rw cons-append (
      ap (found d (split_once (c ∷ sep) (s ++ ((c ∷ sep) ++ t)))) other
      ∙ ap (before d) (split_once-append c sep s t (ground (arith, h))))
