-- ===== src/Selector/Split.antt =====
-- What the selector uses of Go's `strings`: `Split` and `Join` at a comma, and `TrimSpace`.
use Prim.Native.Char.{Char, code}
use Prim.Native.String.{[], ◌∷◌, ◌++◌}
use mathlib.Core.List.{List}
use ote_stack.Prelude.{String, Bool, ◌||◌, ◌&&◌, nat_eq, leb, if◌then◌else◌}

-- `SelectorPatternDelimiter`
abbrev pub delimiter : Char
delimiter = ","

abbrev pub is_delimiter : Char → Bool
is_delimiter c = nat_eq (code c) (code delimiter)

-- Puts a character in front of the first piece.
pub onto_first : Char → List String → List String
onto_first c List.[] = List.◌∷◌ (c ∷ []) List.[]
onto_first c (List.◌∷◌ w ws) = List.◌∷◌ (c ∷ w) ws

-- `strings.Split(s, ",")`: always at least one piece, and the pieces may be empty.
unfoldable pub split : String → List String
unfolding onto_first
split [] = List.◌∷◌ [] List.[]
split (c ∷ s) = let rest = split s in if is_delimiter c then List.◌∷◌ [] rest else onto_first c rest

-- `unicode.IsSpace`
unfoldable pub is_space : Char → Bool
is_space c =
    let n = code c in
    (leb 9 n && leb n 13)
    || nat_eq n 0x20
    || nat_eq n 0x85
    || nat_eq n 0xa0
    || nat_eq n 0x1680
    || (leb 0x2000 n && leb n 0x200a)
    || nat_eq n 0x2028
    || nat_eq n 0x2029
    || nat_eq n 0x202f
    || nat_eq n 0x205f
    || nat_eq n 0x3000

trim_left : String → String
trim_left [] = []
trim_left (c ∷ s) = let rest = trim_left s in if is_space c then rest else c ∷ s

-- Drops the spaces at the end: a space stays only where something stays behind it.
trim_right : String → String
trim_right [] = []
trim_right (c ∷ s) = elim (trim_right s) [
  | [] ↦ (if is_space c then [] else c ∷ [])
  | d ∷ r ↦ c ∷ d ∷ r
]

-- `strings.TrimSpace`
unfoldable pub trim_space : String → String
unfolding trim_left trim_right is_space
trim_space s = trim_right (trim_left s)

-- `strings.Join(ss, ",")`
unfoldable pub join : List String → String
join List.[] = []
join (List.◌∷◌ w List.[]) = w
join (List.◌∷◌ w (List.◌∷◌ v ws)) = w ++ (delimiter ∷ join (List.◌∷◌ v ws))
