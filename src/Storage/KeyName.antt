-- ===== src/Storage/KeyName.antt =====
-- The names under which LevelDB keeps the objects: the type, a dash, and the object's key.
use Prim.Native.Char.{Char, code}
use Prim.Native.String.{[], ◌∷◌, ◌++◌}
use text.Mathlib.TextLemmas.{nil-append, cons-append}
use ote_stack.Prelude.{
  String, ◌≡◌, refl, Bool, true, not, ◌&&◌, Option, none, some, nat_eq, if◌then◌else◌, arith,
}

-- `Speration`
abbrev pub separation : Char
separation = "-"

abbrev is_separation : Char → Bool
is_separation c = nat_eq (code c) (code separation)

-- `formKeyName`
unfoldable pub form_key_name : String → String → String
form_key_name obj_type name = obj_type ++ (separation ∷ name)

longer : Char → Option (String × String) → Option (String × String)
longer c none = none
longer c (some (before, after)) = some (c ∷ before, after)

-- `splitKeyName`: at the first dash, and none without a dash.
unfoldable pub split_key_name : String → Option (String × String)
unfolding longer
split_key_name [] = none
split_key_name (c ∷ s) =
    let rest = split_key_name s in if is_separation c then some ([], s) else longer c rest

-- No dash in the text.
abbrev pub is_type : String → Bool
is_type [] = true
is_type (c ∷ s) = not (is_separation c) && is_type s

-- A name formed of a type without a dash and any key splits into these two.
pub split_key_name-form_key_name :
    (obj_type name : String)
    → is_type obj_type ≡ true
    → split_key_name (form_key_name obj_type name) ≡ some (obj_type, name)
unfolding split_key_name form_key_name
split_key_name-form_key_name [] name h = rw nil-append refl
split_key_name-form_key_name (c ∷ s) name h =
    rw cons-append (ground (arith, split_key_name-form_key_name s name))
