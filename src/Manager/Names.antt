-- ===== src/Manager/Names.antt =====
-- Names at the center: the name at the edge, a dash, and the cluster.
use Prim.Native.Char.{Char, code}
use Prim.Native.String.{[], ◌∷◌, ◌++◌}
use text.Mathlib.TextLemmas.{nil-append, cons-append}
use ote_stack.Prelude.{
  String, ◌≡◌, refl, sym, ap, ◌∙◌, Bool, true, not, ◌&&◌, Option, none, some, nat_eq, if◌then◌else◌,
  arith,
}

-- `UniqueResourceNameSeparator`
abbrev pub separator : Char
separator = "-"

abbrev is_separator : Char → Bool
is_separator c = nat_eq (code c) (code separator)

-- `UniqueFullResourceName`
unfoldable pub unique_full_resource_name : String → String → String
unique_full_resource_name name cluster_name = name ++ (separator ∷ cluster_name)

-- No dash in the text.
abbrev pub is_plain : String → Bool
is_plain [] = true
is_plain (c ∷ s) = not (is_separator c) && is_plain s

-- The texts before and after the last dash.
last_split : String → Option (String × String)
last_split [] = none
last_split (c ∷ s) = elim (last_split s) [
  | none ↦ (if is_separator c then some ([], s) else none)
  | some (before, after) ↦ some (c ∷ before, after)
]

last_split_plain : (s : String) → is_plain s ≡ true → last_split s ≡ none
unfolding last_split
last_split_plain [] h = refl
last_split_plain (c ∷ s) h = ground (arith, last_split_plain s)

last_split_unique :
    (name cluster : String)
    → is_plain cluster ≡ true
    → last_split (unique_full_resource_name name cluster) ≡ some (name, cluster)
unfolding last_split unique_full_resource_name
last_split_unique [] cluster h = rw nil-append (ground (arith, last_split_plain cluster h))
last_split_unique (c ∷ name) cluster h =
    rw cons-append (ground (arith, last_split_unique name cluster h))

-- For clusters whose names have no dash, two names at the center are equal only if they are of the
-- same name in the same cluster.
unique_full_resource_name-injective :
    (name name' cluster cluster' : String)
    → is_plain cluster ≡ true
    → is_plain cluster' ≡ true
    → unique_full_resource_name name cluster ≡ unique_full_resource_name name' cluster'
    → (name ≡ name') × (cluster ≡ cluster')
unique_full_resource_name-injective name name' cluster cluster' h h' e =
    let both =
      sym (last_split_unique name cluster h)
      ∙ ap last_split e
      ∙ last_split_unique name' cluster' h' in
    (
      ap (λ (o : Option (String × String)). elim o [ none ↦ name | some p ↦ p.0 ]) both,
      ap (λ (o : Option (String × String)). elim o [ none ↦ cluster | some p ↦ p.1 ]) both,
    )
