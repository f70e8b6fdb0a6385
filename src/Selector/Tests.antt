-- ===== src/Selector/Tests.antt =====
-- Selectors on concrete texts.
use ote_stack.Prelude.{◌≡◌, refl, [], ◌∷◌}
use ote_stack.Selector.Split.{split, trim_space}
use ote_stack.Selector.{new_selector}
use ote_stack.Selector.Laws.{IsName}

split_example : split "a, b,,c" ≡ "a" ∷ " b" ∷ "" ∷ "c" ∷ []
unfolding split
split_example = refl

trim_example : trim_space " a b  " ≡ "a b"
unfolding trim_space
trim_example = refl

pub a_IsName : IsName "a"
unfolding trim_space
a_IsName = record { clean = refl; trimmed = refl }

pub b_IsName : IsName "b"
unfolding trim_space
b_IsName = record { clean = refl; trimmed = refl }

pub new_selector_example : new_selector "a, b,x" ≡ "a" ∷ "b" ∷ "x" ∷ []
unfolding new_selector split trim_space
new_selector_example = refl
