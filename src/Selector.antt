-- ===== src/Selector.antt =====
-- pkg/clusterselector/selector.go: routing rules as a list of patterns, separated by commas.
-- `regexp.MatchString` is a parameter: `matches p s` is its Boolean, false when `p` is no pattern.
pub mod Split
pub mod Laws
pub mod Tests
use ote_stack.Prelude.{String, Bool, false, ◌||◌, List, [], ◌∷◌, map}
use Split.{split, trim_space, join}

-- The patterns of `NewSelector(s)`, in their order.
pub new_selector : String → List String
new_selector s = map trim_space (split s)

-- `ClustersToSelector`
pub clusters_to_selector : List String → String
clusters_to_selector clusters = join clusters

module _ (matches : String → String → Bool) where
  -- `Has`: some pattern matches the name.
  unfoldable pub has : List String → String → Bool
  has [] name = false
  has (p ∷ ps) name = matches p name || has ps name
