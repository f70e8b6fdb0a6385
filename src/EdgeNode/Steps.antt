-- ===== src/EdgeNode/Steps.antt =====
-- Every handler of the edge node controller keeps its nodes from being shown as ready.
use ote_stack.Prelude.{List, ◌∷◌}
use ote_stack.Kube.Reliable.{Reliable}
use ote_stack.EdgeNode.{EdgeNode, List, ◌∷◌}
