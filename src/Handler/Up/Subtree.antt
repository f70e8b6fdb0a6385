-- ===== src/Handler/Up/Subtree.antt =====
-- What a child's report of its subtree does to every route.
use ote_stack.Prelude.{
  eq_refl, String, ◌≡◌, refl, false, not, ◌&&◌, Option, none, some, List, [], ◌∷◌, elem, holds, ◌∙◌,
  arith, eq_iff, if◌then◌else◌, is_some, ◌==◌,
}
use ote_stack.Maps.{lookup-insert, Map, lookup, keys, elem-keys}
use ote_stack.Router.{ClusterRouter, add_route, subtree_of_port}
use ote_stack.Router.Routes.{route, lookup-del_route}
use ote_stack.Router.Ports.{elem-subtree_of_port}
use ote_stack.Handler.Up.{try_route, add_routes, drop_route, del_routes, update_routes}

-- One attempt fills the route if there is none, and never takes one over.
route-try_route :
    (to port j : String) (r : ClusterRouter)
    → route j (try_route to port r)
      ≡ (if to == j && not (is_some (route j r)) then some port else route j r)
unfolding try_route add_route
route-try_route to port j r = ground (arith, lookup-insert to j port r.subtree_router, eq_iff to j)

route-add_routes :
    (ks : List String) (port j : String) (r : ClusterRouter)
    → route j (add_routes ks port r)
      ≡ (if elem j ks && not (is_some (route j r)) then some port else route j r)
unfolding add_routes
route-add_routes [] port j r = refl
route-add_routes (k ∷ ks) port j r =
    route-add_routes ks port j (try_route k port r)
    ∙ ground (arith, route-try_route k port j r, eq_iff k j)

route-drop_route :
    (c : String) (subtrees : Map String) (port j : String) (r : ClusterRouter)
    → (c == port) ≡ false
    → route j (drop_route c subtrees port r) ≡ (
        if c == j && not (is_some (lookup j subtrees)) && holds port (route j r)
        then none
        else route j r)
unfolding drop_route
route-drop_route c subtrees port j r h = ground (arith, lookup-del_route c port j r, eq_iff c j)

-- Where no cluster is the port itself, the routes by this port that are not listed go.
route-del_routes :
    (cs : List String) (subtrees : Map String) (port j : String) (r : ClusterRouter)
    → elem port cs ≡ false
    → route j (del_routes cs subtrees port r) ≡ (
        if elem j cs && not (is_some (lookup j subtrees)) && holds port (route j r)
        then none
        else route j r)
unfolding del_routes
route-del_routes [] subtrees port j r h = refl
route-del_routes (c ∷ cs) subtrees port j r h =
    route-del_routes cs subtrees port j (drop_route c subtrees port r) (ground arith)
    ∙ ground (arith, route-drop_route c subtrees port j r, eq_iff c j)

-- The route of a cluster after its child `port` has reported `subtrees`.
abbrev pub reported : Map String → String → String → Option String → Option String
reported subtrees port j none = if is_some (lookup j subtrees) then some port else none
reported subtrees port j (some p) =
    if p == port && not (is_some (lookup j subtrees)) && not (j == port) then none else some p

-- The whole table after a report: a listed cluster without a route gets one by the child, a route
-- by another port stays, and a route by the child stays exactly if its cluster is listed or is the
-- child itself.
pub route-update_routes :
    (subtrees : Map String) (port j : String) (r : ClusterRouter)
    → route j (update_routes subtrees port r) ≡ reported subtrees port j (route j r)
unfolding update_routes
route-update_routes subtrees port j r =
    let r' = add_routes (keys subtrees) port r in
    route-del_routes (subtree_of_port port r') subtrees port j r'
      (elem-subtree_of_port port port r' ∙ ground (arith, eq_refl port))
    ∙ ground (
      arith,
      elem-subtree_of_port port j r',
      route-add_routes (keys subtrees) port j r,
      elem-keys j subtrees,
      eq_refl port,
    )
