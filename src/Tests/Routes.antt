-- ===== src/Tests/Routes.antt =====
-- A routing table with the children `a` and `d`.
use ote_stack.Tests.Codecs.{reads}
use ote_stack.Prelude.{◌≡◌, refl, none, some, [], ◌∷◌, ◌⊎◌}
use ote_stack.Maps.{lookup}
use ote_stack.Message.{Codec, ClusterMessage, neighbor_route, head_of}
use ote_stack.Router.{
  NeighborRoutes, ClusterRouter, new_router, update_neighbor, neighbor_router_message,
  update_router,
}
use ote_stack.Router.Routes.{route}
use ote_stack.Router.Neighbors.{Agree, update_router_lem, update_router_settles}
use ote_stack.Handler.Up.{update_routes}
use ote_stack.Handler.Up.Subtree.{route-update_routes}

abbrev pub table : ClusterRouter
table = record new_router {
  childs = ("a", "10.0.0.1") ∷ ("d", "10.0.0.2") ∷ [];
  subtree_router = ("a", "a") ∷ ("b", "a") ∷ ("c", "d") ∷ ("d", "d") ∷ [];
}

abbrev parent_routes : NeighborRoutes
parent_routes = record {
  childs = some (("p", "10.0.0.9") ∷ []);
  neighbor = some [];
  parent_neighbor = none;
}

abbrev json : Codec NeighborRoutes
json = reads parent_routes

abbrev from_parent : ClusterMessage
from_parent = record { head = some (head_of neighbor_route); body = 7 ∷ [] }

update_router_lem_example :
    let (r, notes) = update_router json from_parent table in
    Agree r.neighbor parent_routes.childs
    × Agree r.parent_neighbor parent_routes.neighbor
    × (r.childs ≡ table.childs)
    × (r.subtree_router ≡ table.subtree_router)
    × ((⊥ × (notes ≡ []))
        ⊎ ((¬ ⊥)
            × (notes ≡ neighbor_router_message json (update_neighbor parent_routes table).0 ∷ [])))
update_router_lem_example = update_router_lem json from_parent table parent_routes refl

update_router_settles_example :
    update_router json from_parent (update_router json from_parent table).0
    ≡ ((update_router json from_parent table).0, [])
update_router_settles_example = update_router_settles json from_parent table

route-update_routes_example :
    route "b" (update_routes (("a", "") ∷ ("e", "") ∷ []) "a" table) ≡ none
unfolding lookup
route-update_routes_example = route-update_routes (("a", "") ∷ ("e", "") ∷ []) "a" "b" table
