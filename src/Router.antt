-- ===== src/Router.antt =====
-- pkg/clusterrouter/router.go: the routes that one cluster controller keeps.
-- The methods run under the router's mutex, so each is one step. What a method hands to its
-- `notifier` comes back beside the new router: `none` for the nil message of a failed marshal.
pub mod Routes
pub mod Ports
pub mod Neighbors
use ote_stack.Prelude.{
  String, Bool, true, false, not, ◌&&◌, Option, none, some, List, [], ◌∷◌, ◌++◌, ◌==◌,
  if◌then◌else◌, holds, is_some, Result, ok, err, duplicated_name, name_in_use,
}
use ote_stack.Maps.{Map, lookup, insert, erase, keys, deep_equal}
use ote_stack.Message.{Codec, ClusterMessage, CommandType, neighbor_route, subtree_route, head_of}

-- The exported fields, which JSON carries to the neighbors; a map may be nil.
pub record NeighborRoutes : Type 0 where
  pub childs : Option (Map String)
  pub neighbor : Option (Map String)
  pub parent_neighbor : Option (Map String)

-- `childs` and `subtree_router` are made at the start and never nil.
pub record ClusterRouter : Type 0 where
  pub childs : Map String
  pub neighbor : Option (Map String)
  pub parent_neighbor : Option (Map String)
  pub subtree_router : Map String

-- `defaultClusterRouter`
abbrev pub new_router : ClusterRouter
new_router = record { childs = []; neighbor = none; parent_neighbor = none; subtree_router = [] }

abbrev pub exported : ClusterRouter → NeighborRoutes
exported r = record {
  childs = some r.childs;
  neighbor = r.neighbor;
  parent_neighbor = r.parent_neighbor;
}

route_message : {A : Type 0} → Codec A → CommandType → A → Option ClusterMessage
route_message json command a = elim (json.marshal a) [
  | none ↦ none
  | some b ↦ some (record { head = some (head_of command); body = b })
]

-- `NeighborRouterMessage`
unfoldable pub neighbor_router_message :
    Codec NeighborRoutes → ClusterRouter → Option ClusterMessage
unfolding route_message
neighbor_router_message json r = route_message json neighbor_route (exported r)

-- `SubTreeMessage`
unfoldable pub subtree_message : Codec (Map String) → ClusterRouter → Option ClusterMessage
unfolding route_message
subtree_message json r = route_message json subtree_route r.subtree_router

-- `SubtreeFromClusterController`
unfoldable pub subtree_from_message : Codec (Map String) → ClusterMessage → Option (Map String)
subtree_from_message json m = json.unmarshal m.body

-- `AddChild`: an error leaves the router alone and notifies nobody.
unfoldable pub add_child :
    Codec NeighborRoutes
    → String
    → String
    → ClusterRouter
    → Result (ClusterRouter × Option ClusterMessage)
add_child json cluster_name listen r =
    let r' : ClusterRouter = record r { childs = insert cluster_name listen r.childs } in
    elim (lookup cluster_name r.childs) [
      | some ip ↦ err name_in_use
      | none ↦ ok (r', neighbor_router_message json r')
    ]

-- `DelChild`: the notifier is called whether or not there was such a child.
unfoldable pub del_child :
    Codec NeighborRoutes → String → ClusterRouter → ClusterRouter × Option ClusterMessage
del_child json cluster_name r =
    let r' : ClusterRouter =
      if is_some (lookup cluster_name r.childs)
      then record r { childs = erase cluster_name r.childs }
      else r in
    (r', neighbor_router_message json r')

-- `HasChild`
unfoldable pub has_child : String → ClusterRouter → Bool
has_child cluster_name r = is_some (lookup cluster_name r.childs)

-- `AddRoute`
unfoldable pub add_route : String → String → ClusterRouter → Result ClusterRouter
add_route to port r = elim (lookup to r.subtree_router) [
  | none ↦ ok (record r { subtree_router = insert to port r.subtree_router })
  | some old_port ↦ (if port == old_port then ok r else err duplicated_name)
]

-- The loop of `DelRoute` over the keys: a route whose port is `port` is deleted.
unfoldable pub del_port : List String → String → Map String → Map String
del_port [] port m = m
del_port (key ∷ rest) port m =
    del_port rest port (if holds port (lookup key m) then erase key m else m)

-- The first half of `DelRoute`: the route goes if it leaves by that port.
unfoldable pub unset : String → String → Map String → Map String
unset to port m = if holds port (lookup to m) then erase to m else m

-- The second half, for a child that goes: its own route and all that leave by it.
unfoldable pub forget_child : String → String → Map String → Map String
unfolding del_port
forget_child to port m = let m' = erase to m in del_port (keys m') port m'

-- `DelRoute`
unfoldable pub del_route : String → String → ClusterRouter → ClusterRouter
unfolding unset forget_child
del_route to port r =
    let m = unset to port r.subtree_router in
    record r { subtree_router = if to == port then forget_child to port m else m }

-- `HasRoute`
unfoldable pub has_route : String → String → ClusterRouter → Bool
has_route to port r = holds port (lookup to r.subtree_router)

-- `ret[port] = append(subs, c)`, or a slice of one
add_to_port : String → String → Map (List String) → Map (List String)
add_to_port port c ret = elim (lookup port ret) [
  | none ↦ insert port (c ∷ []) ret
  | some subs ↦ insert port (subs ++ c ∷ []) ret
]

-- The loop of `PortsToSubtreeClusters`; a cluster without a route is passed over.
ports_loop : List String → Map String → Map (List String) → Map (List String)
unfolding add_to_port
ports_loop [] m ret = ret
ports_loop (c ∷ cs) m ret =
    ports_loop cs m (elim (lookup c m) [ none ↦ ret | some port ↦ add_to_port port c ret ])

-- `PortsToSubtreeClusters`
unfoldable pub ports_to_subtree_clusters : List String → ClusterRouter → Map (List String)
unfolding ports_loop
ports_to_subtree_clusters clusters r = ports_loop clusters r.subtree_router []

subtree_loop : List String → String → Map String → List String
subtree_loop [] port m = []
subtree_loop (to ∷ rest) port m =
    if holds port (lookup to m) && not (to == port)
    then to ∷ subtree_loop rest port m
    else subtree_loop rest port m

-- `SubTreeOfPort`
unfoldable pub subtree_of_port : String → ClusterRouter → List String
unfolding subtree_loop
subtree_of_port port r = subtree_loop (keys r.subtree_router) port r.subtree_router

-- `SubTreeClusters`
unfoldable pub subtree_clusters : ClusterRouter → List String
subtree_clusters r = keys r.subtree_router

-- `reflect.DeepEqual` on maps that may be nil: nil equals nil alone.
unfoldable pub same_routes : Option (Map String) → Option (Map String) → Bool
same_routes none none = true
same_routes none (some n) = false
same_routes (some m) none = false
same_routes (some m) (some n) = deep_equal m n

-- `updateNeighbor`; the Boolean says whether the neighbors changed.
unfoldable pub update_neighbor : NeighborRoutes → ClusterRouter → ClusterRouter × Bool
unfolding same_routes
update_neighbor parent r =
    if same_routes r.neighbor parent.childs
    then (r, false)
    else (record r { neighbor = parent.childs }, true)

-- `updateParentNeighbor`
unfoldable pub update_parent_neighbor : NeighborRoutes → ClusterRouter → ClusterRouter × Bool
unfolding same_routes
update_parent_neighbor parent r =
    if same_routes r.parent_neighbor parent.neighbor
    then (r, false)
    else (record r { parent_neighbor = parent.neighbor }, true)

-- `UpdateRouter`: the messages that the notifier is called with come back in their order.
unfoldable pub update_router :
    Codec NeighborRoutes
    → ClusterMessage
    → ClusterRouter
    → ClusterRouter × List (Option ClusterMessage)
unfolding update_neighbor update_parent_neighbor
update_router json msg r = elim (json.unmarshal msg.body) [
  | none ↦ (r, [])
  | some parent ↦
      let (r₁, changed) = update_neighbor parent r in
      let notes : List (Option ClusterMessage) =
        if changed then neighbor_router_message json r₁ ∷ [] else [] in
      ((update_parent_neighbor parent r₁).0, notes)
]
