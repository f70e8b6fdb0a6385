-- ===== src/Router/Routes.antt =====
-- What `AddRoute` and `DelRoute` do to every route.
use ote_stack.Prelude.{
  ◌⊎◌, ◌≢◌, String, ◌≡◌, refl, ◌&&◌, ◌||◌, Option, none, some, List, [], ◌∷◌, ◌==◌, eq_iff, arith,
  if◌then◌else◌, holds, holds_eq, elem, Result, ok, err, duplicated_name, Bool-cases, inl, inr, ap,
  ◌∙◌, sym, Option-cases,
}
use ote_stack.Maps.{Map, lookup, erase, keys, elem-keys, lookup-insert, lookup-erase}
use ote_stack.Router.{ClusterRouter, add_route, unset, forget_child, del_port, del_route}

-- The port of a cluster, if there is a route to it.
abbrev pub route : String → ClusterRouter → Option String
route j r = lookup j r.subtree_router

-- What `AddRoute` returns, and the route of every cluster afterwards.
abbrev pub AddRouteResult : String → String → ClusterRouter → Result ClusterRouter → Type 0
AddRouteResult to port r (ok r') =
    ((route to r ≡ none) ⊎ (route to r ≡ some port))
    × ((j : String) → route j r' ≡ (if to == j then some port else route j r))
    × (r'.childs ≡ r.childs)
AddRouteResult to port r (err e) =
    (e ≡ duplicated_name) × ((old : String) × (route to r ≡ some old) × (old ≢ port))

-- `AddRoute` accepts a cluster without a route or with a route by this port, which then is its
-- route, the other routes and the children as before; it refuses exactly a cluster with a route by
-- another port.
pub add_route_lem :
    (to port : String) (r : ClusterRouter) → AddRouteResult to port r (add_route to port r)
unfolding add_route
add_route_lem to port r = elim (Option-cases (lookup to r.subtree_router)) [
  | inl e ↦ rw (e, add_route) (inl e, λ j. lookup-insert to j port r.subtree_router, refl)
  | inr (old, e) ↦ elim (Bool-cases (port == old)) [
    | inl same ↦
        rw (e, add_route)
          (rw same
            let held = e ∙ ap some (sym ((eq_iff port old).0 same)) in
              (inr held, λ j. ground (arith, eq_iff to j), refl))
    | inr other ↦
        rw (e, add_route) (rw other (refl, (old, e, λ p. ground (arith, eq_iff port old))))
  ]
]

-- Deleting by port over some keys takes away those of them whose route leaves by the port.
lookup-del_port :
    (ks : List String) (port j : String) (m : Map String)
    → lookup j (del_port ks port m)
      ≡ (if elem j ks && holds port (lookup j m) then none else lookup j m)
unfolding del_port
lookup-del_port [] port j m = refl
lookup-del_port (k ∷ ks) port j m = elim (Bool-cases (holds port (lookup k m))) [
  | inl e ↦ rw e (
      lookup-del_port ks port j (erase k m)
      ∙ ground (arith, lookup-erase k j m, eq_iff k j, holds_eq port (lookup j m)))
  | inr e ↦ rw e (lookup-del_port ks port j m ∙ ground (arith, eq_iff k j))
]

-- Over all the keys it takes away every such route.
lookup-del_port-keys :
    (port j : String) (m : Map String)
    → lookup j (del_port (keys m) port m) ≡ (if holds port (lookup j m) then none else lookup j m)
lookup-del_port-keys port j m = lookup-del_port (keys m) port j m ∙ ground (arith, elem-keys j m)

lookup-unset :
    (to port j : String) (m : Map String)
    → lookup j (unset to port m) ≡ (if to == j && holds port (lookup j m) then none else lookup j m)
unfolding unset
lookup-unset to port j m = ground (arith, lookup-erase to j m, eq_iff to j)

lookup-forget_child :
    (to port j : String) (m : Map String)
    → lookup j (forget_child to port m)
      ≡ (if to == j || holds port (lookup j m) then none else lookup j m)
unfolding forget_child
lookup-forget_child to port j m =
    lookup-del_port-keys port j (erase to m) ∙ ground (arith, lookup-erase to j m, eq_iff to j)

-- `DelRoute` takes away the cluster's route if it leaves by the port; for a child that is its own
-- port, it takes away the child's route whatever its port, and every route by the child. The other
-- routes stay.
pub lookup-del_route :
    (to port j : String) (r : ClusterRouter)
    → route j (del_route to port r) ≡ (
        if (to == j || to == port) && holds port (route j r) || (to == j && to == port)
        then none
        else route j r)
unfolding del_route
lookup-del_route to port j r = elim (Bool-cases (to == port)) [
  | inl e ↦ rw e (
      ground (
        arith,
        lookup-forget_child to port j (unset to port r.subtree_router),
        lookup-unset to port j r.subtree_router,
        eq_iff to j,
      ))
  | inr e ↦ rw e (ground (arith, lookup-unset to port j r.subtree_router))
]
