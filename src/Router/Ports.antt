-- ===== src/Router/Ports.antt =====
-- `PortsToSubtreeClusters`, `SubTreeOfPort` and `SubTreeClusters` against the routes.
use mathlib.Core.List.{append-nil, append_assoc}
use ote_stack.Prelude.{
  String, ◌≡◌, refl, Bool, not, ◌&&◌, Option, none, some, List, [], ◌∷◌, ◌++◌, ◌==◌, eq_iff, arith,
  if◌then◌else◌, holds, is_some, elem, keep, Bool-cases, Option-cases, inl, inr, ap, ◌∙◌, sym,
}
use ote_stack.Maps.{Map, lookup, keys, elem-keys, lookup-insert, lookup-nil}
use ote_stack.Router.{
  ClusterRouter, add_to_port, ports_loop, ports_to_subtree_clusters, subtree_loop, subtree_of_port,
  subtree_clusters,
}
use ote_stack.Router.Routes.{route}

-- A map entry for the clusters of a port: none is kept for no cluster.
abbrev pub entry : List String → Option (List String)
entry [] = none
entry (c ∷ cs) = some (c ∷ cs)

-- The clusters that a map holds for a port.
abbrev held : Option (List String) → List String
held none = []
held (some cs) = cs

-- The map never holds an empty list.
abbrev Filled : Map (List String) → Type 0
Filled m = (p : String) → lookup p m ≡ entry (held (lookup p m))

lookup-add_to_port :
    (port c p : String) (ret : Map (List String))
    → lookup p (add_to_port port c ret)
      ≡ (if port == p then some (held (lookup port ret) ++ c ∷ []) else lookup p ret)
unfolding add_to_port
lookup-add_to_port port c p ret = ground (
  arith,
  lookup-insert port p (c ∷ []) ret,
  lookup-insert port p (held (lookup port ret) ++ c ∷ []) ret,
  eq_iff port p,
)

entry-append : (xs : List String) (c : String) → some (xs ++ c ∷ []) ≡ entry (xs ++ c ∷ [])
entry-append [] c = refl
entry-append (x ∷ xs) c = refl

abbrev via : Map String → String → String → Bool
via m p c = holds p (lookup c m)

Filled-add_to_port :
    (port c : String) (ret : Map (List String)) → Filled ret → Filled (add_to_port port c ret)
Filled-add_to_port port c ret h p =
    rw (lookup-add_to_port port c p ret) (elim (Bool-cases (port == p)) [
      | inl e ↦ rw e (entry-append (held (lookup port ret)) c)
      | inr e ↦ rw e (h p)
    ])

-- The loop appends to each port the clusters that leave by it.
lookup-ports_loop :
    (cs : List String) (m : Map String) (ret : Map (List String)) (p : String)
    → Filled ret
    → lookup p (ports_loop cs m ret) ≡ entry (held (lookup p ret) ++ keep (via m p) cs)
unfolding ports_loop
lookup-ports_loop [] m ret p h = h p ∙ ap entry (sym (append-nil _))
lookup-ports_loop (c ∷ cs) m ret p h = elim (Option-cases (lookup c m)) [
  | inl e ↦ rw e (lookup-ports_loop cs m ret p h)
  | inr (port, e) ↦ rw e (
      lookup-ports_loop cs m (add_to_port port c ret) p (Filled-add_to_port port c ret h)
      ∙ elim (Bool-cases (port == p)) [
        | inl hit ↦ ground (
          arith,
          lookup-add_to_port port c p ret,
          eq_iff port p,
          append_assoc (held (lookup p ret)) (c ∷ []) (keep (via m p) cs),
        )
        | inr miss ↦ ground (arith, lookup-add_to_port port c p ret)
      ])
]

-- For each port there are the requested clusters whose route leaves by it, in the order of the
-- request, and no entry for a port without one.
pub lookup-ports_to_subtree_clusters :
    (cs : List String) (r : ClusterRouter) (p : String)
    → lookup p (ports_to_subtree_clusters cs r) ≡ entry (keep (λ c. holds p (route c r)) cs)
unfolding ports_to_subtree_clusters
lookup-ports_to_subtree_clusters cs r p =
    lookup-ports_loop cs r.subtree_router [] p (λ q. rw lookup-nil) ∙ rw lookup-nil

elem-subtree_loop :
    (ks : List String) (port j : String) (m : Map String)
    → elem j (subtree_loop ks port m) ≡ (elem j ks && holds port (lookup j m) && not (j == port))
unfolding subtree_loop
elem-subtree_loop [] port j m = refl
elem-subtree_loop (k ∷ ks) port j m = ground (arith, elem-subtree_loop ks port j m, eq_iff k j)

-- `SubTreeOfPort` lists exactly the clusters whose route leaves by the port, without the port
-- itself.
pub elem-subtree_of_port :
    (port j : String) (r : ClusterRouter)
    → elem j (subtree_of_port port r) ≡ (holds port (route j r) && not (j == port))
unfolding subtree_of_port
elem-subtree_of_port port j r =
    elem-subtree_loop (keys r.subtree_router) port j r.subtree_router
    ∙ ground (arith, elem-keys j r.subtree_router)

-- `SubTreeClusters` lists exactly the clusters that have a route.
pub elem-subtree_clusters :
    (j : String) (r : ClusterRouter) → elem j (subtree_clusters r) ≡ is_some (route j r)
unfolding subtree_clusters
elem-subtree_clusters j r = elem-keys j r.subtree_router
