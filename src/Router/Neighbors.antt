-- ===== src/Router/Neighbors.antt =====
-- Children and neighbors: `AddChild`, `DelChild`, and what a message from the parent changes.
use ote_stack.Prelude.{
  ◌∷◌, String, ◌≡◌, refl, true, Option, none, some, ◌==◌, eq_iff, arith, if◌then◌else◌, is_some,
  Bool-cases, Option-cases, inl, inr, Result, ok, err, name_in_use, [], ◌⊎◌,
}
use ote_stack.Maps.{
  Map, lookup, lookup-deep_equal, deep_equal_refl, deep_equal_complete, lookup-insert, lookup-erase,
}
use ote_stack.Message.{Codec, ClusterMessage}
use ote_stack.Router.{
  NeighborRoutes, ClusterRouter, neighbor_router_message, add_child, del_child, same_routes,
  update_neighbor, update_router, update_parent_neighbor,
}

module _ (json : Codec NeighborRoutes) where
  -- What `AddChild` returns: a refusal for a name in use, or the child added, the others kept, and
  -- the new routes for the notifier.
  abbrev pub AddChildResult :
      String → String → ClusterRouter → Result (ClusterRouter × Option ClusterMessage) → Type 0
  AddChildResult name listen r (ok (r', note)) =
      (lookup name r.childs ≡ none)
      × ((j : String) → lookup j r'.childs ≡ (if name == j then some listen else lookup j r.childs))
      × (r'.subtree_router ≡ r.subtree_router)
      × (note ≡ neighbor_router_message json r')
  AddChildResult name listen r (err e) = (e ≡ name_in_use) × (is_some (lookup name r.childs) ≡ true)

  -- `AddChild` refuses exactly a name in use. Otherwise the child is added with its address, the
  -- other children and the routes stay, and the notifier gets the new routes.
  add_child_lem :
      (name listen : String) (r : ClusterRouter)
      → AddChildResult name listen r (add_child json name listen r)
  unfolding add_child
  add_child_lem name listen r = elim (Option-cases (lookup name r.childs)) [
    | inl e ↦ rw (e, add_child) (e, λ j. lookup-insert name j listen r.childs, refl, refl)
    | inr (ip, e) ↦ rw (e, add_child) (refl, rw e)
  ]

  -- After `DelChild` the child is gone, the others and the routes stay, and the notifier gets the
  -- routes as they then are, even where there was no such child.
  pub del_child_lem :
      (name : String) (r : ClusterRouter)
      → ((j : String)
          → lookup j (del_child json name r).0.childs
            ≡ (if name == j then none else lookup j r.childs))
        × ((del_child json name r).0.subtree_router ≡ r.subtree_router)
        × ((del_child json name r).1 ≡ neighbor_router_message json (del_child json name r).0)
  unfolding del_child
  del_child_lem name r =
      (λ j. ground (arith, lookup-erase name j r.childs, eq_iff name j), ground arith, refl)

-- Two lists of routes that agree: both nil, or the same address for every name.
abbrev pub Agree : Option (Map String) → Option (Map String) → Type 0
Agree none none = Unit {0}
Agree none (some n) = ⊥
Agree (some m) none = ⊥
Agree (some m) (some n) = (k : String) → lookup k m ≡ lookup k n

Agree-refl : (m : Option (Map String)) → Agree m m
Agree-refl none = tt
Agree-refl (some m) = λ k. refl

Agree-same_routes : (m n : Option (Map String)) → same_routes m n ≡ true → Agree m n
unfolding same_routes
Agree-same_routes none none h = tt
Agree-same_routes none (some n) h = cc
Agree-same_routes (some m) none h = cc
Agree-same_routes (some m) (some n) h = λ k. lookup-deep_equal m n k h

same_of_Agree : (m n : Option (Map String)) → Agree m n → same_routes m n ≡ true
unfolding same_routes
same_of_Agree none none h = refl
same_of_Agree none (some n) h = absurd h
same_of_Agree (some m) none h = absurd h
same_of_Agree (some m) (some n) h = deep_equal_complete m n h

update_neighbor-Agree :
    (parent : NeighborRoutes) (r : ClusterRouter)
    → Agree (update_neighbor parent r).0.neighbor parent.childs
unfolding update_neighbor
update_neighbor-Agree parent r = elim (Bool-cases (same_routes r.neighbor parent.childs)) [
  | inl e ↦ rw (e, update_neighbor) (Agree-same_routes r.neighbor parent.childs e)
  | inr e ↦ rw (e, update_neighbor) (Agree-refl parent.childs)
]

update_parent_neighbor-Agree :
    (parent : NeighborRoutes) (r : ClusterRouter)
    → Agree (update_parent_neighbor parent r).0.parent_neighbor parent.neighbor
unfolding update_parent_neighbor
update_parent_neighbor-Agree parent r =
    elim (Bool-cases (same_routes r.parent_neighbor parent.neighbor)) [
      | inl e ↦
          rw (e, update_parent_neighbor) (Agree-same_routes r.parent_neighbor parent.neighbor e)
      | inr e ↦ rw (e, update_parent_neighbor) (Agree-refl parent.neighbor)
    ]

same_routes_refl : (m : Option (Map String)) → same_routes m m ≡ true
unfolding same_routes
same_routes_refl none = refl
same_routes_refl (some m) = deep_equal_refl m

neighbor-update_parent_neighbor :
    (parent : NeighborRoutes) (r : ClusterRouter)
    → (update_parent_neighbor parent r).0.neighbor ≡ r.neighbor
unfolding update_parent_neighbor
neighbor-update_parent_neighbor parent r = ground arith

module _ (json : Codec NeighborRoutes) (msg : ClusterMessage) (r : ClusterRouter) where
  -- After a message that can be read, the neighbors agree with the parent's children and the
  -- parent's neighbors with its neighbors; the own children and routes stay; and the children get
  -- the new routes once if the neighbors did not agree before, and nothing otherwise.
  pub update_router_lem :
      (parent : NeighborRoutes)
      → json.unmarshal msg.body ≡ some parent
      → let r' = (update_router json msg r).0 in
        let notes = (update_router json msg r).1 in
        Agree r'.neighbor parent.childs
        × Agree r'.parent_neighbor parent.neighbor
        × (r'.childs ≡ r.childs)
        × (r'.subtree_router ≡ r.subtree_router)
        × ((Agree r.neighbor parent.childs × (notes ≡ []))
            ⊎ ((¬ Agree r.neighbor parent.childs)
                × (notes ≡ neighbor_router_message json (update_neighbor parent r).0 ∷ [])))
  unfolding update_router
  update_router_lem parent h =
      rw (h, update_router)
        (
          rw (neighbor-update_parent_neighbor parent (update_neighbor parent r).0)
              (update_neighbor-Agree parent r),
          update_parent_neighbor-Agree parent (update_neighbor parent r).0,
          ground arith,
          ground arith,
          elim (Bool-cases (same_routes r.neighbor parent.childs)) [
            | inl e ↦ inl (Agree-same_routes r.neighbor parent.childs e, ground arith)
            | inr e ↦ inr (λ a. cc (e, same_of_Agree r.neighbor parent.childs a), ground arith)
          ],
        )

  unchanged :
      (parent : NeighborRoutes)
      → json.unmarshal msg.body ≡ some parent
      → same_routes r.neighbor parent.childs ≡ true
      → same_routes r.parent_neighbor parent.neighbor ≡ true
      → update_router json msg r ≡ (r, [])
  unfolding update_router
  unchanged parent h n p = ground arith

module _ (json : Codec NeighborRoutes) (msg : ClusterMessage) (r : ClusterRouter) where
  -- Handling a message from the parent a second time changes nothing and notifies nobody.
  pub update_router_settles :
      update_router json msg (update_router json msg r).0 ≡ ((update_router json msg r).0, [])
  unfolding update_router
  update_router_settles = elim (Option-cases (json.unmarshal msg.body)) [
    | inl e ↦ ground arith
    | inr (parent, e) ↦
        unchanged json msg (update_router json msg r).0 parent e
          (ground (arith, same_routes_refl parent.childs))
          (ground (arith, same_routes_refl parent.neighbor))
  ]
