-- ===== src/Reporter/Status/Totals.antt =====
-- The resources of a cluster are the sums over its ready nodes.
use ote_stack.Prelude.{
  true, false, ap, String, ◌≡◌, refl, ◌∙◌, Bool, Option, none, some, List, [], ◌∷◌, ◌++◌,
  if◌then◌else◌, ◌==◌, keep, Bool-cases, inl, inr, eq_iff,
}
use ote_stack.Maps.{Map, lookup, insert, lookup-insert}
use ote_stack.Reporter.Objects.{Node}
use ote_stack.Reporter.Status.{
  is_node_ready, ClusterResource, plus, add_all, add_nodes, with_node, caculate_cluster_resource,
}

-- The values of the entries of that name.
abbrev pub values_of : String → Map String → List String
values_of name [] = []
values_of name ((key, value) ∷ rest) =
    if key == name then value ∷ values_of name rest else values_of name rest

-- What a list of nodes has of the resource, in the maps that `part` selects.
abbrev pub offered : (Node → Map String) → String → List Node → List String
offered part name [] = []
offered part name (n ∷ ns) = values_of name (part n) ++ offered part name ns

module _ (zero_quantity : String) (add : String → String → String) where
  abbrev pub sum : Option String → List String → Option String
  sum q [] = q
  sum q (v ∷ vs) = sum (some (plus zero_quantity add q v)) vs

  sum-append : (q : Option String) (xs ys : List String) → sum q (xs ++ ys) ≡ sum (sum q xs) ys
  sum-append q [] ys = refl
  sum-append q (x ∷ xs) ys = sum-append (some (plus zero_quantity add q x)) xs ys

  lookup-add_all :
      (name : String) (m total : Map String)
      → lookup name (add_all zero_quantity add m total) ≡ sum (lookup name total) (values_of name m)
  unfolding add_all
  lookup-add_all name [] total = refl
  lookup-add_all name ((key, value) ∷ rest) total =
      let new = plus zero_quantity add (lookup key total) value in
      elim (Bool-cases (key == name)) [
        | inl e ↦
            let here : key ≡ name = (eq_iff key name).0 e in
            rw e (
              lookup-add_all name rest (insert key new total)
              ∙ ap (λ q. sum q (values_of name rest))
                  (rw (lookup-insert key name new total, e)
                    (ap (λ k. some (plus zero_quantity add (lookup k total) value)) here)))
        | inr e ↦ rw e (
            lookup-add_all name rest (insert key new total)
            ∙ ap (λ q. sum q (values_of name rest)) (rw (lookup-insert key name new total, e) refl))
      ]

  one_node :
      (name : String) (m total : Map String) (others : List String)
      → sum (lookup name (add_all zero_quantity add m total)) others
        ≡ sum (lookup name total) (values_of name m ++ others)
  one_node name m total others =
      rw (lookup-add_all name m total, sum-append (lookup name total) (values_of name m) others)
        refl

  abbrev capacities : String → List Node → List String
  capacities = offered (λ n. n.status.capacity)

  abbrev allocatables : String → List Node → List String
  allocatables = offered (λ n. n.status.allocatable)

  -- The rest is added to the total with the node, or to the total alone.
  node_if :
      (b : Bool) (name : String) (n : Node) (rest : List Node) (total : ClusterResource)
      → (sum (lookup name (with_node zero_quantity add b n total).capacity) (capacities name rest)
          ≡ sum (lookup name total.capacity) (capacities name (if b then n ∷ rest else rest)))
        × (sum
              (lookup name (with_node zero_quantity add b n total).allocatable)
              (allocatables name rest)
            ≡ sum
                (lookup name total.allocatable)
                (allocatables name (if b then n ∷ rest else rest)))
  unfolding with_node
  node_if false name n rest total = (refl, refl)
  node_if true name n rest total = (
    one_node name n.status.capacity total.capacity (capacities name rest),
    one_node name n.status.allocatable total.allocatable (allocatables name rest),
  )

  lookup-add_nodes :
      (name : String) (nodes : List Node) (total : ClusterResource)
      → (lookup name (add_nodes zero_quantity add nodes total).capacity
          ≡ sum (lookup name total.capacity) (capacities name (keep is_node_ready nodes)))
        × (lookup name (add_nodes zero_quantity add nodes total).allocatable
            ≡ sum (lookup name total.allocatable) (allocatables name (keep is_node_ready nodes)))
  unfolding add_nodes
  lookup-add_nodes name [] total = (refl, refl)
  lookup-add_nodes name (n ∷ nodes) total =
      let b = is_node_ready n in
      let (c, a) = lookup-add_nodes name nodes (with_node zero_quantity add b n total) in
      let (c', a') = node_if b name n (keep is_node_ready nodes) total in (c ∙ c', a ∙ a')

  -- The capacity and the allocatable amount of a resource are the sums of what the ready nodes have,
  -- in the order of the nodes, and there is none if no ready node has the resource.
  pub caculate_cluster_resource_lem :
      (name : String) (nodes : List Node)
      → (lookup name (caculate_cluster_resource zero_quantity add nodes).capacity
          ≡ sum none (offered (λ n. n.status.capacity) name (keep is_node_ready nodes)))
        × (lookup name (caculate_cluster_resource zero_quantity add nodes).allocatable
            ≡ sum none (offered (λ n. n.status.allocatable) name (keep is_node_ready nodes)))
  unfolding caculate_cluster_resource lookup
  caculate_cluster_resource_lem name nodes =
      lookup-add_nodes name nodes (record { capacity = []; allocatable = [] })
