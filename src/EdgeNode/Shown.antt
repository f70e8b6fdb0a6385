-- ===== src/EdgeNode/Shown.antt =====
-- A node that the controller reports as ready is not shown as a ready edge node.
use mathlib.Core.Path.{subst, subst₂}
use ote_stack.Prelude.{
  String, ◌≡◌, refl, sym, ap, ◌∙◌, inl, inr, true, false, not, ◌&&◌, ◌==◌, eq_iff, eq_refl, elem,
  elem-keep, arith, Bool-cases,
}
use ote_stack.Crd.{Answer, done, conflicted, refused, cluster_namespace}
use ote_stack.Kube.{Client, Got, got, missing, failed}
use ote_stack.Kube.Reliable.{Reliable, Deletes}
use ote_stack.EdgeNode.{
  EdgeNode, Controller, edge_node_not_ready, add_updated_node, delete_updated_node, with_status,
  answered, update_edge_node_status, show,
}

-- An edge node with that status, if there is one and it can be read.
abbrev pub Shown : String → Got EdgeNode → Type 0
Shown desired (got e) = e.status ≡ desired
Shown desired missing = Unit {0}
Shown desired failed = Unit {0}

module _ (client : Client EdgeNode) where
  open client use {Store, get, create, update}

  -- A create and an update store the status, and an update of what is there is not refused.
  pub record Shows : Type 0 where
    pub create-Shown :
        (r : EdgeNode) (t : Store)
        → get r.meta.namespace r.meta.name t ≡ missing
        → Shown r.status (get r.meta.namespace r.meta.name (create r t).1)
    pub update-Shown :
        (r o : EdgeNode) (t : Store)
        → get r.meta.namespace r.meta.name t ≡ got o
        → Shown r.status (get r.meta.namespace r.meta.name (update r t).1)

  -- No node of the controller's map is shown as ready.
  abbrev pub Consistent : Controller client → Type 0
  Consistent c =
      (name : String)
      → elem name c.update_node_map ≡ true
      → Shown edge_node_not_ready (get cluster_namespace name c.server)

  answered-server : (a : Answer × Store) → (answered client a).1 ≡ a.1
  unfolding answered
  answered-server (done, t) = refl
  answered-server (conflicted, t) = refl
  answered-server (refused, t) = refl

  module _ (shows : Shows) (rel : Reliable client) (deletes : Deletes client) where
    -- A write of the status shows the node with it, and touches no other node.
    pub with_status-Shown :
        (name desired : String) (g : Got EdgeNode) (t : Store)
        → get cluster_namespace name t ≡ g
        → Shown desired (get cluster_namespace name (with_status client desired g t).1)
          × ((n : String)
              → (name == n) ≡ false
              → get cluster_namespace n (with_status client desired g t).1
                ≡ get cluster_namespace n t)
    unfolding with_status
    with_status-Shown name desired missing t e = (rw e tt, λ n other. refl)
    with_status-Shown name desired failed t e = (rw e tt, λ n other. refl)
    with_status-Shown name desired (got o) t e = elim (Bool-cases (o.status == desired)) [
      | inl same ↦ rw same (rw e ((eq_iff o.status desired).0 same), λ n other. refl)
      | inr differs ↦
          let (p, q) = rel.get-named cluster_namespace name t o e in
          let r : EdgeNode = record o { status = desired } in
          let there = subst₂ (λ a b. get a b t ≡ got o) (sym p) (sym q) e in
          rw (differs, answered-server (update r t))
            (
              subst₂ (λ a b. Shown desired (get a b (update r t).1)) p q
                  (shows.update-Shown r o t there),
              λ n other. rel.update-others r t cluster_namespace n (
                  subst (λ x. (o.meta.namespace == cluster_namespace && x == n) ≡ false) (sym q)
                    (ground (arith, other))),
            )
    ]

    -- A handler that changes the edge node of one name, and the map for it.
    pub changed-Consistent :
        (name : String) (c c' : Controller client)
        → ((n : String)
            → (name == n) ≡ false
            → (get cluster_namespace n c'.server ≡ get cluster_namespace n c.server)
              × (elem n c'.update_node_map ≡ elem n c.update_node_map))
        → (elem name c'.update_node_map ≡ true
            → Shown edge_node_not_ready (get cluster_namespace name c'.server))
        → Consistent c
        → Consistent c'
    changed-Consistent name c c' others itself h n member = elim (Bool-cases (name == n)) [
      | inl same ↦
          let e : name ≡ n = (eq_iff name n).0 same in
          subst
            (λ x.
              elem x c'.update_node_map ≡ true
              → Shown edge_node_not_ready (get cluster_namespace x c'.server))
            e itself member
      | inr other ↦
          let (g, m) = others n other in
          subst (Shown edge_node_not_ready) (sym g) (h n (sym m ∙ member))
    ]

    elem-add_updated_node :
        (name n : String) (c : Controller client)
        → (name == n) ≡ false
        → ((add_updated_node client name c).server ≡ c.server)
          × (elem n (add_updated_node client name c).update_node_map ≡ elem n c.update_node_map)
    unfolding add_updated_node
    elem-add_updated_node name n c other = elim (Bool-cases (elem name c.update_node_map)) [
      | inl e ↦ rw e (refl, refl)
      | inr e ↦ rw e (refl, ground (arith, other))
    ]

    add-server :
        (name : String) (c : Controller client) → (add_updated_node client name c).server ≡ c.server
    unfolding add_updated_node
    add-server name c = elim (Bool-cases (elem name c.update_node_map)) [
      | inl e ↦ rw e refl
      | inr e ↦ rw e refl
    ]

    -- The status is written, and the map stays.
    pub show-Consistent :
        (name : String) (c : Controller client)
        → Consistent c
        → Consistent (show client name edge_node_not_ready c)
    unfolding update_edge_node_status
    show-Consistent name c =
        let (now, others) =
          with_status-Shown name edge_node_not_ready (get cluster_namespace name c.server) c.server
            refl in
        changed-Consistent name c (show client name edge_node_not_ready c)
          (λ n other. (others n other, refl)) (λ member. now)

    -- The status is written, and the name is added.
    pub cut_off-Consistent :
        (name : String) (c : Controller client)
        → Consistent c
        → Consistent (add_updated_node client name (show client name edge_node_not_ready c))
    unfolding update_edge_node_status
    cut_off-Consistent name c =
        let (now, others) =
          with_status-Shown name edge_node_not_ready (get cluster_namespace name c.server) c.server
            refl in
        let c' = show client name edge_node_not_ready c in
        changed-Consistent name c (add_updated_node client name c')
          (λ n other. (
            ap (get cluster_namespace n) (add-server name c') ∙ others n other,
            (elem-add_updated_node name n c' other).1,
          ))
          (λ member.
            subst (λ t. Shown edge_node_not_ready (get cluster_namespace name t))
              (sym (add-server name c')) now)

    elem-delete_updated_node :
        (name n : String) (c : Controller client)
        → elem n (delete_updated_node client name c).update_node_map
          ≡ (elem n c.update_node_map && not (n == name))
    unfolding delete_updated_node
    elem-delete_updated_node name n c = elem-keep n (λ x. not (x == name)) c.update_node_map

    -- The name is taken away, whatever happens to its edge node.
    pub forgotten-Consistent :
        (name : String) (c : Controller client) (t : Store)
        → ((n : String)
            → (name == n) ≡ false
            → get cluster_namespace n t ≡ get cluster_namespace n c.server)
        → Consistent c
        → Consistent (delete_updated_node client name (record c { server = t }))
    unfolding delete_updated_node
    forgotten-Consistent name c t others =
        let c' : Controller client = record c { server = t } in
        changed-Consistent name c (delete_updated_node client name c')
          (λ n other. (
            others n other,
            ground (arith, elem-delete_updated_node name n c', eq_iff n name, eq_iff name n, other),
          ))
          (λ member.
            absurd (ground (arith, member, elem-delete_updated_node name name c', eq_refl name)))
