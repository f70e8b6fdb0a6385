-- ===== src/Handler/Down/Directed.antt =====
-- The directed broadcast: which messages `selectChild` makes, and what they select further down.
use mathlib.Core.Bool.{false≢true}
use ote_stack.Prelude.{
  eq_refl, String, ◌≡◌, refl, Bool, true, Option, none, some, List, [], ◌∷◌, keep, elem, elem-keep,
  holds, ap, ◌∙◌, arith,
}
use ote_stack.Maps.{Map, lookup}
use ote_stack.Message.{Bytes, MessageHead, ClusterMessage}
use ote_stack.Selector.{new_selector, clusters_to_selector, has}
use ote_stack.Selector.Laws.{AllNames, new_selector-clusters_to_selector, has_of_elem}
use ote_stack.Router.{ClusterRouter, subtree_clusters, ports_to_subtree_clusters}
use ote_stack.Router.Routes.{route}
use ote_stack.Router.Ports.{entry, lookup-ports_to_subtree_clusters, elem-subtree_clusters}
use ote_stack.Handler.Down.{port_messages, select_child}

-- The message for a port that reaches these clusters: none for no cluster, and otherwise the
-- given message with a selector that names them.
abbrev pub narrowed : MessageHead → Bytes → List String → Option ClusterMessage
narrowed head body [] = none
narrowed head body (c ∷ cs) = some (record {
  head = some (record head { cluster_selector = clusters_to_selector (c ∷ cs) });
  body = body;
})

-- The clusters with a route through the port that a selector selects.
abbrev pub selected_via :
    (String → String → Bool) → List String → String → ClusterRouter → List String
selected_via matches patterns port r =
    keep (λ c. holds port (route c r)) (keep (has matches patterns) (subtree_clusters r))

narrow_entry : MessageHead → Bytes → Option (List String) → Option ClusterMessage
narrow_entry head body none = none
narrow_entry head body (some cs) = some (record {
  head = some (record head { cluster_selector = clusters_to_selector cs });
  body = body;
})

lookup-port_messages :
    (head : MessageHead) (body : Bytes) (m : Map (List String)) (p : String)
    → lookup p (port_messages head body m) ≡ narrow_entry head body (lookup p m)
unfolding port_messages lookup narrow_entry
lookup-port_messages head body [] p = refl
lookup-port_messages head body ((q, cs) ∷ m) p = ground (arith, lookup-port_messages head body m p)

narrow_entry-entry :
    (head : MessageHead) (body : Bytes) (cs : List String)
    → narrow_entry head body (entry cs) ≡ narrowed head body cs
unfolding narrow_entry
narrow_entry-entry head body [] = refl
narrow_entry-entry head body (c ∷ cs) = refl

module _ (matches : String → String → Bool) (head : MessageHead) (body : Bytes)
    (r : ClusterRouter) where
  -- The directed broadcast has for a port the given message, its selector replaced by the names of
  -- the selected clusters whose route leaves by the port, and no message for a port without such a
  -- cluster.
  pub lookup-select_child :
      (p : String)
      → lookup p (select_child matches head body r)
        ≡ narrowed head body (selected_via matches (new_selector head.cluster_selector) p r)
  unfolding select_child
  lookup-select_child p =
      let sel = keep (has matches (new_selector head.cluster_selector)) (subtree_clusters r) in
      lookup-port_messages head body (ports_to_subtree_clusters sel r) p
      ∙ ap (narrow_entry head body) (lookup-ports_to_subtree_clusters sel r p)
      ∙ narrow_entry-entry head body (keep (λ c. holds p (route c r)) sel)

-- What a message carries on: its head but for the selector, and its body.
abbrev pub SameTask : MessageHead → Bytes → ClusterMessage → MessageHead → Type 0
SameTask head body msg head' =
    (msg.head ≡ some head')
    × (msg.body ≡ body)
    × (head'.message_id ≡ head.message_id)
    × (head'.command ≡ head.command)
    × (head'.parent_cluster_name ≡ head.parent_cluster_name)

pub elem-selected_via :
    (matches : String → String → Bool) (selector c p : String) (r : ClusterRouter)
    → route c r ≡ some p
    → has matches (new_selector selector) c ≡ true
    → elem c (selected_via matches (new_selector selector) p r) ≡ true
elem-selected_via matches selector c p r e sel = ground (
  arith,
  elem-keep c (λ x. holds p (route x r))
      (keep (has matches (new_selector selector)) (subtree_clusters r)),
  elem-keep c (has matches (new_selector selector)) (subtree_clusters r),
  elem-subtree_clusters c r,
  eq_refl p,
)

module _ (matches : String → String → Bool) where
  delivered :
      (head : MessageHead) (body : Bytes) (c : String) (cs : List String)
      → elem c cs ≡ true
      → matches c c ≡ true
      → AllNames cs
      → (msg : ClusterMessage) × (narrowed head body cs ≡ some msg)
        × ((head' : MessageHead) × SameTask head body msg head'
            × (new_selector head'.cluster_selector ≡ cs)
            × (has matches (new_selector head'.cluster_selector) c ≡ true))
  delivered head body c [] e self names = absurd (false≢true e)
  delivered head body c (d ∷ ds) e self names =
      let back = new_selector-clusters_to_selector d ds names in
      (
        _,
        refl,
        (
          record head { cluster_selector = clusters_to_selector (d ∷ ds) },
          (refl, refl, refl, refl, refl),
          back,
          rw back (has_of_elem matches c (d ∷ ds) c e self),
        ),
      )

  -- A cluster that the selector selects, that has a route, and whose name as a pattern matches
  -- itself, is reached, if the selected clusters behind its port have plain names: the message for
  -- that port keeps the task, its selector reads back as exactly these clusters, and it selects the
  -- cluster.
  pub select_child_complete :
      (head : MessageHead) (body : Bytes) (r : ClusterRouter) (c p : String)
      → route c r ≡ some p
      → has matches (new_selector head.cluster_selector) c ≡ true
      → matches c c ≡ true
      → AllNames (selected_via matches (new_selector head.cluster_selector) p r)
      → (msg : ClusterMessage) × (lookup p (select_child matches head body r) ≡ some msg)
        × ((head' : MessageHead) × SameTask head body msg head'
            × (new_selector head'.cluster_selector
                ≡ selected_via matches (new_selector head.cluster_selector) p r)
            × (has matches (new_selector head'.cluster_selector) c ≡ true))
  select_child_complete head body r c p e sel self names =
      let patterns = new_selector head.cluster_selector in
      let here = elem-selected_via matches head.cluster_selector c p r e sel in
      let (msg, made, rest) =
        delivered head body c (selected_via matches patterns p r) here self names in
      (msg, lookup-select_child matches head body r p ∙ made, rest)
