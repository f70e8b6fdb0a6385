-- ===== src/Edge/Delivery.antt =====
-- A directed message from the parent's `selectChild` to the child that carries it out.
use ote_stack.Prelude.{String, ◌≡◌, ◌∙◌, refl, true, ℕ, Bool, some, [], ◌∷◌, ok, arith, elem}
use ote_stack.Maps.{lookup}
use ote_stack.Message.{Bytes, MessageHead, ClusterMessage, RoundTrips}
use ote_stack.Selector.{new_selector, has, clusters_to_selector}
use ote_stack.Router.{ClusterRouter}
use ote_stack.Router.Routes.{route}
use ote_stack.Wire.{Wire}
use ote_stack.Handler.{Config}
use ote_stack.Handler.Down.{select_child}
use ote_stack.Handler.Down.Directed.{narrowed, selected_via, lookup-select_child, elem-selected_via}
use ote_stack.Selector.Laws.{AllNames, new_selector-clusters_to_selector, has_of_elem}
use ote_stack.Edge.{Shim, to_cluster, handle_message, receive_message_from_tunnel, List}

-- The message for a port: the given one, addressed to the clusters behind the port.
abbrev pub addressed : MessageHead → Bytes → List String → ClusterMessage
addressed head body cs = record {
  head = some (record head { cluster_selector = clusters_to_selector cs });
  body = body;
}

narrowed-addressed :
    (head : MessageHead) (body : Bytes) (c : String) (cs : List String)
    → elem c cs ≡ true
    → narrowed head body cs ≡ some (addressed head body cs)
narrowed-addressed head body c [] e = absurd (ground arith)
narrowed-addressed head body c (d ∷ ds) e = refl

still_selected :
    (matches : String → String → Bool) (c : String) (cs : List String)
    → elem c cs ≡ true
    → matches c c ≡ true
    → AllNames cs
    → has matches (new_selector (clusters_to_selector cs)) c ≡ true
still_selected matches c [] e self names = absurd (ground arith)
still_selected matches c (d ∷ ds) e self names =
    rw (new_selector-clusters_to_selector d ds names) (has_of_elem matches c (d ∷ ds) c e self)

module _ (wire : Wire) (shim : Shim) (room : Bytes → Bool) (c : Config)
    (matches : String → String → Bool) where
  -- Where the codec of messages round-trips: a selected cluster `c` that is itself a child, routed
  -- to itself, with a name that matches itself, gets the request addressed to the selected clusters
  -- behind it, if these have plain names. When that message arrives at `c` as the bytes `b`, `c`
  -- hands it to its own cluster handler and carries out the command of the request itself.
  pub directed_message_arrives :
      (head : MessageHead) (body b : Bytes) (r : ClusterRouter) (now : ℕ)
      → let cs = selected_via matches (new_selector head.cluster_selector) c.cluster_name r in
        RoundTrips wire.message
        → route c.cluster_name r ≡ some c.cluster_name
        → has matches (new_selector head.cluster_selector) c.cluster_name ≡ true
        → matches c.cluster_name c.cluster_name ≡ true
        → AllNames cs
        → wire.message.marshal (addressed head body cs) ≡ some b
        → (lookup c.cluster_name (select_child matches head body r) ≡ some (addressed head body cs))
          × (receive_message_from_tunnel wire shim room c matches now b ≡ (
            ok tt,
            to_cluster (addressed head body cs)
                ∷ (handle_message wire shim room c now head.command (addressed head body cs)).1,
          ))
  unfolding receive_message_from_tunnel
  directed_message_arrives head body b r now rm e sel self names wrote =
      let cs = selected_via matches (new_selector head.cluster_selector) c.cluster_name r in
      let here =
        elem-selected_via matches head.cluster_selector c.cluster_name c.cluster_name r e sel in
      (
        lookup-select_child matches head body r c.cluster_name
            ∙ narrowed-addressed head body c.cluster_name cs here,
        rw (rm.read_back (addressed head body cs) b wrote, receive_message_from_tunnel)
            (rw (still_selected matches c.cluster_name cs here self names) refl),
      )
