-- ===== src/Edge/Start.antt =====
-- The two `valid` functions on the configuration that both handlers share.
use ote_stack.Prelude.{◌≡◌, Bool, true, false, ok, arith, ◌==◌, if◌then◌else◌}
use ote_stack.Handler.{Config, Handler, is_root}
use ote_stack.Handler.Start
use ote_stack.Edge

-- Where both handlers accept a configuration they agree: both know the root that has a shim of its
-- own as such, the root is the cluster without a parent, the tunnel has an address, and the root
-- has a client of the apiserver.
pub valid_agree :
    (c : Config) (h : Handler) (root_cluster_enable : Bool)
    → Start.valid c ≡ ok h
    → Edge.valid c ≡ ok root_cluster_enable
    → (h.conf ≡ c)
      × (h.root_cluster_enable ≡ root_cluster_enable)
      × (is_root h ≡ (c.parent_cluster == ""))
      × ((c.tunnel_listen_addr == "") ≡ false)
      × (h.k8s_enable ≡ c.k8s_client)
      × ((if is_root h then h.k8s_enable else true) ≡ true)
unfolding Start.valid Edge.valid
valid_agree c h b starts faces =
    (ground arith, ground arith, ground arith, ground arith, ground arith, ground arith)
