-- ===== src/Handler/Start.antt =====
-- `valid`: which configurations a cluster handler starts with.
use ote_stack.Prelude.{not, ◌&&◌, Result, ok, err, bad_config, ◌==◌, if◌then◌else◌}
use ote_stack.Message.{is_root_name}
use ote_stack.Handler.{Config, Handler}

-- `valid`, from the handler that `NewClusterHandler` makes. The constructors of the resource
-- clients never return nil, so their checks always pass.
unfoldable pub valid : Config → Result Handler
valid c =
    let root = is_root_name c.cluster_user_define_name in
    if c.cluster_user_define_name == ""
    then err bad_config
    else if c.parent_cluster == "" && not root
    then err bad_config
    else if not (c.parent_cluster == "") && root
    then err bad_config
    else if c.tunnel_listen_addr == ""
    then err bad_config
    else if root && not c.k8s_client
    then err bad_config
    else ok (record {
      conf = c;
      k8s_enable = c.k8s_client;
      root_cluster_enable = root && not (c.remote_shim_addr == "");
    })
