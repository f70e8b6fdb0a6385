-- ===== src/Tests/Start.antt =====
-- The configuration of a root with a shim of its own.
use ote_stack.Prelude.{true}
use ote_stack.Handler.{Config, Handler}

abbrev root_config : Config
root_config = record {
  tunnel_listen_addr = ":8287";
  parent_cluster = "";
  cluster_name = "root";
  cluster_user_define_name = "root";
  remote_shim_addr = "10.0.0.1:8262";
  k8s_client = true;
}

abbrev root_handler : Handler
root_handler = record { conf = root_config; k8s_enable = true; root_cluster_enable = true }
