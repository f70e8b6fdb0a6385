-- ===== src/Tests/Cluster.antt =====
-- A cluster below the root, its children, and the root's apiserver.
use ote_stack.Prelude.{
  ℕ, String, ◌≡◌, refl, Bool, true, false, none, some, List, [], ◌∷◌, ◌++◌, arith, if◌then◌else◌,
  ◌==◌,
}
use ote_stack.Maps.{lookup}
use ote_stack.Message.{
  Bytes, CommandType, cluster_regist, cluster_unregist, ClusterMessage, ClusterRegistry, head_of,
  wrapper_to_cluster_message, serialize,
}
use ote_stack.Router.Routes.{route}
use ote_stack.Crd.{Cluster, cluster_namespace, online}
use ote_stack.Wire.{Wire}
use ote_stack.Handler.{Config, Handler, Effect, State, handle_later}
use ote_stack.Handler.Up.{handle_message_from_child}
use ote_stack.Handler.Connect.{registry_bytes, check_cluster_name, close_child, is_in_parent_pool}
use ote_stack.Handler.Connect.Lifecycle.{check_cluster_name_registers, close_child_forgets, without}
use ote_stack.Tests.Codecs.{
  only, only-marshal, only-RoundTrips, mute_wire, message_discrete, registry_discrete,
}
use ote_stack.Tests.Server.{one_slot, Slots}
use ote_stack.Tests.Routes.{table}

abbrev pub config : String → Config
config name = record {
  tunnel_listen_addr = ":8287";
  parent_cluster = "10.0.0.9";
  cluster_name = name;
  cluster_user_define_name = name;
  remote_shim_addr = "";
  k8s_client = true;
}

abbrev pub handler : String → Handler
handler name = record { conf = config name; k8s_enable = true; root_cluster_enable = false }

abbrev pub reach : Bytes → Bool
reach b = true

-- The child that connects, below the cluster `p`.
abbrev pub child : String → ClusterRegistry
child name = record {
  name = name;
  user_define_name = name;
  listen = "10.0.0.3";
  time = 5;
  parent_name = "p";
}

abbrev pub hook_message : CommandType → ClusterMessage
hook_message command = record { head = some (head_of command); body = 2 ∷ [] }

abbrev pub hook_wire : String → CommandType → Wire
hook_wire name command = record mute_wire {
  message = only message_discrete (hook_message command) (1 ∷ []);
  registry = only registry_discrete (child name) (2 ∷ []);
}

pub hook_bytes :
    (name : String) (command : CommandType)
    → registry_bytes (hook_wire name command) command (child name) ≡ some (1 ∷ [])
unfolding registry_bytes wrapper_to_cluster_message serialize
hook_bytes name command = ground (
  arith,
  only-marshal registry_discrete (child name) (2 ∷ []),
  only-marshal message_discrete (hook_message command) (1 ∷ []),
)

abbrev pub stored : Cluster
stored = record {
  name = "e";
  namespace = cluster_namespace;
  spec_name = "e";
  status = record {
    listen = "";
    parent_name = "p";
    status = online;
    timestamp = 3;
    capacity = [];
    allocatable = [];
  };
}

abbrev pub state : State Slots
state = record { router = table; server = (some stored, none); effects = [] }

check_cluster_name_registers_example :
    (check_cluster_name (hook_wire "e" cluster_regist) (handler "p") (child "e") state
      ≡ (true, record state { effects = handle_later "e" (1 ∷ []) ∷ [] }))
    × ((j : String)
        → route j
            (handle_message_from_child
              (hook_wire "e" cluster_regist)
              one_slot
              reach
              (handler "p")
              9
              "e"
              (1 ∷ [])
              state).1.router
          ≡ (if "e" == j then some "e" else route j table))
unfolding is_in_parent_pool lookup
check_cluster_name_registers_example =
    check_cluster_name_registers (hook_wire "e" cluster_regist) one_slot reach (handler "p")
      (child "e") (1 ∷ []) state state 9
      (only-RoundTrips message_discrete (hook_message cluster_regist) (1 ∷ []))
      (only-RoundTrips registry_discrete (child "e") (2 ∷ [])) (hook_bytes "e" cluster_regist) refl
      (λ p e. cc)

close_child_forgets_example :
    let s' = close_child (hook_wire "a" cluster_unregist) (handler "p") (child "a") state in
    (lookup "a" s'.router.childs ≡ none)
    × ((es : List Effect) × (s'.effects ≡ es ++ handle_later "a" (1 ∷ []) ∷ []))
    × ((now : ℕ) (t : State Slots) (j : String)
        → route j
            (handle_message_from_child
              (hook_wire "a" cluster_unregist)
              one_slot
              reach
              (handler "p")
              now
              "a"
              (1 ∷ [])
              t).1.router
          ≡ without "a" j (route j t.router))
close_child_forgets_example =
    close_child_forgets (hook_wire "a" cluster_unregist) one_slot reach (handler "p") (child "a")
      (1 ∷ []) state (only-RoundTrips message_discrete (hook_message cluster_unregist) (1 ∷ []))
      (only-RoundTrips registry_discrete (child "a") (2 ∷ [])) (hook_bytes "a" cluster_unregist)
