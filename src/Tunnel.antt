-- ===== src/Tunnel.antt =====
-- pkg/tunnel/cloudtunnel.go: the connected children and controller managers.
-- A websocket is a number; whether an upgrade or a write succeeds is a parameter. The hooks are the
-- cluster handler's, as `NewClusterHandler` and `Start` register them.
pub mod Session
pub mod Controllers
use ote_stack.Prelude.{
  ℕ, zero, suc, String, Bool, true, false, not, Option, none, some, List, [], ◌∷◌, ◌++◌, Result, ok,
  err, no_client, write_failed, if◌then◌else◌, ◌==◌, is_some, length, get_elem?,
}
use ote_stack.Maps.{Map, lookup, insert, erase, keys}
use ote_stack.Message.{Bytes, ClusterRegistry}
use ote_stack.Wire.{Wire}
use ote_stack.Handler.{Handler, State}
use ote_stack.Handler.Connect.{check_cluster_name, after_cluster_connect, close_child}

-- `cloudTunnel`, without its hooks and its server.
pub record Tunnel : Type 0 where
  pub clients : Map ℕ
  pub controllers : Map ℕ
  pub controllers_key : List String

-- The tunnel beside the state of its cluster handler.
pub record Cloud (Server : Type 0) : Type 0 where
  pub tunnel : Tunnel
  pub state : State Server

-- What `accessHandler` answers.
pub data Access : Type 0 where
  redirected : String → Access
  bad_request forbidden upgrade_failed : Access
  accepted : ClusterRegistry → Access

-- The name in the path and the two headers of a request.
pub record AccessRequest : Type 0 where
  pub cluster : String
  pub listen : String
  pub user_define_name : String

-- The registry that `accessHandler` makes of a request.
abbrev pub registry_of : AccessRequest → ℕ → ClusterRegistry
registry_of q now = record {
  name = q.cluster;
  user_define_name = q.user_define_name;
  listen = q.listen;
  time = now;
  parent_name = "";
}

module _ (wire : Wire) {Server : Type 0} where
  -- The end of `accessHandler`, with the result of the name check.
  upgraded : ClusterRegistry → Bool → Bool × State Server → Access × State Server
  upgraded cr upgrade (false, s) = (forbidden, s)
  upgraded cr upgrade (true, s) = (if upgrade then accepted cr else upgrade_failed, s)

  -- `accessHandler`; `redirect` is the result of its hook, and `upgrade` that of the websocket
  -- library.
  unfoldable pub access_handler :
      Handler → String → AccessRequest → ℕ → Bool → Cloud Server → Access × State Server
  unfolding upgraded
  access_handler h redirect q now upgrade c =
      if not (redirect == "")
      then (redirected redirect, c.state)
      else if q.listen == ""
      then (bad_request, c.state)
      else if q.user_define_name == ""
      then (bad_request, c.state)
      else if is_some (lookup q.cluster c.tunnel.clients)
      then (forbidden, c.state)
      else upgraded (registry_of q now) upgrade
          (check_cluster_name wire h (registry_of q now) c.state)

  -- The start of `connect`: a second connection under a name is closed at once.
  unfoldable pub connect : ClusterRegistry → ℕ → Cloud Server → Cloud Server
  connect cr conn c = elim (lookup cr.name c.tunnel.clients) [
    | some other ↦ c
    | none ↦ record c {
      tunnel = record (c.tunnel) { clients = insert cr.name conn c.tunnel.clients };
      state = after_cluster_connect wire cr c.state;
    }
  ]

  -- The end of `connect`, once reading has failed: `clients.Delete`.
  unfoldable pub disconnect : String → Cloud Server → Cloud Server
  disconnect name c = record c {
    tunnel = record (c.tunnel) { clients = erase name c.tunnel.clients };
  }

  -- `go t.notifyClientClosed(cr)`, which runs at some time after the failed read.
  unfoldable pub notify_client_closed : Handler → ℕ → ClusterRegistry → Cloud Server → Cloud Server
  notify_client_closed h now cr c = record c {
    state = close_child wire h (record cr { time = now }) c.state;
  }

-- `Send`; `write` says whether a websocket takes the data.
unfoldable pub send : (ℕ → Bytes → Bool) → String → Bytes → Tunnel → Result (Unit {0})
send write name data' t = elim (lookup name t.clients) [
  | none ↦ err no_client
  | some conn ↦ (if write conn data' then ok tt else err write_failed)
]

-- `removeFromSliceByValue`: the slice without the first entry of the value.
unfoldable pub remove_from_slice_by_value : String → List String → List String
remove_from_slice_by_value s [] = []
remove_from_slice_by_value s (v ∷ vs) = if v == s then vs else v ∷ remove_from_slice_by_value s vs

-- The last entry of a list that is not empty.
unfoldable pub last_of : String → List String → String
last_of v [] = v
last_of v (w ∷ vs) = last_of w vs

-- The start of `controllerHandler` once the connection is there.
unfoldable pub add_controller : String → ℕ → Tunnel → Tunnel
add_controller addr conn t = elim (lookup addr t.controllers) [
  | some other ↦ t
  | none ↦ record t {
    controllers = insert addr conn t.controllers;
    controllers_key = t.controllers_key ++ addr ∷ [];
  }
]

-- The end of `handleControlMsg`
unfoldable pub del_controller : String → Tunnel → Tunnel
del_controller addr t = record t {
  controllers = erase addr t.controllers;
  controllers_key = remove_from_slice_by_value addr t.controllers_key;
}

module _ (choose : ℕ → ℕ) (controllers : Map ℕ) where
  -- `findAController` on a slice `keys'` of the tunnel's array, with `behind` the entries of the
  -- array behind the slice: the controller, and the array afterwards. `choose n` is `rand.Intn(n)`.
  -- Removing an entry moves the later ones of the slice down in the shared array, where the last
  -- one stays behind the shorter slice.
  unfoldable pub find_a_controller : ℕ → List String → List String → Option String × List String
  find_a_controller zero keys' behind = (none, keys' ++ behind)
  find_a_controller (suc fuel) [] behind = (none, behind)
  find_a_controller (suc fuel) (v ∷ vs) behind =
      elim (get_elem? (v ∷ vs) (choose (length (v ∷ vs)))) [
        | none ↦ (none, v ∷ vs ++ behind)
        | some name ↦ elim (is_some (lookup name controllers)) [
          | true ↦ (some name, v ∷ vs ++ behind)
          | false ↦
              find_a_controller fuel (remove_from_slice_by_value name (v ∷ vs))
                (last_of v vs ∷ behind)
        ]
      ]

-- `SendToControllerManager`
unfoldable pub send_to_controller_manager :
    (ℕ → ℕ) → (ℕ → Bytes → Bool) → Bytes → Tunnel → Result (Unit {0}) × Tunnel
send_to_controller_manager choose write data' t =
    let (found, keys') =
      find_a_controller choose t.controllers (length t.controllers_key) t.controllers_key [] in
    let t' = record t { controllers_key = keys' } in
    elim found [
      | none ↦ (err no_client, t')
      | some name ↦ elim (lookup name t.controllers) [
        | none ↦ (err no_client, t')
        | some conn ↦ (if write conn data' then ok tt else err write_failed, t')
      ]
    ]
