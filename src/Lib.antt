-- ===== src/Lib.antt =====
-- ote-stack: the routing and control layer of a tree of clusters.
--
-- A cluster controller knows its children, its parent's children (its neighbors), and, for every
-- cluster below it, the child through which it is reached. Requests go down the tree to the clusters
-- that a selector names; registrations, subtree reports and responses go up; the root keeps the
-- state of all clusters at an apiserver. The parts and their files:
--
-- Maps: Go's maps, and `reflect.DeepEqual` on them.
-- Message: pkg/clustermessage (clustermessage.proto, util.go) and the registry of
--   pkg/config/config.go. Protobuf and JSON are codecs, parameters whose only law, where a theorem
--   wants it, is that written bytes read back (`RoundTrips`). Wire collects one codec per type.
-- Selector: pkg/clusterselector/selector.go, with Go's `strings` functions in Selector/Split. The
--   regular expressions are a parameter `matches`.
-- Router: pkg/clusterrouter/router.go, all its methods. Each runs under the router's mutex and so is
--   one step; what it passes to its notifier is returned beside the new router.
-- Crd: the resources of pkg/apis/ote/v1/types.go and `UpdateStatus` of pkg/k8sclient/cluster.go. The
--   apiserver is a parameter `Api`; `Reliable` states what the client relies on.
-- Handler: pkg/clusterhandler/clusterhandler.go. Start has `valid`; Up the messages from children
--   (`handleMessageFromChild` and what it calls); Down those from the parent, from controller
--   managers and from clustercontroller resources; Connect the hooks of the cloud tunnel. A message
--   that a handler sends, and a goroutine that it starts, is an `Effect` of its `State`.
-- Edge: pkg/edgehandler/edgehandler.go, the side of a controller that faces its parent. The shim
--   client is a parameter, which Shim fills.
-- Balancer: pkg/loadbalancer, the list of apiserver backends of an edge hub. `rand.Shuffle` and
--   `net.DialTimeout` are parameters.
-- Tunnel: pkg/tunnel/cloudtunnel.go, the table of connected children and controller managers.
-- Storage: pkg/storage, the edge hub's caches and LevelDB. Objects, their keys and their JSON form
--   are parameters.
-- Syncer: pkg/syncer, which keeps the objects of the apiserver in the edge hub's storage and passes
--   them to the node's watchers, for all 14 resources (Kinds), and the loop of
--   cmd/edgehub/app/app.go that starts and stops it (Session).
-- Kube: Kubernetes objects, and their client as a parameter `Client`. `Reliable`, `Deletes` and
--   `Lists` state what the code relies on of the apiserver.
-- Reporter: pkg/reporter, what an edge cluster reports. Pods collects the pods' events until the next
--   tick; Resources sends the events of the other kinds at once; Status is the cluster's status.
-- Manager: pkg/controllermanager, which applies the reports at the center. The processors of pods,
--   nodes, deployments, daemonsets and services are one set of functions over a `Kind`, which has
--   what they do differently (Kinds); Events has that of events, and Upstream the dispatch.
-- EdgeNode: pkg/controller/edgenode, which shows the nodes as edge nodes, and reports those that are
--   cut off as ready.
-- EdgeTunnel: pkg/tunnel/edgetunnel.go, how an edge cluster finds a parent again: Blacklist and Found.
-- ControllerTunnel: pkg/tunnel/controller_tunnel.go, how the messages of a controller manager's
--   controllers reach the root over failures of the connection; its steps are those of the goroutines.
-- Namespaces: pkg/controller/namespace and pkg/controller/clustercrd, which send the namespaces of the
--   center to the clusters as tasks.
-- Shim: pkg/clustershim, how a cluster carries out a task, with the apiserver and an HTTP service as
--   parameters. Client is the shim client of the edge handler, Server the shim server; Recorded follows
--   a task from the edge handler to the root, and Remote compares the local shim with the remote one.
-- Certificate: pkg/server/certificate, the service that a k3s agent asks for its configuration and its
--   certificates. Token has the tokens, Service the handlers; URLs, HTTP and hashes are a parameter `Net`.
-- Hub: pkg/server/handler and the handlers of the resources under pkg/server, the edge hub's API for
--   Kubernetes. A `ResourceKind` has what a resource's handler does differently (Kinds); Service has
--   the handlers of the routes, Session the watches. The apiserver is a parameter `K8sClient`.
-- Text: Go's `strings.HasPrefix` and `strings.SplitN`.
-- Tests: concrete inputs.
--
-- A handler of one component calls the others as the code does: `handle_message_from_child` calls the
-- router's `add_route`, the apiserver's `update_status` and the tunnel; `select_child` calls the
-- selector and the router; the edge handler reports the router's table to the parent, whose handler
-- updates its own. The storage is filled by the syncers while the backends are healthy, and by
-- the hub's own API otherwise. A reporter's message goes up the tree to a controller manager at the
-- root, whose processors read it.
--
-- Loops are structural recursions over the lists that the code ranges over. The two that the code
-- does not bound run on fuel: `try_backends` on the length of the list, which is the code's own
-- bound, and `find_a_controller` on the number of keys, one of which goes at every turn.
-- `reconnect`, which may go on for ever, runs on the list of the answers that it gets.
--
-- Times, status codes and indices are natural numbers: the code gets the first from the clock and
-- only compares them or takes their difference, and never computes with the second. A range over a
-- map visits its keys in the order of the list that stands for it; the laws do not depend on it.
--
-- Not modelled: the goroutines' scheduling beyond the order of effects, mutexes, timeouts other than
-- as a refused send, logging; the informers and how the parts are started, listening, TLS and routing
-- of requests, and the other commands, which mostly call libraries; generated code.
mod Prelude
pub mod Maps
pub mod Selector
pub mod Message
pub mod Router
pub mod Crd
pub mod Wire
pub mod Handler
pub mod Edge
pub mod Balancer
pub mod Tunnel
pub mod Storage
pub mod Syncer
pub mod Kube
pub mod Reporter
pub mod Manager
pub mod EdgeNode
pub mod EdgeTunnel
pub mod Shim
pub mod Text
pub mod Certificate
pub mod Namespaces
pub mod Hub
pub mod ControllerTunnel
pub mod Tests
