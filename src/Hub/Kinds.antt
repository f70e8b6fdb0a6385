-- ===== src/Hub/Kinds.antt =====
-- pkg/server/*/resource and register.go: the handlers of the resources, in the maps of their groups.
use ote_stack.Prelude.{String, true, false, [], ◌∷◌}
use ote_stack.Maps.{Map}
use ote_stack.Hub.Resource.{ResourceKind}

-- What most handlers have.
abbrev common : String → String → String → ResourceKind
common obj_type list_kind api_version = record {
  obj_type = obj_type;
  list_kind = list_kind;
  api_version = api_version;
  list_version = "";
  keyed = true;
  listed = true;
  by_namespace = true;
}

-- apiv1/resource/pod.go
abbrev pub pod_handler : ResourceKind
pod_handler = common "pods" "PodList" "v1"

-- apiv1/resource/node.go
abbrev pub node_handler : ResourceKind
node_handler = record (common "nodes" "NodeList" "v1") { by_namespace = false }

-- apiv1/resource/service.go
abbrev pub service_handler : ResourceKind
service_handler = common "services" "ServiceList" "v1"

-- apiv1/resource/endpoint.go
abbrev pub endpoint_handler : ResourceKind
endpoint_handler = common "endpoints" "EndpointsList" "v1"

-- apiv1/resource/configmap.go
abbrev pub configmap_handler : ResourceKind
configmap_handler = record (common "configmaps" "ConfigMapList" "v1") {
  keyed = false;
  list_version = "1";
}

-- apiv1/resource/secret.go
abbrev pub secret_handler : ResourceKind
secret_handler = record (common "secrets" "SecretList" "v1") { keyed = false; list_version = "1" }

-- apiv1/resource/event.go
abbrev pub event_handler : ResourceKind
event_handler = record (common "events" "" "") { listed = false }

-- apiv1/resource/namespace.go
abbrev pub namespace_handler : ResourceKind
namespace_handler = record (common "namespaces" "NamespaceList" "v1") { by_namespace = false }

-- apiscoordination/resource/lease.go
abbrev pub lease_handler : ResourceKind
lease_handler = common "leases" "LeaseList" "coordination.k8s.io/v1"

-- apisnetworking/resource/networkpolicy.go
abbrev pub networkpolicy_handler : ResourceKind
networkpolicy_handler = common "networkpolicies" "NetworkPolicyList" "networking.k8s.io/v1"

-- apisstorage/resource/csidriver.go
abbrev pub csidriver_handler : ResourceKind
csidriver_handler = common "csidrivers" "CSIDriverList" "storage.k8s.io/v1beta1"

-- apisstorage/resource/csinode.go
abbrev pub csinode_handler : ResourceKind
csinode_handler = common "csinodes" "CSINodeList" "storage.k8s.io/v1"

-- apisnode/resource/runtimeclass.go
abbrev pub runtimeclass_handler : ResourceKind
runtimeclass_handler = common "runtimeclasses" "RuntimeClassList" "node.k8s.io/v1beta1"

-- apiscertificates/resource/certificatesigningrequest.go
abbrev pub certificatesigningrequest_handler : ResourceKind
certificatesigningrequest_handler =
    common "certificatesigningrequests" "CertificateSigningRequestList"
      "certificates.k8s.io/v1beta1"

-- apisauthentication/resource/tokenreview.go
abbrev pub tokenreview_handler : ResourceKind
tokenreview_handler = record (common "tokenreviews" "" "") { listed = false }

-- apisauthorization/resource/subjectaccessreview.go
abbrev pub subjectaccessreview_handler : ResourceKind
subjectaccessreview_handler = record (common "subjectaccessreviews" "" "") { listed = false }

-- `NewServiceHandler` of apiv1/register.go
abbrev pub core_handlers : Map ResourceKind
core_handlers =
    ("pods", pod_handler)
    ∷ ("nodes", node_handler)
    ∷ ("services", service_handler)
    ∷ ("endpoints", endpoint_handler)
    ∷ ("configmaps", configmap_handler)
    ∷ ("secrets", secret_handler)
    ∷ ("events", event_handler)
    ∷ ("namespaces", namespace_handler)
    ∷ []

-- `NewServiceHandler` of apiscoordination/register.go
abbrev pub coordination_handlers : Map ResourceKind
coordination_handlers = ("leases", lease_handler) ∷ []

-- `NewServiceHandler` of apisnetworking/register.go
abbrev pub networking_handlers : Map ResourceKind
networking_handlers = ("networkpolicies", networkpolicy_handler) ∷ []

-- `NewServiceHandler` of apisstorage/register.go
abbrev pub storage_handlers : Map ResourceKind
storage_handlers = ("csidrivers", csidriver_handler) ∷ ("csinodes", csinode_handler) ∷ []

-- `NewServiceHandler` of apisnode/register.go
abbrev pub node_handlers : Map ResourceKind
node_handlers = ("runtimeclasses", runtimeclass_handler) ∷ []

-- `NewServiceHandler` of apiscertificates/register.go
abbrev pub certificates_handlers : Map ResourceKind
certificates_handlers = ("certificatesigningrequests", certificatesigningrequest_handler) ∷ []

-- `NewServiceHandler` of apisauthentication/register.go
abbrev pub authentication_handlers : Map ResourceKind
authentication_handlers = ("tokenreviews", tokenreview_handler) ∷ []

-- `NewServiceHandler` of apisauthorization/register.go
abbrev pub authorization_handlers : Map ResourceKind
authorization_handlers = ("subjectaccessreviews", subjectaccessreview_handler) ∷ []
