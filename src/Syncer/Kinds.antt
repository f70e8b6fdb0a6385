-- ===== src/Syncer/Kinds.antt =====
-- pkg/syncer/*_syncer.go: the syncers of the resources, and `registerSyncer`, which names them.
use ote_stack.Prelude.{String, Bool, List, [], ◌∷◌, ◌++◌, if◌then◌else◌}
use ote_stack.Storage.{Objects}
use ote_stack.Syncer.{
  SyncObject, SyncerKind, InformerEvent, WatchEvent, Subscriber, Store, handle_event,
}

-- `addKindAndVersion` of pod_syncer.go.
abbrev pub pod_syncer : SyncerKind
pod_syncer = record { obj_type = "pods"; api_version = "v1"; kind = "Pod" }

-- `addKindAndVersion` of node_syncer.go.
abbrev pub node_syncer : SyncerKind
node_syncer = record { obj_type = "nodes"; api_version = "v1"; kind = "Node" }

-- `addKindAndVersion` of service_syncer.go.
abbrev pub service_syncer : SyncerKind
service_syncer = record { obj_type = "services"; api_version = "v1"; kind = "Service" }

-- `addKindAndVersion` of endpoint_syncer.go.
abbrev pub endpoint_syncer : SyncerKind
endpoint_syncer = record { obj_type = "endpoints"; api_version = "v1"; kind = "Endpoints" }

-- `addKindAndVersion` of configmap_syncer.go.
abbrev pub configmap_syncer : SyncerKind
configmap_syncer = record { obj_type = "configmaps"; api_version = "v1"; kind = "ConfigMap" }

-- `addKindAndVersion` of secret_syncer.go.
abbrev pub secret_syncer : SyncerKind
secret_syncer = record { obj_type = "secrets"; api_version = "v1"; kind = "Secret" }

-- `addKindAndVersion` of namespace_syncer.go.
abbrev pub namespace_syncer : SyncerKind
namespace_syncer = record { obj_type = "namespaces"; api_version = "v1"; kind = "Namespace" }

-- `addKindAndVersion` of event_syncer.go. The kind is that of nodes.
abbrev pub event_syncer : SyncerKind
event_syncer = record { obj_type = "events"; api_version = "v1"; kind = "Node" }

-- `addKindAndVersion` of lease_syncer.go.
abbrev pub lease_syncer : SyncerKind
lease_syncer = record {
  obj_type = "leases";
  api_version = "coordination.k8s.io/v1";
  kind = "Lease";
}

-- `addKindAndVersion` of networkpolicy_syncer.go.
abbrev pub networkpolicy_syncer : SyncerKind
networkpolicy_syncer = record {
  obj_type = "networkpolicies";
  api_version = "networking.k8s.io/v1";
  kind = "NetworkPolicy";
}

-- `addKindAndVersion` of csidriver_syncer.go.
abbrev pub csidriver_syncer : SyncerKind
csidriver_syncer = record {
  obj_type = "csidrivers";
  api_version = "storage.k8s.io/v1beta1";
  kind = "CSIDriver";
}

-- `addKindAndVersion` of csinode_syncer.go.
abbrev pub csinode_syncer : SyncerKind
csinode_syncer = record {
  obj_type = "csinodes";
  api_version = "storage.k8s.io/v1";
  kind = "CSINode";
}

-- `addKindAndVersion` of runtimeclass_syncer.go.
abbrev pub runtimeclass_syncer : SyncerKind
runtimeclass_syncer = record {
  obj_type = "runtimeclasses";
  api_version = "node.k8s.io/v1beta1";
  kind = "RuntimeClass";
}

-- `addKindAndVersion` of csr_syncer.go.
abbrev pub csr_syncer : SyncerKind
csr_syncer = record {
  obj_type = "certificatesigningrequests";
  api_version = "certificates.k8s.io/v1beta1";
  kind = "CertificateSigningRequest";
}

-- `registerSyncer`: six of the syncers are there only if the apiserver knows their resource.
unfoldable pub register_syncer : (String → Bool) → List SyncerKind
register_syncer check_resource_exist =
    let optional = λ (k : SyncerKind). if check_resource_exist k.obj_type then k ∷ [] else [] in
    (pod_syncer ∷ node_syncer ∷ service_syncer ∷ endpoint_syncer ∷ configmap_syncer ∷ secret_syncer
      ∷ namespace_syncer ∷ event_syncer ∷ [])
    ++ optional lease_syncer
    ++ optional networkpolicy_syncer
    ++ optional csidriver_syncer
    ++ optional csinode_syncer
    ++ optional runtimeclass_syncer
    ++ optional csr_syncer

module _ (objects : Objects SyncObject) (disk : Bool) (Channel : Type 0) where
  abbrev Handler : Type 0
  Handler = Subscriber Channel → InformerEvent → Store → List (Channel × WatchEvent) × Store

  -- The handlers of pod_syncer.go
  unfoldable pub handle_pod_sync : Handler
  handle_pod_sync = handle_event objects disk pod_syncer

  -- The handlers of node_syncer.go
  unfoldable pub handle_node_sync : Handler
  handle_node_sync = handle_event objects disk node_syncer

  -- The handlers of service_syncer.go
  unfoldable pub handle_service_sync : Handler
  handle_service_sync = handle_event objects disk service_syncer

  -- The handlers of endpoint_syncer.go
  unfoldable pub handle_endpoint_sync : Handler
  handle_endpoint_sync = handle_event objects disk endpoint_syncer

  -- The handlers of configmap_syncer.go
  unfoldable pub handle_configmap_sync : Handler
  handle_configmap_sync = handle_event objects disk configmap_syncer

  -- The handlers of secret_syncer.go
  unfoldable pub handle_secret_sync : Handler
  handle_secret_sync = handle_event objects disk secret_syncer

  -- The handlers of namespace_syncer.go
  unfoldable pub handle_namespace_sync : Handler
  handle_namespace_sync = handle_event objects disk namespace_syncer

  -- The handlers of event_syncer.go
  unfoldable pub handle_event_sync : Handler
  handle_event_sync = handle_event objects disk event_syncer

  -- The handlers of lease_syncer.go
  unfoldable pub handle_lease_sync : Handler
  handle_lease_sync = handle_event objects disk lease_syncer

  -- The handlers of networkpolicy_syncer.go
  unfoldable pub handle_networkpolicy_sync : Handler
  handle_networkpolicy_sync = handle_event objects disk networkpolicy_syncer

  -- The handlers of csidriver_syncer.go
  unfoldable pub handle_csidriver_sync : Handler
  handle_csidriver_sync = handle_event objects disk csidriver_syncer

  -- The handlers of csinode_syncer.go
  unfoldable pub handle_csinode_sync : Handler
  handle_csinode_sync = handle_event objects disk csinode_syncer

  -- The handlers of runtimeclass_syncer.go
  unfoldable pub handle_runtimeclass_sync : Handler
  handle_runtimeclass_sync = handle_event objects disk runtimeclass_syncer

  -- The handlers of csr_syncer.go
  unfoldable pub handle_csr_sync : Handler
  handle_csr_sync = handle_event objects disk csr_syncer
