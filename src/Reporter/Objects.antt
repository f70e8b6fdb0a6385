-- ===== src/Reporter/Objects.antt =====
-- The objects that pkg/reporter reports, other than pods: the fields that the code names, and
-- `others` for all other fields. A structure that is only copied is its text, and so is a quantity.
use ote_stack.Prelude.{String, Bool, List, ℕ, false, []}
use ote_stack.Maps.{Map}
use ote_stack.Kube.{ObjectMeta, Resource}

-- What is left of the metadata of an object that is reported lightly.
abbrev pub light_meta : ObjectMeta → ObjectMeta
light_meta m = record {
  name = m.name;
  namespace = m.namespace;
  uid = "";
  resource_version = "";
  labels = m.labels;
  annotations = [];
  deletion_timestamp = false;
}

pub record NodeCondition : Type 0 where
  pub kind : String
  pub status : String
  pub reason : String

pub record NodeSpec : Type 0 where
  pub unschedulable : Bool
  pub others : String

pub record NodeStatus : Type 0 where
  pub conditions : List NodeCondition
  pub node_info : String
  pub addresses : String
  pub capacity : Map String
  pub allocatable : Map String
  pub others : String

abbrev pub Node : Type 0
Node = Resource NodeSpec NodeStatus

pub record DeploymentSpec : Type 0 where
  pub template : String
  pub selector : String
  pub replicas : String
  pub others : String

pub record DeploymentStatus : Type 0 where
  pub replicas : ℕ
  pub updated_replicas : ℕ
  pub available_replicas : ℕ
  pub others : String

abbrev pub Deployment : Type 0
Deployment = Resource DeploymentSpec DeploymentStatus

pub record DaemonSetSpec : Type 0 where
  pub selector : String
  pub template : String
  pub others : String

pub record DaemonSetStatus : Type 0 where
  pub current_number_scheduled : ℕ
  pub desired_number_scheduled : ℕ
  pub number_ready : ℕ
  pub updated_number_scheduled : ℕ
  pub number_available : ℕ
  pub others : String

abbrev pub DaemonSet : Type 0
DaemonSet = Resource DaemonSetSpec DaemonSetStatus

pub record ServiceSpec : Type 0 where
  pub cluster_ip : String
  pub ports : String
  pub others : String

abbrev pub Service : Type 0
Service = Resource ServiceSpec String

pub record ObjectReference : Type 0 where
  pub kind : String
  pub namespace : String
  pub name : String
  pub uid : String

-- `corev1.Event`: the specification is the involved object, and the status all else.
abbrev pub Event : Type 0
Event = Resource ObjectReference String

-- `lightWeightNode`
unfoldable pub light_weight_node : Node → Node
light_weight_node o = record {
  meta = light_meta o.meta;
  spec = record { unschedulable = false; others = "" };
  status = record {
    conditions = o.status.conditions;
    node_info = o.status.node_info;
    addresses = o.status.addresses;
    capacity = o.status.capacity;
    allocatable = o.status.allocatable;
    others = "";
  };
}

-- `lightWeightDeployment`
unfoldable pub light_weight_deployment : Deployment → Deployment
light_weight_deployment o = record {
  meta = light_meta o.meta;
  spec = record {
    template = o.spec.template;
    selector = o.spec.selector;
    replicas = o.spec.replicas;
    others = "";
  };
  status = record {
    replicas = o.status.replicas;
    updated_replicas = o.status.updated_replicas;
    available_replicas = o.status.available_replicas;
    others = "";
  };
}

-- `lightWeightDaemonset`
unfoldable pub light_weight_daemonset : DaemonSet → DaemonSet
light_weight_daemonset o = record {
  meta = light_meta o.meta;
  spec = record { selector = o.spec.selector; template = o.spec.template; others = "" };
  status = record {
    current_number_scheduled = o.status.current_number_scheduled;
    desired_number_scheduled = o.status.desired_number_scheduled;
    number_ready = o.status.number_ready;
    updated_number_scheduled = o.status.updated_number_scheduled;
    number_available = o.status.number_available;
    others = "";
  };
}

-- `lightWeightService`; the status is left out.
unfoldable pub light_weight_service : Service → Service
light_weight_service o = record {
  meta = light_meta o.meta;
  spec = record { cluster_ip = o.spec.cluster_ip; ports = o.spec.ports; others = "" };
  status = "";
}
