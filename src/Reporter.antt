-- ===== src/Reporter.antt =====
-- pkg/reporter/reporter.go: what an edge cluster reports of its resources.
pub mod Objects
pub mod Pods
pub mod Resources
pub mod Status
use ote_stack.Prelude.{
  ◌≡◌, refl, arith, ℕ, String, Bool, true, false, Option, none, some, List, [], ◌∷◌, if◌then◌else◌,
}
use ote_stack.Maps.{Map, insert}
use ote_stack.Message.{Bytes, Codec, ClusterMessage, MessageHead, edge_report, head_of}
use ote_stack.Kube.{ObjectMeta, Resource}

-- `ClusterLabel`
abbrev pub cluster_label : String
cluster_label = "ote-cluster"

-- `EdgeVersionLabel`
abbrev pub edge_version_label : String
edge_version_label = "edge-version"

-- `EdgeNodeName`
abbrev pub edge_node_name : String
edge_node_name = "node-name"

-- `ResourceTypeNode` and so on
pub data ResourceType : Type 0 where
  node pod deployment daemonset service statefulset cluster_status event : ResourceType
  other : ℕ → ResourceType

pub record Report : Type 0 where
  pub resource_type : ResourceType
  pub body : Bytes

-- `PodResourceStatus`, and the same structure for the other kinds; its maps and list may be nil.
pub record ResourceStatus (R : Type 0) : Type 0 where
  pub update_map : Option (Map R)
  pub del_map : Option (Map R)
  pub full_list : Option (List String)

-- The labels of a map that may be nil, with one more.
abbrev pub label_with : String → String → Option (Map String) → Map String
label_with key value none = (key, value) ∷ []
label_with key value (some m) = insert key value m

-- `addLabelToResource`, for the cluster's name
unfoldable pub add_label_to_resource : String → ObjectMeta → ObjectMeta
add_label_to_resource cluster_name m =
    let labels = label_with cluster_label cluster_name m.labels in
    record m { labels = some (insert edge_version_label m.resource_version labels) }

-- A message to the parent about the cluster's resources.
abbrev pub report_message : String → Bytes → ClusterMessage
report_message cluster_name body = record {
  head = some (record (head_of edge_report) { cluster_name = cluster_name });
  body = body;
}

-- The message with what could be written, if anything could.
wrapped : String → Option Bytes → Option ClusterMessage
wrapped cluster_name none = none
wrapped cluster_name (some body) = some (report_message cluster_name body)

-- `ToClusterMessage`
unfoldable pub to_cluster_message :
    Codec (List Report) → String → List Report → Option ClusterMessage
unfolding wrapped
to_cluster_message json cluster_name reports = wrapped cluster_name (json.marshal reports)

-- `serializeMapToReporters`: one report of what could be written.
one_report : Codec (List Report) → ResourceType → String → Option Bytes → Option ClusterMessage
unfolding to_cluster_message
one_report json kind cluster_name none = none
one_report json kind cluster_name (some body) =
    to_cluster_message json cluster_name (record { resource_type = kind; body = body } ∷ [])

-- `serializeMapToReporters` and the end of `sendToSyncChan`: the message for the channel, and none
-- where something cannot be written.
unfoldable pub status_message :
    {R : Type 0}
    → Codec (ResourceStatus R)
    → Codec (List Report)
    → ResourceType
    → String
    → ResourceStatus R
    → Option ClusterMessage
unfolding one_report
status_message json reports_json kind cluster_name status =
    one_report reports_json kind cluster_name (json.marshal status)

wrapped_parts :
    (json : Codec (List Report)) (cluster_name : String) (reports : List Report)
    (msg : ClusterMessage) (o : Option Bytes)
    → json.marshal reports ≡ o
    → wrapped cluster_name o ≡ some msg
    → (body : Bytes) × (json.marshal reports ≡ some body) × (msg ≡ report_message cluster_name body)
unfolding wrapped
wrapped_parts json cluster_name reports msg none e h = absurd (ground arith)
wrapped_parts json cluster_name reports msg (some body) e h = (body, e, cc)

one_report_parts :
    {R : Type 0} (json : Codec (ResourceStatus R)) (reports_json : Codec (List Report))
    (kind : ResourceType) (cluster_name : String) (status : ResourceStatus R) (msg : ClusterMessage)
    (o : Option Bytes)
    → json.marshal status ≡ o
    → one_report reports_json kind cluster_name o ≡ some msg
    → (body written : Bytes) × (json.marshal status ≡ some body)
      × (reports_json.marshal (record { resource_type = kind; body = body } ∷ []) ≡ some written)
      × (msg ≡ report_message cluster_name written)
unfolding one_report to_cluster_message
one_report_parts json reports_json kind cluster_name status msg none e h = absurd (ground arith)
one_report_parts json reports_json kind cluster_name status msg (some body) e h =
    let reports : List Report = record { resource_type = kind; body = body } ∷ [] in
    let (written, e', h') =
      wrapped_parts reports_json cluster_name reports msg (reports_json.marshal reports) refl h in
    (body, written, e, e', h')

-- A message is of a written status, in a written list of one report.
pub status_message_parts :
    {R : Type 0} (json : Codec (ResourceStatus R)) (reports_json : Codec (List Report))
    (kind : ResourceType) (cluster_name : String) (status : ResourceStatus R) (msg : ClusterMessage)
    → status_message json reports_json kind cluster_name status ≡ some msg
    → (body written : Bytes) × (json.marshal status ≡ some body)
      × (reports_json.marshal (record { resource_type = kind; body = body } ∷ []) ≡ some written)
      × (msg ≡ report_message cluster_name written)
unfolding status_message
status_message_parts json reports_json kind cluster_name status msg h =
    one_report_parts json reports_json kind cluster_name status msg (json.marshal status) refl h

-- The message of what can be written.
pub status_message-report_message :
    {R : Type 0} (json : Codec (ResourceStatus R)) (reports_json : Codec (List Report))
    (kind : ResourceType) (cluster_name : String) (status : ResourceStatus R) (body written : Bytes)
    → json.marshal status ≡ some body
    → reports_json.marshal (record { resource_type = kind; body = body } ∷ []) ≡ some written
    → status_message json reports_json kind cluster_name status
      ≡ some (report_message cluster_name written)
unfolding status_message one_report to_cluster_message wrapped
status_message-report_message json reports_json kind cluster_name status body written e e' =
    rw (e, e') refl
