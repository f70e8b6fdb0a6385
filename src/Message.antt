-- ===== src/Message.antt =====
-- pkg/clustermessage (clustermessage.proto, util.go) and the registry of pkg/config/config.go.
-- Protobuf and JSON are codecs, parameters of the definitions that use them.
use ote_stack.Prelude.{
  refl, sym, ap, arith, ℕ, String, ◌≡◌, Bool, List, Option, none, some, ◌==◌, Result, ok, err,
  marshal_failed, unmarshal_failed, wrong_command,
}

abbrev pub Bytes : Type 0
Bytes = List ℕ

-- proto3 enums are open: a peer may send a number without a name.
pub data CommandType : Type 0 where
  reserved cluster_regist cluster_unregist neighbor_route subtree_route : CommandType
  deploy_req deploy_resp control_req control_resp edge_report control_multi_req : CommandType
  unnamed : ℕ → CommandType

pub record MessageHead : Type 0 where
  pub message_id : String
  pub command : CommandType
  pub cluster_selector : String
  pub cluster_name : String
  pub parent_cluster_name : String

-- The head is a pointer, and may be nil.
pub record ClusterMessage : Type 0 where
  pub head : Option MessageHead
  pub body : Bytes

pub record ControllerTask : Type 0 where
  pub destination : String
  pub method : String
  pub uri : String
  pub body : Bytes

pub record ControllerTaskResponse : Type 0 where
  pub timestamp : ℕ
  pub status_code : ℕ
  pub body : Bytes

pub record ControlMultiTask : Type 0 where
  pub destination : String
  pub method : String
  pub uri : String
  pub body : List Bytes

-- `marshal` is `none` where the library returns an error, and so is `unmarshal`.
pub record Codec (A : Type 0) : Type 0 where
  pub marshal : A → Option Bytes
  pub unmarshal : Bytes → Option A

-- What the library promises: bytes that it wrote read back as the value.
pub record RoundTrips {A : Type 0} (c : Codec A) : Type 0 where
  pub read_back : (a : A) (b : Bytes) → c.marshal a ≡ some b → c.unmarshal b ≡ some a

-- A head with a command and nothing else, `&MessageHead{Command: command}`.
abbrev pub head_of : CommandType → MessageHead
head_of c = record {
  message_id = "";
  command = c;
  cluster_selector = "";
  cluster_name = "";
  parent_cluster_name = "";
}

-- `ClusterMessage.Serialize`
unfoldable pub serialize : Codec ClusterMessage → ClusterMessage → Result Bytes
serialize proto m = elim (proto.marshal m) [ none ↦ err marshal_failed | some b ↦ ok b ]

-- `ClusterMessage.Deserialize`; a nil slice is `none`.
unfoldable pub deserialize : Codec ClusterMessage → Option Bytes → Result ClusterMessage
deserialize proto none = err unmarshal_failed
deserialize proto (some b) = elim (proto.unmarshal b) [
  | none ↦ err unmarshal_failed
  | some m ↦ ok m
]

tasked : MessageHead → Option Bytes → Result ClusterMessage
tasked head none = err marshal_failed
tasked head (some b) = ok (record { head = some head; body = b })

task_message : {A : Type 0} → Codec A → A → MessageHead → Result ClusterMessage
unfolding tasked
task_message proto task head = tasked head (proto.marshal task)

wrong : Result ClusterMessage
wrong = err wrong_command

-- `ControllerTask.ToClusterMessage`
unfoldable pub controller_task_message :
    Codec ControllerTask → ControllerTask → MessageHead → Result ClusterMessage
unfolding task_message wrong
controller_task_message proto task head = elim head.command [
  | control_req ↦ task_message proto task head
  | _ ↦ wrong
]

tasked_parts :
    (head : MessageHead) (msg : ClusterMessage) (o : Option Bytes)
    → tasked head o ≡ ok msg
    → (msg.head ≡ some head) × (o ≡ some msg.body)
unfolding tasked
tasked_parts head msg none e = absurd (ground arith)
tasked_parts head msg (some b) e = (
  sym (ap (λ (r : Result ClusterMessage). elim r [ ok m ↦ m.head | err f ↦ some head ]) e),
  ap (λ (r : Result ClusterMessage). elim r [ ok m ↦ some m.body | err f ↦ none ]) e,
)

-- A message of a control request has the head and the written task.
pub controller_task_message_parts :
    (proto : Codec ControllerTask) (task : ControllerTask) (msg : ClusterMessage)
    → controller_task_message proto task (head_of control_req) ≡ ok msg
    → (msg.head ≡ some (head_of control_req)) × (proto.marshal task ≡ some msg.body)
unfolding controller_task_message task_message
controller_task_message_parts proto task msg =
    tasked_parts (head_of control_req) msg (proto.marshal task)

-- `ControlMultiTask.ToClusterMessage`
unfoldable pub control_multi_task_message :
    Codec ControlMultiTask → ControlMultiTask → MessageHead → Result ClusterMessage
unfolding task_message wrong
control_multi_task_message proto task head = elim head.command [
  | control_multi_req ↦ task_message proto task head
  | _ ↦ wrong
]

-- config.go: what a child tells of itself.
pub record ClusterRegistry : Type 0 where
  pub name : String
  pub user_define_name : String
  pub listen : String
  pub time : ℕ
  pub parent_name : String

-- `RootClusterName`
abbrev pub root_cluster_name : String
root_cluster_name = "root"

-- `IsRoot`
abbrev pub is_root_name : String → Bool
is_root_name cluster_name = root_cluster_name == cluster_name

-- `WrapperToClusterMessage`
unfoldable pub wrapper_to_cluster_message :
    Codec ClusterRegistry → ClusterRegistry → CommandType → Result ClusterMessage
wrapper_to_cluster_message json cr command = elim (json.marshal cr) [
  | none ↦ err marshal_failed
  | some b ↦ ok (record { head = some (head_of command); body = b })
]

-- A control request whose task can be written is a message.
pub controller_task_message_written :
    (proto : Codec ControllerTask) (task : ControllerTask) (b : Bytes)
    → proto.marshal task ≡ some b
    → controller_task_message proto task (head_of control_req)
      ≡ ok (record { head = some (head_of control_req); body = b })
unfolding controller_task_message task_message tasked
controller_task_message_written proto task b e = rw e refl
