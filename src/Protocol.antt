-- ===== src/Protocol.antt =====
-- protocol.go: the values that the edge exchanges with the control plane and with plaklet.
-- A UUID is its sixteen bytes, a Go map from strings a list of pairs, raw JSON its bytes.
use plakar_edge.Base.{ℕ, Bool, List, [], ◌∷◌, Option, Bytes, text, equal, if◌then◌else◌}
use plakar_edge.Base.Int.{ℤ}

abbrev pub Uuid : Type 0
Uuid = Bytes

abbrev pub edge_protocol_version : ℕ
edge_protocol_version = 2

-- A `map[string]string`; a missing key reads as the empty string.
abbrev pub StringMap : Type 0
StringMap = List (Bytes × Bytes)

unfoldable pub index : StringMap → Bytes → Bytes
index [] key = []
index ((k, v) ∷ m) key = if equal k key then v else index m key

pub record SystemInfo : Type 0 where
  pub os : Bytes
  pub arch : Bytes
  pub num_cpu : ℕ
  pub go_version : Bytes
  pub total_memory : ℕ
  pub kernel : Bytes
  pub kloset_version : Bytes

pub record EnrollRequest : Type 0 where
  pub organization_id : Uuid
  pub enrollment_key : Bytes
  pub name : Bytes
  pub hostname : Bytes
  pub protocol_version : ℕ
  pub edge_version : Bytes
  pub system_info : SystemInfo

pub record PoolEnrollRequest : Type 0 where
  pub enrollment_key : Bytes
  pub name : Bytes
  pub hostname : Bytes
  pub protocol_version : ℕ
  pub edge_version : Bytes
  pub system_info : SystemInfo

pub record EnrollResponse : Type 0 where
  pub edge_id : Uuid
  pub token : Bytes
  pub protocol_version : ℤ
  pub supported : Bool

pub record PollRequest : Type 0 where
  pub protocol_version : ℕ
  pub edge_version : Bytes
  pub hostname : Bytes
  pub system_info : SystemInfo
  pub tags : List Bytes
  pub slots : ℤ

pub record Integration : Type 0 where
  pub id : Uuid
  pub name : Bytes
  pub version : Bytes

-- `Configuration` and `ConfigurationField` hold one another: a field's provider may be nil.
mutual
  pub data Configuration : Type 0 where
    configuration :
        (id : Uuid) (revision : ℤ) (kind : Bytes) (integration : Integration) (name : Bytes)
        (fields : ConfigurationFields) (environment : Bytes) (data_classes : List Bytes)
        (urn : Bytes) (urnid : Uuid)
        → Configuration

  pub data ConfigurationFields : Type 0 where
    no_fields : ConfigurationFields
    plain_field : (key val : Bytes) → ConfigurationFields → ConfigurationFields
    provided_field :
        (key : Bytes) → Configuration → (val : Bytes) → ConfigurationFields → ConfigurationFields

abbrev pub integration_of : Configuration → Integration
integration_of (configuration i r k integration n f e d u v) = integration

pub record WorkItem : Type 0 where
  pub work_id : Uuid
  pub op : Bytes
  pub task_config : StringMap
  pub source : Option Configuration
  pub target : Option Configuration

-- `ReplyType` is a string, and plaklet may send any.
abbrev pub ReplyType : Type 0
ReplyType = Bytes

abbrev pub reply_info : ReplyType
reply_info = text "info"

abbrev pub reply_warning : ReplyType
reply_warning = text "warning"

abbrev pub reply_error : ReplyType
reply_error = text "error"

abbrev pub reply_report : ReplyType
reply_report = text "report"

abbrev pub reply_state : ReplyType
reply_state = text "state"

abbrev pub reply_failure : ReplyType
reply_failure = text "failure"

abbrev pub reply_success : ReplyType
reply_success = text "success"

abbrev pub reply_log : ReplyType
reply_log = text "log"

pub record Reply : Type 0 where
  pub kind : ReplyType
  pub message : Bytes
  pub report : Bytes
  pub state : Bytes

pub record ExecPayload : Type 0 where
  pub op : Bytes
  pub task_config : StringMap
  pub source : Option Configuration
  pub target : Option Configuration

pub record ExecReply : Type 0 where
  pub kind : ReplyType
  pub message : Bytes
  pub report : Bytes
  pub state : Bytes
