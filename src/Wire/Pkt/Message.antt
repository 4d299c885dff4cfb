-- ===== src/Wire/Pkt/Message.antt =====
-- The message types of wxf/wire/pkt/common.pb.go and protocol.pb.go, without protobuf's own
-- bookkeeping fields, and protobuf's Marshal and Unmarshal as a parameter.
use wxf_im.Prelude.{ℕ, ◌≡◌, Option, some, List, [], Bytes}
use native.Mathlib.Decide.{ℕ_discrete}

-- `unrecognized` is any other int32, which a proto3 enum may hold.
pub data Flag : Type 0 where
  request response push : Flag
  unrecognized : ℕ → Flag

pub data MetaType : Type 0 where
  int string float : MetaType
  unrecognized : ℕ → MetaType

pub data Status : Type 0 where
  success no_destination invalid_packet_body invalid_command unauthorized : Status
  system_exception not_implemented session_not_found : Status
  unrecognized : ℕ → Status

pub record Meta : Type 0 where
  pub key : Bytes
  pub value : Bytes
  pub type : MetaType

pub record Header : Type 0 where
  pub command : Bytes
  pub channel_id : Bytes
  pub sequence : ℕ
  pub flag : Flag
  pub status : Status
  pub dest : Bytes
  pub meta : List Meta

pub record InnerHandshakeReq : Type 0 where
  pub service_id : Bytes

pub record LoginReq : Type 0 where
  pub token : Bytes
  pub isp : Bytes
  pub zone : Bytes
  pub tags : List Bytes

pub record ErrorResp : Type 0 where
  pub message : Bytes

pub record LoginResp : Type 0 where
  pub channel_id : Bytes
  pub account : Bytes

pub record KickoutNotify : Type 0 where
  pub channel_id : Bytes

pub record Session : Type 0 where
  pub channel_id : Bytes
  pub gate_id : Bytes
  pub account : Bytes
  pub zone : Bytes
  pub isp : Bytes
  pub remote_ip : Bytes
  pub device : Bytes
  pub app : Bytes
  pub tags : List Bytes

abbrev pub empty_header : Header
empty_header = record {
  command = [];
  channel_id = [];
  sequence = 0;
  flag = Flag.request;
  status = Status.success;
  dest = [];
  meta = [];
}

abbrev pub empty_session : Session
empty_session = record {
  channel_id = [];
  gate_id = [];
  account = [];
  zone = [];
  isp = [];
  remote_ip = [];
  device = [];
  app = [];
  tags = [];
}

-- proto.Marshal and proto.Unmarshal at one message type; `none` is an error.
pub record Codec (M : Type 0) : Type 0 where
  pub marshal : M → Option Bytes
  pub unmarshal : Bytes → Option M

-- What protobuf documents: a message that was marshalled is unmarshalled to itself.
abbrev pub Restores : {M : Type 0} → Codec M → Type 0
Restores {M} c = (m : M) (bs : Bytes) → c.marshal m ≡ some bs → c.unmarshal bs ≡ some m

pub Header-discrete : Discrete Header
Header-discrete = hlevel ℕ_discrete
