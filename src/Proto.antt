-- ===== src/Proto.antt =====
-- api/proto/messages.go: the requests and responses of the cache service.
use distributed_cache_system.Prelude.{ℕ, Bool, List, Str, ℤ}

pub record GetRequest : Type 0 where
  pub key : Str

pub record GetResponse : Type 0 where
  pub key : Str
  pub value : Str
  pub found : Bool
  pub ttl_ms : ℤ
  pub is_hot : Bool

pub record SetRequest : Type 0 where
  pub key : Str
  pub value : Str
  pub ttl_ms : ℤ

pub record SetResponse : Type 0 where
  pub success : Bool

pub record DeleteRequest : Type 0 where
  pub key : Str

pub record DeleteResponse : Type 0 where
  pub existed : Bool

pub record ExpireRequest : Type 0 where
  pub key : Str
  pub ttl_ms : ℤ

pub record ExpireResponse : Type 0 where
  pub found : Bool

pub record KeysRequest : Type 0 where
  pub pattern_text : Str

pub record KeysResponse : Type 0 where
  pub keys : List Str

pub record PingResponse : Type 0 where
  pub node_id : Str
  pub uptime_ms : ℤ
  pub keys_count : ℕ

-- `op_other n` is a number that no constant names.
pub data Operation : Type 0 where
  op_set op_delete : Operation
  op_other : ℤ → Operation

pub record ReplicateRequest : Type 0 where
  pub key : Str
  pub value : Str
  pub ttl_ms : ℤ
  pub sequence : ℕ
  pub source_node : Str
  pub op : Operation

pub record ReplicateResponse : Type 0 where
  pub success : Bool

pub record TransferKeysRequest : Type 0 where
  pub range_start : ℕ
  pub range_end : ℕ
  pub requesting_node : Str

pub record KeyValuePair : Type 0 where
  pub key : Str
  pub value : Str
  pub ttl_ms : ℤ
