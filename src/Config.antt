-- ===== src/Config.antt =====
-- config/config.go: the configuration of a node. Reading YAML is left out: `decoded` is what the
-- decoder makes of a file over the defaults.
use distributed_cache_system.Prelude.{
  Bool, Option, none, some, List, [], Str, codes, str_eq, if◌then◌else◌, ℤ, pos,
}
use distributed_cache_system.Prelude.Duration.{is_positive}
use distributed_cache_system.Ring.{Float64}

pub record Config (F : Type 0) : Type 0 where
  pub node_id : Str
  pub grpc_addr : Str
  pub http_addr : Str
  pub gossip_addr : Str
  pub seed_nodes : List Str
  pub replica_count : ℤ
  pub virtual_nodes : ℤ
  pub sweep_interval : ℤ
  pub max_load_factor : F
  pub log_level : Str

unfoldable pub default_config : (fl : Float64) → Config fl.Number
default_config fl = record {
  node_id = codes "";
  grpc_addr = codes ":7001";
  http_addr = codes ":9001";
  gossip_addr = codes ":8001";
  seed_nodes = [];
  replica_count = pos 3;
  virtual_nodes = pos 150;
  sweep_interval = pos 100000000;
  max_load_factor = fl.quarter;
  log_level = codes "info";
}

-- How reading the file ends.
pub data FileRead (A : Type 0) : Type 0 where
  missing unreadable unparsable : FileRead A
  decoded : A → FileRead A

unfoldable pub load_from_file :
    (fl : Float64) → (Config fl.Number → FileRead (Config fl.Number)) → Option (Config fl.Number)
load_from_file fl file = elim (file (default_config fl)) [
  | missing ↦ some (default_config fl)
  | unreadable ↦ none
  | unparsable ↦ none
  | decoded cfg ↦ some cfg
]

pub data ConfigError : Type 0 where
  no_node_id no_grpc_addr no_http_addr : ConfigError
  bad_replica_count bad_virtual_nodes bad_sweep_interval bad_load_factor : ConfigError

abbrev empty_text : Str → Bool
empty_text s = str_eq s (codes "")

-- The first error, or `none`.
unfoldable pub validate : (fl : Float64) → Config fl.Number → Option ConfigError
validate fl c =
    if empty_text c.node_id
    then some no_node_id
    else if empty_text c.grpc_addr
    then some no_grpc_addr
    else if empty_text c.http_addr
    then some no_http_addr
    else if is_positive c.replica_count
    then if is_positive c.virtual_nodes
      then if is_positive c.sweep_interval
        then if fl.is_negative c.max_load_factor then some bad_load_factor else none
        else some bad_sweep_interval
      else some bad_virtual_nodes
    else some bad_replica_count
