-- ===== src/Rwset.antt =====
-- core/ledger/kvledger/txmgmt/rwsetutil: read-write sets. The protobuf messages of kvrwset are
-- records with the fields that the program reads.
pub mod MerkleTree
pub mod ResultsHelper
pub mod Builder
pub mod Codec
use eloan_peer.Prelude.{ℕ, Bool, true, false, Option, none, some, List}
use eloan_peer.Prelude.GoString.{GoString}
use eloan_peer.Version.{Height, new_height}

-- kvrwset.Version
pub record ProtoVersion : Type 0 where
  pub block_num : ℕ
  pub tx_num : ℕ

pub record KvRead : Type 0 where
  pub key : GoString
  pub version : Option ProtoVersion

pub record KvWrite : Type 0 where
  pub key : GoString
  pub is_delete : Bool
  pub value : Option GoString

pub record QueryReadsMerkleSummary : Type 0 where
  pub max_degree : ℕ
  pub max_level : ℕ
  pub max_level_hashes : List GoString

-- The `oneof` of a range query info.
pub data ReadsInfo : Type 0 where
  no_reads : ReadsInfo
  raw_reads : List KvRead → ReadsInfo
  reads_merkle_hashes : QueryReadsMerkleSummary → ReadsInfo

pub record RangeQueryInfo : Type 0 where
  pub start_key : GoString
  pub end_key : GoString
  pub itr_exhausted : Bool
  pub reads_info : ReadsInfo

pub record KvRwSet : Type 0 where
  pub reads : List KvRead
  pub range_queries_info : List RangeQueryInfo
  pub writes : List KvWrite

pub record NsRwSet : Type 0 where
  pub name_space : GoString
  pub kv_rw_set : KvRwSet

pub record TxRwSet : Type 0 where
  pub ns_rw_sets : List NsRwSet

unfoldable pub new_version : Option ProtoVersion → Option Height
unfolding new_height
new_version none = none
new_version (some v) = some (new_height v.block_num v.tx_num)

unfoldable pub new_proto_version : Option Height → Option ProtoVersion
new_proto_version none = none
new_proto_version (some h) = some (record { block_num = h.block_num; tx_num = h.tx_num })

unfoldable pub new_kv_read : GoString → Option Height → KvRead
unfolding new_proto_version
new_kv_read key version = record { key = key; version = new_proto_version version }

abbrev pub value_is_nil : Option GoString → Bool
value_is_nil none = true
value_is_nil (some v) = false

unfoldable pub new_kv_write : GoString → Option GoString → KvWrite
new_kv_write key value = record { key = key; is_delete = value_is_nil value; value = value }
