-- ===== src/Capacity/Snapshot.antt =====
-- pkg/mot/capacity.go: what becomes of the answers of the servers, which pkg/mongo decodes.
use mongo_overview_tool.Base.Int.{is_positive, ℤ}
use mongo_overview_tool.Base.Sort.{sort_stable}
use mongo_overview_tool.Capacity.{CollectionCapacity, DatabaseCapacity, ShardCapacity}
use mongo_overview_tool.Base.{
  ◌&&◌, ◌||◌, str_lt, not, str_eq, Option, map, List, Bool, String, ◌∷◌, if◌then◌else◌, some, none,
  [],
}

pub record CollectionCapacityShardSnapshot : Type 0 where
  pub shard : String
  pub host : String
  pub count : Option ℤ
  pub average_object_bytes : Option (ℤ × ℤ)
  pub data_size_bytes : Option ℤ
  pub storage_size_bytes : Option ℤ
  pub total_index_size_bytes : Option ℤ
  pub free_storage_size_bytes : Option ℤ

pub record CollectionCapacitySnapshot : Type 0 where
  pub namespace : String
  pub count : Option ℤ
  pub average_object_bytes : Option (ℤ × ℤ)
  pub data_size_bytes : Option ℤ
  pub storage_size_bytes : Option ℤ
  pub total_index_size_bytes : Option ℤ
  pub free_storage_size_bytes : Option ℤ
  pub index_sizes : List (String × ℤ)
  pub index_builds : List String
  pub sharded : Bool
  pub shards : List CollectionCapacityShardSnapshot

abbrev is_host_compatible : CollectionCapacityShardSnapshot → CollectionCapacityShardSnapshot → Bool
is_host_compatible target source =
    str_eq target.host "" || (str_eq source.host "" || str_eq target.host source.host)

-- The inner loop, which stops at the first shard that fits.
unfoldable pub merge_shard :
    CollectionCapacityShardSnapshot
    → List CollectionCapacityShardSnapshot
    → CollectionCapacityShardSnapshot
merge_shard target [] = target
merge_shard target (s ∷ ss) =
    if str_eq target.shard s.shard && is_host_compatible target s
    then record target {
      free_storage_size_bytes = s.free_storage_size_bytes;
      host = if str_eq target.host "" then s.host else target.host;
    }
    else merge_shard target ss

unfoldable pub merge_shard_free_storage :
    CollectionCapacitySnapshot → CollectionCapacitySnapshot → CollectionCapacitySnapshot
unfolding merge_shard
merge_shard_free_storage target source = record target {
  shards = map (λ s. merge_shard s source.shards) target.shards;
}

-- numerator / denominator, where both are known and the denominator is above 0
ratio_of : Option ℤ → Option ℤ → Option (ℤ × ℤ)
ratio_of none denominator = none
ratio_of (some n) none = none
ratio_of (some n) (some d) = if is_positive d then some (n, d) else none

abbrev positive_only : Option ℤ → Option ℤ
positive_only none = none
positive_only (some n) = if is_positive n then some n else none

shard_less : ShardCapacity → ShardCapacity → Bool
shard_less a b =
    if not (str_eq a.shard b.shard) then str_lt a.shard b.shard else str_lt a.host b.host

shard_capacity : CollectionCapacityShardSnapshot → ShardCapacity
shard_capacity s = record {
  shard = s.shard;
  host = s.host;
  count = s.count;
  average_object_bytes = s.average_object_bytes;
  data_size_bytes = s.data_size_bytes;
  storage_size_bytes = s.storage_size_bytes;
  index_size_bytes = s.total_index_size_bytes;
  free_storage_size_bytes = s.free_storage_size_bytes;
}

unfoldable pub collection_capacity_from_mongo : CollectionCapacitySnapshot → CollectionCapacity
unfolding ratio_of shard_less shard_capacity sort_stable str_lt
collection_capacity_from_mongo snapshot = record {
  namespace = snapshot.namespace;
  count = snapshot.count;
  average_object_bytes = snapshot.average_object_bytes;
  data_size_bytes = snapshot.data_size_bytes;
  storage_size_bytes = snapshot.storage_size_bytes;
  index_size_bytes = snapshot.total_index_size_bytes;
  free_storage_size_bytes = snapshot.free_storage_size_bytes;
  compression_ratio = ratio_of (positive_only snapshot.data_size_bytes) snapshot.storage_size_bytes;
  index_to_data_ratio = ratio_of snapshot.total_index_size_bytes snapshot.data_size_bytes;
  sharded = snapshot.sharded;
  shards = sort_stable shard_less (map shard_capacity snapshot.shards);
}

pub record DatabaseCapacitySnapshot : Type 0 where
  pub objects : Option ℤ
  pub data_size_bytes : Option ℤ
  pub storage_size_bytes : Option ℤ
  pub index_size_bytes : Option ℤ
  pub total_size_bytes : Option ℤ
  pub fs_used_size_bytes : Option ℤ
  pub fs_total_size_bytes : Option ℤ
  pub free_storage_size_bytes : Option ℤ
  pub index_free_storage_size_bytes : Option ℤ
  pub total_free_storage_size_bytes : Option ℤ

unfoldable pub apply_database_capacity :
    DatabaseCapacity → DatabaseCapacitySnapshot → DatabaseCapacity
apply_database_capacity target source = record target {
  objects = source.objects;
  data_size_bytes = source.data_size_bytes;
  storage_size_bytes = source.storage_size_bytes;
  index_size_bytes = source.index_size_bytes;
  total_size_bytes = source.total_size_bytes;
  fs_used_size_bytes = source.fs_used_size_bytes;
  fs_total_size_bytes = source.fs_total_size_bytes;
  free_storage_size_bytes = source.free_storage_size_bytes;
  index_free_storage_size_bytes = source.index_free_storage_size_bytes;
  total_free_storage_size_bytes = source.total_free_storage_size_bytes;
}
