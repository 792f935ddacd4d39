-- ===== src/Tests/Capacity.antt =====
-- Two snapshots of the capacity of a cluster.
use mongo_overview_tool.Diagnostics.Capability.{repl}
use mongo_overview_tool.Errors.{invalid, err}
use mongo_overview_tool.Base.Int.{◌-ℤ◌, pos}
use mongo_overview_tool.Capacity.Changes.{capacity_delta_exact}
use mongo_overview_tool.Capacity.Entries.{diff_capacity_lem, Compares}
use mongo_overview_tool.Capacity.{
  DatabaseCapacity, CollectionCapacity, capacity_delta, diff_capacity, CapacityResult,
}
use mongo_overview_tool.Base.{arith, ◌≡◌, ◌≢◌, List, ℕ, String, ◌∷◌, false, some, none, []}

abbrev database : String → ℕ → List CollectionCapacity → DatabaseCapacity
database name size collections = record {
  name = name;
  objects = none;
  data_size_bytes = some (pos size);
  storage_size_bytes = none;
  index_size_bytes = none;
  total_size_bytes = none;
  fs_used_size_bytes = none;
  fs_total_size_bytes = none;
  free_storage_size_bytes = none;
  index_free_storage_size_bytes = none;
  total_free_storage_size_bytes = none;
  filesystems = [];
  collections = collections;
}

abbrev collection : String → ℕ → CollectionCapacity
collection namespace size = record {
  namespace = namespace;
  count = some (pos size);
  average_object_bytes = none;
  data_size_bytes = none;
  storage_size_bytes = none;
  index_size_bytes = none;
  free_storage_size_bytes = none;
  compression_ratio = none;
  index_to_data_ratio = none;
  sharded = false;
  shards = [];
}

abbrev snapshot : ℕ → List DatabaseCapacity → CapacityResult
snapshot collected_at databases = record {
  schema_version = pos 1;
  cluster_identity = record { topology_type = repl; digest = "d1" };
  collected_at = collected_at;
  databases = databases;
  findings = [];
  collector_statuses = [];
}

abbrev before : CapacityResult
before =
    snapshot 1_000 (database "shop" 10 (collection "shop.orders" 3 ∷ []) ∷ database "old" 5 [] ∷ [])

abbrev after : CapacityResult
after =
    snapshot 4_000
      (database "shop" 25 (collection "shop.orders" 8 ∷ collection "shop.items" 1 ∷ []) ∷ [])

diff_run : diff_capacity before after ≢ err (invalid "unsupported capacity schema version")
unfolding diff_capacity
diff_run h = cc

diff_capacity_example : Compares before after (diff_capacity before after)
diff_capacity_example = diff_capacity_lem before after

capacity_delta_exact_example :
    (capacity_delta (some (pos 25)) (some (pos 4)) 5).delta ≡ some (pos 4 -ℤ pos 25)
capacity_delta_exact_example = capacity_delta_exact 25 4 5 (omega arith) (omega arith)
