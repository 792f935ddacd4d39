-- ===== src/Capacity.antt =====
-- pkg/mot/capacity.go: the options, the snapshots and the comparison of two snapshots. The
-- conversion of what the servers report is in Capacity/Snapshot.antt.
pub mod Snapshot
pub mod Changes
pub mod Entries
use mongo_overview_tool.IndexAudit.{or_default}
use mongo_overview_tool.Doctor.Window.{sub_time}
use mongo_overview_tool.Doctor.{default_node_concurrency, second}
use mongo_overview_tool.Diagnostics.{CollectorStatus, DiagnosticFinding}
use mongo_overview_tool.Base.Sort.{sort_stable}
use mongo_overview_tool.Base.Maps.{is_there, value_at, put}
use mongo_overview_tool.Base.Int.{scale, pos, eq_ℤ, ◌-ℤ◌, ltb_ℤ, wrap_int64, ℤ}
use mongo_overview_tool.Diagnostics.Capability.{repl, sharding, ClusterType}
use mongo_overview_tool.Errors.{ok, invalid, err, Result}
use mongo_overview_tool.Base.{
  ◌&&◌, ◌||◌, str_eq, ltb, not, map, str_lt, ◌*◌, Bool, ℕ, Option, String, List, ◌∷◌, if◌then◌else◌,
  false, true, some, none, [],
}

pub record CapacityOptions : Type 0 where
  pub databases : List String
  pub collections : List String
  pub include_system_db : Bool
  pub include_free_storage : Bool
  pub max_collections : ℤ
  pub concurrency : ℤ

unfoldable pub normalize_capacity_options : CapacityOptions → Result CapacityOptions
normalize_capacity_options opts =
    if ltb_ℤ opts.max_collections (pos 0) || ltb_ℤ opts.concurrency (pos 0)
    then err (invalid "max collections and concurrency must not be negative")
    else ok (record opts {
      max_collections = or_default opts.max_collections (pos 500);
      concurrency = or_default opts.concurrency default_node_concurrency;
    })

pub record CapacityIdentity : Type 0 where
  pub topology_type : ClusterType
  pub digest : String

-- A ratio or an average is the quotient of two integers.
pub record ShardCapacity : Type 0 where
  pub shard : String
  pub host : String
  pub count : Option ℤ
  pub average_object_bytes : Option (ℤ × ℤ)
  pub data_size_bytes : Option ℤ
  pub storage_size_bytes : Option ℤ
  pub index_size_bytes : Option ℤ
  pub free_storage_size_bytes : Option ℤ

pub record CollectionCapacity : Type 0 where
  pub namespace : String
  pub count : Option ℤ
  pub average_object_bytes : Option (ℤ × ℤ)
  pub data_size_bytes : Option ℤ
  pub storage_size_bytes : Option ℤ
  pub index_size_bytes : Option ℤ
  pub free_storage_size_bytes : Option ℤ
  pub compression_ratio : Option (ℤ × ℤ)
  pub index_to_data_ratio : Option (ℤ × ℤ)
  pub sharded : Bool
  pub shards : List ShardCapacity

pub record FilesystemCapacity : Type 0 where
  pub shard : String
  pub host : String
  pub fs_used_size_bytes : Option ℤ
  pub fs_total_size_bytes : Option ℤ

pub record DatabaseCapacity : Type 0 where
  pub name : String
  pub objects : Option ℤ
  pub data_size_bytes : Option ℤ
  pub storage_size_bytes : Option ℤ
  pub index_size_bytes : Option ℤ
  pub total_size_bytes : Option ℤ
  pub fs_used_size_bytes : Option ℤ
  pub fs_total_size_bytes : Option ℤ
  pub free_storage_size_bytes : Option ℤ
  pub index_free_storage_size_bytes : Option ℤ
  pub total_free_storage_size_bytes : Option ℤ
  pub filesystems : List FilesystemCapacity
  pub collections : List CollectionCapacity

-- `collected_at` is a time.
pub record CapacityResult : Type 0 where
  pub schema_version : ℤ
  pub cluster_identity : CapacityIdentity
  pub collected_at : ℕ
  pub databases : List DatabaseCapacity
  pub findings : List DiagnosticFinding
  pub collector_statuses : List CollectorStatus

pub record CapacityDelta : Type 0 where
  pub before : Option ℤ
  pub after : Option ℤ
  pub delta : Option ℤ
  pub average_per_day : Option (ℤ × ℤ)

pub data Lifecycle : Type 0 where
  added removed existing : Lifecycle

pub record DatabaseCapacityDiff : Type 0 where
  pub name : String
  pub state : Lifecycle
  pub objects : CapacityDelta
  pub data_size : CapacityDelta
  pub storage : CapacityDelta
  pub index : CapacityDelta

pub record CollectionCapacityDiff : Type 0 where
  pub namespace : String
  pub state : Lifecycle
  pub count : CapacityDelta
  pub data_size : CapacityDelta
  pub storage : CapacityDelta
  pub index : CapacityDelta

pub record CapacityDiffResult : Type 0 where
  pub schema_version : ℤ
  pub cluster_identity : CapacityIdentity
  pub before_collected_at : ℕ
  pub after_collected_at : ℕ
  pub duration : ℕ
  pub comparable : Bool
  pub databases : List DatabaseCapacityDiff
  pub collections : List CollectionCapacityDiff

abbrev pub no_delta : CapacityDelta
no_delta = record { before = none; after = none; delta = none; average_per_day = none }

abbrev pub nanoseconds_of_day : ℕ
nanoseconds_of_day = 86_400 * second

-- The average is delta nanoseconds-of-a-day over the duration.
unfoldable pub capacity_delta : Option ℤ → Option ℤ → ℕ → CapacityDelta
unfolding wrap_int64 ◌-ℤ◌
capacity_delta none after duration = record no_delta { after = after }
capacity_delta (some b) none duration = record no_delta { before = some b }
capacity_delta (some b) (some a) duration =
    let delta = wrap_int64 (a -ℤ b) in
    record {
      before = some b;
      after = some a;
      delta = some delta;
      average_per_day =
          if ltb 0 duration then some (scale nanoseconds_of_day delta, pos duration) else none;
    }

unfoldable pub capacity_lifecycle_state : Bool → Bool → Lifecycle
capacity_lifecycle_state false has_after = added
capacity_lifecycle_state true false = removed
capacity_lifecycle_state true true = existing

unfoldable pub put_databases :
    List DatabaseCapacity → List (String × DatabaseCapacity) → List (String × DatabaseCapacity)
unfolding put
put_databases [] values = values
put_databases (d ∷ ds) values = put_databases ds (put d.name d values)

unfoldable pub capacity_databases_by_name : CapacityResult → List (String × DatabaseCapacity)
unfolding put_databases
capacity_databases_by_name result = put_databases result.databases []

unfoldable pub put_collections :
    List CollectionCapacity
    → List (String × CollectionCapacity)
    → List (String × CollectionCapacity)
unfolding put
put_collections [] values = values
put_collections (c ∷ cs) values = put_collections cs (put c.namespace c values)

unfoldable pub flatten_from :
    List DatabaseCapacity → List (String × CollectionCapacity) → List (String × CollectionCapacity)
unfolding put_collections
flatten_from [] values = values
flatten_from (d ∷ ds) values = flatten_from ds (put_collections d.collections values)

unfoldable pub flatten_capacity_collections : CapacityResult → List (String × CollectionCapacity)
unfolding flatten_from
flatten_capacity_collections result = flatten_from result.databases []

-- A set of strings is a map with nothing in it.
unfoldable pub add_keys :
    {A : Type 0} → List (String × A) → List (String × Unit {0}) → List (String × Unit {0})
unfolding put
add_keys [] keys = keys
add_keys ((k, v) ∷ rest) keys = add_keys rest (put k tt keys)

-- DiffCapacity has the same lines once more for the collections.
unfoldable pub sorted_union_keys :
    {A : Type 0} → List (String × A) → List (String × A) → List String
unfolding add_keys sort_stable str_lt
sorted_union_keys before after =
    sort_stable str_lt (map (λ e. e.0) (add_keys after (add_keys before [])))

-- The body of the loop over the names of databases.
unfoldable pub diff_database :
    ℕ → String → Option DatabaseCapacity → Option DatabaseCapacity → DatabaseCapacityDiff
unfolding capacity_delta capacity_lifecycle_state
diff_database duration name (some b) (some a) = record {
  name = name;
  state = capacity_lifecycle_state true true;
  objects = capacity_delta b.objects a.objects duration;
  data_size = capacity_delta b.data_size_bytes a.data_size_bytes duration;
  storage = capacity_delta b.storage_size_bytes a.storage_size_bytes duration;
  index = capacity_delta b.index_size_bytes a.index_size_bytes duration;
}
diff_database duration name before after = record {
  name = name;
  state = capacity_lifecycle_state (is_there before) (is_there after);
  objects = no_delta;
  data_size = no_delta;
  storage = no_delta;
  index = no_delta;
}

unfoldable pub diff_collection :
    ℕ → String → Option CollectionCapacity → Option CollectionCapacity → CollectionCapacityDiff
unfolding capacity_delta capacity_lifecycle_state
diff_collection duration name (some b) (some a) = record {
  namespace = name;
  state = capacity_lifecycle_state true true;
  count = capacity_delta b.count a.count duration;
  data_size = capacity_delta b.data_size_bytes a.data_size_bytes duration;
  storage = capacity_delta b.storage_size_bytes a.storage_size_bytes duration;
  index = capacity_delta b.index_size_bytes a.index_size_bytes duration;
}
diff_collection duration name before after = record {
  namespace = name;
  state = capacity_lifecycle_state (is_there before) (is_there after);
  count = no_delta;
  data_size = no_delta;
  storage = no_delta;
  index = no_delta;
}

-- The loops over the names.
unfoldable pub diff_all :
    {A B : Type 0}
    → (String → Option A → Option A → B)
    → List (String × A)
    → List (String × A)
    → List String
    → List B
unfolding value_at
diff_all diff before after names =
    map (λ name. diff name (value_at name before) (value_at name after)) names

abbrev same_topology : ClusterType → ClusterType → Bool
same_topology repl repl = true
same_topology repl sharding = false
same_topology sharding repl = false
same_topology sharding sharding = true

abbrev pub same_cluster : CapacityIdentity → CapacityIdentity → Bool
same_cluster b a =
    not (str_eq b.digest "")
    && (str_eq b.digest a.digest && same_topology b.topology_type a.topology_type)

abbrev pub is_schema_1 : CapacityResult → Bool
is_schema_1 result = eq_ℤ result.schema_version (pos 1)

unfoldable pub diff_capacity : CapacityResult → CapacityResult → Result CapacityDiffResult
unfolding capacity_databases_by_name flatten_capacity_collections sorted_union_keys diff_all
    diff_database diff_collection
diff_capacity before after =
    if not (is_schema_1 before) || not (is_schema_1 after)
    then err (invalid "unsupported capacity schema version")
    else if not (same_cluster before.cluster_identity after.cluster_identity)
    then err (invalid "capacity snapshots belong to different clusters")
    else if not (ltb before.collected_at after.collected_at)
    then err (invalid "after snapshot must be newer than before snapshot")
    else let duration = sub_time after.collected_at before.collected_at in
      let before_databases = capacity_databases_by_name before in
      let after_databases = capacity_databases_by_name after in
      let before_collections = flatten_capacity_collections before in
      let after_collections = flatten_capacity_collections after in
      ok (record {
        schema_version = pos 1;
        cluster_identity = before.cluster_identity;
        before_collected_at = before.collected_at;
        after_collected_at = after.collected_at;
        duration = duration;
        comparable = true;
        databases =
            diff_all (diff_database duration) before_databases after_databases
              (sorted_union_keys before_databases after_databases);
        collections =
            diff_all (diff_collection duration) before_collections after_collections
              (sorted_union_keys before_collections after_collections);
      })
