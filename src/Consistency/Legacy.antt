-- ===== src/Consistency/Legacy.antt =====
-- pkg/mot/index_consistency.go: compareLegacyDefinitions, on the definitions that the shards list,
-- and what it uses. The evaluation is in Consistency/Confirm.antt.
use mongo_overview_tool.Consistency.{
  spec_mismatch, missing_on_shard, name_mismatch, bare_difference, difference_less, Difference,
}
use mongo_overview_tool.Base.Maps.{is_there, or_empty, add_to_group, value_at, put}
use mongo_overview_tool.Base.Sort.{sort_stable}
use mongo_overview_tool.Base.{
  leb, ◌==◌, length, ◌++◌, ◌&&◌, ltb, map, str_append, str_eq, not, str_lt, Bool, Option, keep,
  List, String, ◌∷◌, if◌then◌else◌, false, some, none, [],
}

pub record Definition : Type 0 where
  pub name : String
  pub key : List (String × String)
  pub semantic_fingerprint : String
  pub full_fingerprint : String
  pub field_fingerprints : List (String × String)
  pub building : Bool
  pub shard : String

-- The definitions of each shard that answered.
abbrev pub Observations : Type 0
Observations = List (String × List Definition)

-- A set of strings.
abbrev pub Names : Type 0
Names = List (String × Unit {0})

abbrev pub has_name : Names → String → Bool
has_name names name = is_there (value_at name names)

-- mapKeys
unfoldable pub map_keys : Names → List String
unfolding sort_stable str_lt
map_keys values = sort_stable str_lt (map (λ e. e.0) values)

unfoldable pub add_building : (Definition → String) → List Definition → Names → Names
unfolding put
add_building key [] names = names
add_building key (d ∷ ds) names =
    add_building key ds (if d.building then put (key d) tt names else names)

unfoldable pub building_from : (Definition → String) → Observations → Names → Names
unfolding add_building
building_from key [] names = names
building_from key ((shard, ds) ∷ rest) names = building_from key rest (add_building key ds names)

-- buildingIndexKeys: its two sets.
unfoldable pub building_index_names : Observations → Names
unfolding building_from
building_index_names observations = building_from (λ d. d.name) observations []

unfoldable pub building_index_semantics : Observations → Names
unfolding building_from
building_index_semantics observations = building_from (λ d. d.semantic_fingerprint) observations []

unfoldable pub observed_expected_shards : List String → Observations → List String
unfolding keep value_at
observed_expected_shards expected observations =
    keep (λ shard. is_there (value_at shard observations)) expected

unfoldable pub missing_expected_shards : List String → Observations → List String
unfolding keep value_at
missing_expected_shards expected observations =
    keep (λ shard. not (is_there (value_at shard observations))) expected

unfoldable pub missing_definition_shards : List String → List (String × Definition) → List String
unfolding keep value_at
missing_definition_shards expected definitions =
    keep (λ shard. not (is_there (value_at shard definitions))) expected

-- The first loop of differingIndexFields.
add_fields : List (String × String) → Names → Names
unfolding put
add_fields [] fields = fields
add_fields ((field, value) ∷ rest) fields =
    add_fields rest (if str_eq field "name" then fields else put field tt fields)

all_fields : List Definition → Names → Names
unfolding add_fields
all_fields [] fields = fields
all_fields (d ∷ ds) fields = all_fields ds (add_fields d.field_fingerprints fields)

abbrev field_value : String → Definition → String
field_value field d = elim (value_at field d.field_fingerprints) [
  | none ↦ "<missing>"
  | some value ↦ value
]

unfoldable pub set_of : {A : Type 0} → (A → String) → List A → Names → Names
unfolding put
set_of key [] names = names
set_of key (x ∷ xs) names = set_of key xs (put (key x) tt names)

unfoldable pub differing_index_fields : List Definition → List String
unfolding all_fields set_of keep sort_stable str_lt value_at
differing_index_fields definitions = sort_stable str_lt (
    keep (λ field. ltb 1 (length (set_of (field_value field) definitions [])))
      (map (λ e. e.0) (all_fields definitions [])))

-- What the first loop of the comparison does not skip.
unfoldable pub is_visible : Names → Names → Definition → Bool
unfolding value_at
is_visible building_names building_semantics d =
    not (has_name building_names d.name) && not (has_name building_semantics d.semantic_fingerprint)

abbrev pub or_no_shards : {A : Type 0} → Option (List (String × A)) → List (String × A)
or_no_shards none = []
or_no_shards (some shards) = shards

pub record Tables : Type 0 where
  pub by_semantic : List (String × List (String × List Definition))
  pub by_name : List (String × List (String × Definition))

unfoldable pub add_definition : String → Definition → Tables → Tables
unfolding put value_at add_to_group
add_definition shard d tables = record {
  by_semantic =
      put d.semantic_fingerprint
        (add_to_group shard d (or_no_shards (value_at d.semantic_fingerprint tables.by_semantic)))
        tables.by_semantic;
  by_name = put d.name (put shard d (or_no_shards (value_at d.name tables.by_name))) tables.by_name;
}

unfoldable pub add_shard : Names → Names → String → List Definition → Tables → Tables
unfolding is_visible add_definition
add_shard names semantics shard [] tables = tables
add_shard names semantics shard (d ∷ ds) tables =
    add_shard names semantics shard ds
      (if is_visible names semantics d then add_definition shard d tables else tables)

unfoldable pub tables_from : Names → Names → Observations → Tables → Tables
unfolding add_shard
tables_from names semantics [] tables = tables
tables_from names semantics ((shard, ds) ∷ rest) tables =
    tables_from names semantics rest (add_shard names semantics shard ds tables)

-- The definitions of a semantic fingerprint, in the order of the expected shards.
in_order : List String → List (String × List Definition) → List Definition
unfolding value_at
in_order [] shards = []
in_order (shard ∷ rest) shards = or_empty (value_at shard shards) ++ in_order rest shards

abbrev pub empty_definition : Definition
empty_definition = record {
  name = "";
  key = [];
  semantic_fingerprint = "";
  full_fingerprint = "";
  field_fingerprints = [];
  building = false;
  shard = "";
}

-- The first definition with a name, and the last one if there is none.
reference_of : Definition → List Definition → Definition
reference_of reference [] = reference
reference_of reference (d ∷ ds) =
    reference_of (if str_eq reference.name "" then d else reference) ds

join_texts : List String → String
join_texts [] = ""
join_texts (v ∷ []) = v
join_texts (v ∷ w ∷ vs) = str_append v (str_append "," (join_texts (w ∷ vs)))

-- The names under which the expected shards know a semantic fingerprint, if that is a mismatch.
unfoldable pub mismatched_names : List String → List (String × List Definition) → Option Names
unfolding in_order set_of
mismatched_names expected shards =
    let names = set_of (λ d. d.name) (in_order expected shards) [] in
    if not (length shards == length expected)
    then none
    else if leb (length names) 1
    then none
    else some names

-- The loop over the semantic fingerprints: the names that it handles, and its differences.
unfoldable pub name_mismatches :
    List String → List (String × List (String × List Definition)) → Names × List Difference
unfolding mismatched_names reference_of in_order map_keys join_texts set_of
name_mismatches expected [] = ([], [])
name_mismatches expected ((semantic, shards) ∷ rest) =
    let later = name_mismatches expected rest in
    elim (mismatched_names expected shards) [
      | none ↦ later
      | some names ↦ (
        set_of (λ name. name) (map_keys names) later.0,
        record (bare_difference name_mismatch) {
          index_name = join_texts (map_keys names);
          shards = expected;
          key = (reference_of empty_definition (in_order expected shards)).key;
          fingerprint = semantic;
        }
            ∷ later.1,
      )
    ]

first_reference : List String → List (String × Definition) → Definition
unfolding value_at
first_reference [] shards = empty_definition
first_reference (shard ∷ rest) shards =
    let later = first_reference rest shards in
    elim (value_at shard shards) [ none ↦ later | some d ↦ d ]

-- aggregateFingerprints hashes with SHA-256.
module _ (aggregate_fingerprints : List String → String) where
  -- The body of the loop over the names, for one that is not handled.
  unfoldable pub name_differences :
      List String → String → List (String × Definition) → List Difference
  unfolding first_reference missing_definition_shards map_keys set_of differing_index_fields
  name_differences expected name shards =
      let reference = first_reference expected shards in
      let definitions = map (λ e. e.1) shards in
      let semantics = set_of (λ d. d.semantic_fingerprint) definitions [] in
      if not (length shards == length expected)
      then record (bare_difference missing_on_shard) {
        index_name = name;
        shards = missing_definition_shards expected shards;
        key = reference.key;
        fingerprint = reference.semantic_fingerprint;
      }
        ∷ []
      else if ltb 1 (length semantics)
      then record (bare_difference spec_mismatch) {
        index_name = name;
        shards = expected;
        key = reference.key;
        fingerprint = aggregate_fingerprints (map_keys semantics);
        differing_fields = differing_index_fields definitions;
      }
        ∷ []
      else []

  unfoldable pub differences_by_name :
      List String → Names → List (String × List (String × Definition)) → List Difference
  unfolding name_differences value_at
  differences_by_name expected handled [] = []
  differences_by_name expected handled ((name, shards) ∷ rest) =
      (if has_name handled name then [] else name_differences expected name shards)
      ++ differences_by_name expected handled rest

  unfoldable pub compare_legacy_definitions :
      List String → Observations → Names → Names → List Difference
  unfolding tables_from name_mismatches differences_by_name difference_less sort_stable
  compare_legacy_definitions expected observations building_names building_semantics =
      let tables =
        tables_from building_names building_semantics observations
          (record { by_semantic = []; by_name = [] }) in
      let mismatches = name_mismatches expected tables.by_semantic in
      sort_stable difference_less
        (mismatches.1 ++ differences_by_name expected mismatches.0 tables.by_name)
