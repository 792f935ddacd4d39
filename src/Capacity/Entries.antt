-- ===== src/Capacity/Entries.antt =====
-- The comparison of two snapshots, read as a map from names.
use mongo_overview_tool.Doctor.Window.{sub_time}
use mongo_overview_tool.Errors.{ok, err, Error}
use mongo_overview_tool.Base.Int.{pos}
use mongo_overview_tool.Errors.{Result}
use mongo_overview_tool.Base.Sort.{count-sort_stable}
use mongo_overview_tool.Base.Maps.{
  is_there, absent_lem, or_else_lem, or_else_assoc, value_at-put, put-Distinct, or_else-none, put,
  or_else, Distinct, value_at,
}
use mongo_overview_tool.Capacity.{
  same_cluster, CapacityDiffResult, is_schema_1, diff_capacity, flatten_capacity_collections,
  capacity_databases_by_name, CapacityResult, diff_collection, diff_database, diff_all,
  sorted_union_keys, CollectionCapacity, DatabaseCapacity, add_keys, flatten_from, put_collections,
  put_databases,
}
use mongo_overview_tool.Base.{
  ap, not, ◌+◌, ◌&&◌, Bool-cases, str_lt, ℕ, ltb, Bool, inr, inl, false, true, eq_iff, arith, sym,
  ◌||◌, map, ◌∙◌, concat, ◌≡◌, str_eq, ◌++◌, Option, count, List, String, ◌∷◌, if◌then◌else◌, refl,
  some, none, [],
}

-- The entry of a list under a name, and how many there are.
abbrev pub entry_of : {A : Type 0} → (A → String) → String → List A → Option A
entry_of name key [] = none
entry_of name key (x ∷ xs) = if str_eq (name x) key then some x else entry_of name key xs

-- The last entry under a name, which is the one that a map keeps.
abbrev pub last_of : {A : Type 0} → (A → String) → String → List A → Option A
last_of name key [] = none
last_of name key (x ∷ xs) =
    or_else (last_of name key xs) (if str_eq (name x) key then some x else none)

put_databases_lem :
    (key : String) (ds : List DatabaseCapacity) (values : List (String × DatabaseCapacity))
    → value_at key (put_databases ds values)
      ≡ or_else (last_of (λ d. d.name) key ds) (value_at key values)
unfolding put_databases
put_databases_lem key [] values = refl
put_databases_lem key (d ∷ ds) values =
    put_databases_lem key ds (put d.name d values)
    ∙ rw (value_at-put d.name d key values)
        (or_else_lem (last_of (λ x. x.name) key ds) (str_eq d.name key) d (value_at key values))

put_collections_lem :
    (key : String) (cs : List CollectionCapacity) (values : List (String × CollectionCapacity))
    → value_at key (put_collections cs values)
      ≡ or_else (last_of (λ c. c.namespace) key cs) (value_at key values)
unfolding put_collections
put_collections_lem key [] values = refl
put_collections_lem key (c ∷ cs) values =
    put_collections_lem key cs (put c.namespace c values)
    ∙ rw (value_at-put c.namespace c key values) (
        or_else_lem (last_of (λ x. x.namespace) key cs) (str_eq c.namespace key) c
          (value_at key values))

abbrev pub all_collections : List DatabaseCapacity → List CollectionCapacity
all_collections ds = concat (map (λ d. d.collections) ds)

last_of-append :
    {A : Type 0}
    → (name : A → String) (key : String) (xs ys : List A)
    → last_of name key (xs ++ ys) ≡ or_else (last_of name key ys) (last_of name key xs)
last_of-append name key [] ys = or_else-none (last_of name key ys)
last_of-append name key (x ∷ xs) ys = rw (last_of-append name key xs ys) (
    or_else_assoc (last_of name key ys) (last_of name key xs)
      (if str_eq (name x) key then some x else none))

flatten_lem :
    (key : String) (ds : List DatabaseCapacity) (values : List (String × CollectionCapacity))
    → value_at key (flatten_from ds values)
      ≡ or_else (last_of (λ c. c.namespace) key (all_collections ds)) (value_at key values)
unfolding flatten_from
flatten_lem key [] values = refl
flatten_lem key (d ∷ ds) values =
    flatten_lem key ds (put_collections d.collections values)
    ∙ rw (put_collections_lem key d.collections values) (
        rw (last_of-append (λ c. c.namespace) key d.collections (all_collections ds)) (
          sym (
            or_else_assoc (last_of (λ c. c.namespace) key (all_collections ds))
              (last_of (λ c. c.namespace) key d.collections) (value_at key values))))

add_keys_lem :
    {A : Type 0}
    → (key : String) (m : List (String × A)) (keys : List (String × Unit {0}))
    → is_there (value_at key (add_keys m keys))
      ≡ (is_there (value_at key m) || is_there (value_at key keys))
unfolding add_keys value_at
add_keys_lem key [] keys = refl
add_keys_lem key ((k, v) ∷ rest) keys =
    ground (arith, add_keys_lem key rest (put k tt keys), value_at-put k tt key keys)

add_keys-Distinct :
    {A : Type 0}
    → (m : List (String × A)) (keys : List (String × Unit {0})) → Distinct keys
    → Distinct (add_keys m keys)
unfolding add_keys
add_keys-Distinct [] keys d = d
add_keys-Distinct ((k, v) ∷ rest) keys d =
    add_keys-Distinct rest (put k tt keys) (put-Distinct k tt keys d)

-- How often a name stands among the keys of a map.
count_keys :
    {A : Type 0}
    → (key : String) (m : List (String × A)) → Distinct m
    → count (λ k. str_eq k key) (map (λ e. e.0) m) ≡ (if is_there (value_at key m) then 1 else 0)
unfolding count value_at
count_keys key [] d = refl
count_keys key ((k, v) ∷ rest) d =
    ground (arith, eq_iff k key, count_keys key rest d.1, absent_lem k rest)

union_keys_lem :
    {A : Type 0}
    → (key : String) (before after : List (String × A))
    → count (λ k. str_eq k key) (sorted_union_keys before after)
      ≡ (if is_there (value_at key before) || is_there (value_at key after) then 1 else 0)
unfolding sorted_union_keys value_at
union_keys_lem key before after =
    let keys = add_keys after (add_keys before []) in
    count-sort_stable str_lt (λ k. str_eq k key) (map (λ e. e.0) keys)
    ∙ count_keys key keys
        (add_keys-Distinct after (add_keys before []) (add_keys-Distinct before [] tt))
    ∙ rw (add_keys_lem key after (add_keys before []))
        (rw (add_keys_lem key before []) (ground arith))

module _ {A B : Type 0} (name : B → String) (diff : String → Option A → Option A → B) where
  -- What there is to say of a name that has an old value, a new one, or both.
  abbrev pub expected : String → Option A → Option A → Option B
  expected key b a = if is_there b || is_there a then some (diff key b a) else none

  abbrev NamedByKey : Type 0
  NamedByKey = (key : String) (b a : Option A) → name (diff key b a) ≡ key

  diff_all_count :
      (key : String) (before after : List (String × A)) (names : List String)
      → NamedByKey
      → count (λ x. str_eq (name x) key) (diff_all diff before after names)
        ≡ count (λ k. str_eq k key) names
  unfolding diff_all count
  diff_all_count key before after [] h = refl
  diff_all_count key before after (k ∷ names) h =
      rw (h k (value_at k before) (value_at k after)) (rw (diff_all_count key before after names h))

  none_more :
      (key : String) (names : List String) (found : Option B)
      → (if ltb 0 (count (λ k. str_eq k key) names) then found else none)
        ≡ (if ltb 0 (0 + count (λ k. str_eq k key) names) then found else none)
  none_more key names found =
      let same_number : count (λ k. str_eq k key) names ≡ 0 + count (λ k. str_eq k key) names =
        omega arith in
      ap (λ n. if ltb 0 n then found else none) same_number

  diff_all_entry :
      (key : String) (before after : List (String × A)) (names : List String)
      → NamedByKey
      → entry_of name key (diff_all diff before after names) ≡ (
          if ltb 0 (count (λ k. str_eq k key) names)
          then some (diff key (value_at key before) (value_at key after))
          else none)
  unfolding diff_all count
  diff_all_entry key before after [] h = refl
  diff_all_entry key before after (k ∷ names) h =
      rw (h k (value_at k before) (value_at k after)) (elim (Bool-cases (str_eq k key)) [
        | inl e ↦ rw e (rw ((eq_iff k key).0 e) (ground arith))
        | inr e ↦ rw e (diff_all_entry key before after names h ∙ none_more key names _)
      ])

  diff_all_lem :
      (key : String) (before after : List (String × A))
      → NamedByKey
      → let entries = diff_all diff before after (sorted_union_keys before after) in
        (entry_of name key entries ≡ expected key (value_at key before) (value_at key after))
        × (count (λ x. str_eq (name x) key) entries
            ≡ (if is_there (value_at key before) || is_there (value_at key after) then 1 else 0))
  diff_all_lem key before after h = (
    diff_all_entry key before after (sorted_union_keys before after) h
        ∙ rw (union_keys_lem key before after) (ground arith),
    diff_all_count key before after (sorted_union_keys before after) h
        ∙ union_keys_lem key before after,
  )

database_named :
    (duration : ℕ) (key : String) (b a : Option DatabaseCapacity)
    → (diff_database duration key b a).name ≡ key
unfolding diff_database
database_named duration key none none = refl
database_named duration key none (some a) = refl
database_named duration key (some b) none = refl
database_named duration key (some b) (some a) = refl

collection_named :
    (duration : ℕ) (key : String) (b a : Option CollectionCapacity)
    → (diff_collection duration key b a).namespace ≡ key
unfolding diff_collection
collection_named duration key none none = refl
collection_named duration key none (some a) = refl
collection_named duration key (some b) none = refl
collection_named duration key (some b) (some a) = refl

-- Two snapshots that may be compared: of schema 1, of the same cluster with a known digest, and the
-- second one later.
abbrev pub is_comparable : CapacityResult → CapacityResult → Bool
is_comparable before after =
    (is_schema_1 before && is_schema_1 after)
    && (same_cluster before.cluster_identity after.cluster_identity
        && ltb before.collected_at after.collected_at)

abbrev pub once : Bool → ℕ
once present = if present then 1 else 0

-- The entries of a comparison under a key are what the last entries under that key come to.
abbrev pub Describes : CapacityResult → CapacityResult → CapacityDiffResult → String → Type 0
Describes before after r key =
    let b = last_of (λ d. d.name) key before.databases in
    let a = last_of (λ d. d.name) key after.databases in
    let b' = last_of (λ c. c.namespace) key (all_collections before.databases) in
    let a' = last_of (λ c. c.namespace) key (all_collections after.databases) in
    (entry_of (λ d. d.name) key r.databases
      ≡ expected (λ d. d.name) (diff_database r.duration) key b a)
    × (count (λ d. str_eq d.name key) r.databases ≡ once (is_there b || is_there a))
    × (entry_of (λ c. c.namespace) key r.collections
        ≡ expected (λ c. c.namespace) (diff_collection r.duration) key b' a')
    × (count (λ c. str_eq c.namespace key) r.collections ≡ once (is_there b' || is_there a'))

abbrev pub Compares : CapacityResult → CapacityResult → Result CapacityDiffResult → Type 0
Compares before after (err e) = is_comparable before after ≡ false
Compares before after (ok r) =
    (is_comparable before after ≡ true) × ((key : String) → Describes before after r key)

databases_by_name :
    (key : String) (result : CapacityResult)
    → value_at key (capacity_databases_by_name result) ≡ last_of (λ d. d.name) key result.databases
unfolding capacity_databases_by_name value_at
databases_by_name key result = put_databases_lem key result.databases [] ∙ sym (or_else-none _)

collections_by_name :
    (key : String) (result : CapacityResult)
    → value_at key (flatten_capacity_collections result)
      ≡ last_of (λ c. c.namespace) key (all_collections result.databases)
unfolding flatten_capacity_collections value_at
collections_by_name key result = flatten_lem key result.databases [] ∙ sym (or_else-none _)

describes_lem :
    (before after : CapacityResult) (key : String) (duration : ℕ)
    → let b = capacity_databases_by_name before in
      let a = capacity_databases_by_name after in
      let b' = flatten_capacity_collections before in
      let a' = flatten_capacity_collections after in
      Describes before after
        (record {
          schema_version = pos 1;
          cluster_identity = before.cluster_identity;
          before_collected_at = before.collected_at;
          after_collected_at = after.collected_at;
          duration = duration;
          comparable = true;
          databases = diff_all (diff_database duration) b a (sorted_union_keys b a);
          collections = diff_all (diff_collection duration) b' a' (sorted_union_keys b' a');
        })
        key
describes_lem before after key duration =
    let d =
      diff_all_lem (λ x. x.name) (diff_database duration) key (capacity_databases_by_name before)
        (capacity_databases_by_name after) (database_named duration) in
    let c =
      diff_all_lem (λ x. x.namespace) (diff_collection duration) key
        (flatten_capacity_collections before) (flatten_capacity_collections after)
        (collection_named duration) in
    rw (← databases_by_name key before) (
      rw (← databases_by_name key after) (
        rw (← collections_by_name key before)
          (rw (← collections_by_name key after) (d.0, d.1, c.0, c.1))))

-- The three tests of the code, in a row.
comparison :
    (before after : CapacityResult) (s s' same later : Bool) (e e' e'' : Error)
    (r : CapacityDiffResult)
    → ((key : String) → Describes before after r key)
    → is_comparable before after ≡ ((s && s') && (same && later))
    → Compares before after (
        if not s || not s'
        then err e
        else if not same
        then err e'
        else if not later
        then err e''
        else ok r)
comparison before after false s' same later e e' e'' r d h = h
comparison before after true false same later e e' e'' r d h = h
comparison before after true true false later e e' e'' r d h = h
comparison before after true true true false e e' e'' r d h = h
comparison before after true true true true e e' e'' r d h = (h, d)

-- Two snapshots are compared exactly if both are of schema 1, of one cluster with a known digest, and
-- the second is later. Then every name of a database in one of them, and every namespace of a
-- collection, has exactly one entry, no other name has one, and the entry says of the last value
-- that each snapshot has under the name whether it was added, was removed or changed, and by how much.
pub diff_capacity_lem :
    (before after : CapacityResult) → Compares before after (diff_capacity before after)
unfolding diff_capacity
diff_capacity_lem before after =
    comparison before after (is_schema_1 before) (is_schema_1 after)
      (same_cluster before.cluster_identity after.cluster_identity)
      (ltb before.collected_at after.collected_at) _ _ _ _
      (λ key. describes_lem before after key (sub_time after.collected_at before.collected_at)) refl
