-- ===== src/Consistency/Tables.antt =====
-- What the tables of compareLegacyDefinitions hold: of each name and shard, the last definition.
use mongo_overview_tool.Base.Maps.{
  or_else_assoc, put-Distinct, Distinct, value_at-put, put, or_else, value_at,
}
use mongo_overview_tool.Consistency.Legacy.{
  tables_from, or_no_shards, is_visible, add_shard, Definition, add_definition, Observations,
  Tables, Names,
}
use mongo_overview_tool.Base.{
  sym, Bool, false, true, eq_iff, ◌∙◌, Bool-cases, ap, ◌&&◌, str_eq, ◌≡◌, Option, List, String, ◌∷◌,
  if◌then◌else◌, refl, inr, inl, some, none, [],
}

abbrev pub inner : String → Tables → List (String × Definition)
inner name t = or_no_shards (value_at name t.by_name)

abbrev pub entry : String → String → Tables → Option Definition
entry name shard t = value_at shard (inner name t)

-- The last definition of a name in a list, of those that are not skipped.
abbrev pub last_visible : Names → Names → String → List Definition → Option Definition
last_visible names semantics name [] = none
last_visible names semantics name (d ∷ ds) =
    or_else (last_visible names semantics name ds)
      (if is_visible names semantics d && str_eq d.name name then some d else none)

-- The last definition of a name that a shard lists.
abbrev pub listed : Names → Names → String → String → Observations → Option Definition
listed names semantics name shard [] = none
listed names semantics name shard ((s, ds) ∷ rest) =
    or_else (listed names semantics name shard rest)
      (if str_eq s shard then last_visible names semantics name ds else none)

ap_if :
    (b : Bool) (shards : List (String × Definition)) (other : Option (List (String × Definition)))
    → or_no_shards (if b then some shards else other) ≡ (if b then shards else or_no_shards other)
ap_if true shards other = refl
ap_if false shards other = refl

skip_lem :
    (same visible is_named : Bool) (last : Option Definition) (d : Definition)
    (before : Option Definition)
    → or_else
        (if same then last else none)
        (if visible then (if is_named && same then some d else before) else before)
      ≡ or_else
          (if same then or_else last (if visible && is_named then some d else none) else none)
          before
skip_lem true true true none d before = refl
skip_lem true true true (some x) d before = refl
skip_lem true true false none d before = refl
skip_lem true true false (some x) d before = refl
skip_lem true false is_named none d before = refl
skip_lem true false is_named (some x) d before = refl
skip_lem false true true last d before = refl
skip_lem false true false last d before = refl
skip_lem false false is_named last d before = refl

module _ (names semantics : Names) where
  inner-add_definition :
      (shard : String) (d : Definition) (t : Tables) (name : String)
      → inner name (add_definition shard d t)
        ≡ (if str_eq d.name name then put shard d (inner d.name t) else inner name t)
  unfolding add_definition
  inner-add_definition shard d t name =
      ap or_no_shards (value_at-put d.name (put shard d (inner d.name t)) name t.by_name)
      ∙ ap_if (str_eq d.name name) (put shard d (inner d.name t)) (value_at name t.by_name)

  entry-add_definition :
      (shard : String) (d : Definition) (t : Tables) (name other : String)
      → entry name other (add_definition shard d t)
        ≡ (if str_eq d.name name && str_eq shard other then some d else entry name other t)
  entry-add_definition shard d t name other =
      rw (inner-add_definition shard d t name) (elim (Bool-cases (str_eq d.name name)) [
        | inl e ↦
            rw e (value_at-put shard d other (inner d.name t) ∙ rw ((eq_iff d.name name).0 e) refl)
        | inr e ↦ rw e refl
      ])

  nil_if :
      (b : Bool) (before : Option Definition) → before ≡ or_else (if b then none else none) before
  nil_if true before = refl
  nil_if false before = refl

  entry_if :
      (b : Bool) (shard : String) (d : Definition) (t : Tables) (name other : String)
      → entry name other (if b then add_definition shard d t else t)
        ≡ (if b then entry name other (add_definition shard d t) else entry name other t)
  entry_if true shard d t name other = refl
  entry_if false shard d t name other = refl

  entry-add_shard :
      (shard : String) (ds : List Definition) (t : Tables) (name other : String)
      → entry name other (add_shard names semantics shard ds t)
        ≡ or_else
            (if str_eq shard other then last_visible names semantics name ds else none)
            (entry name other t)
  unfolding add_shard
  entry-add_shard shard [] t name other = nil_if (str_eq shard other) (entry name other t)
  entry-add_shard shard (d ∷ ds) t name other =
      entry-add_shard shard ds
        (if is_visible names semantics d then add_definition shard d t else t) name other
      ∙ rw (entry_if (is_visible names semantics d) shard d t name other) (
          rw (entry-add_definition shard d t name other) (
            skip_lem (str_eq shard other) (is_visible names semantics d) (str_eq d.name name)
              (last_visible names semantics name ds) d (entry name other t)))

  pub entry-tables_from :
      (observations : Observations) (t : Tables) (name shard : String)
      → entry name shard (tables_from names semantics observations t)
        ≡ or_else (listed names semantics name shard observations) (entry name shard t)
  unfolding tables_from
  entry-tables_from [] t name shard = refl
  entry-tables_from ((s, ds) ∷ rest) t name shard =
      entry-tables_from rest (add_shard names semantics s ds t) name shard
      ∙ rw (entry-add_shard s ds t name shard) (
          sym (
            or_else_assoc (listed names semantics name shard rest)
              (if str_eq s shard then last_visible names semantics name ds else none)
              (entry name shard t)))

  -- Each shard stands once under a name.
  abbrev pub AllDistinct : Tables → Type 0
  AllDistinct t = (name : String) → Distinct (inner name t)

  Distinct-if :
      (b : Bool) (xs ys : List (String × Definition))
      → Distinct xs
      → Distinct ys
      → Distinct (if b then xs else ys)
  Distinct-if true xs ys h k = h
  Distinct-if false xs ys h k = k

  add_definition-AllDistinct :
      (shard : String) (d : Definition) (t : Tables)
      → AllDistinct t
      → AllDistinct (add_definition shard d t)
  add_definition-AllDistinct shard d t h name = rw (inner-add_definition shard d t name) (
      Distinct-if (str_eq d.name name) (put shard d (inner d.name t)) (inner name t)
        (put-Distinct shard d (inner d.name t) (h d.name)) (h name))

  if-AllDistinct :
      (b : Bool) (shard : String) (d : Definition) (t : Tables)
      → AllDistinct t
      → AllDistinct (if b then add_definition shard d t else t)
  if-AllDistinct true shard d t h = add_definition-AllDistinct shard d t h
  if-AllDistinct false shard d t h = h

  add_shard-AllDistinct :
      (shard : String) (ds : List Definition) (t : Tables)
      → AllDistinct t
      → AllDistinct (add_shard names semantics shard ds t)
  unfolding add_shard
  add_shard-AllDistinct shard [] t h = h
  add_shard-AllDistinct shard (d ∷ ds) t h =
      add_shard-AllDistinct shard ds _ (if-AllDistinct (is_visible names semantics d) shard d t h)

  pub tables_from-AllDistinct :
      (observations : Observations) (t : Tables)
      → AllDistinct t
      → AllDistinct (tables_from names semantics observations t)
  unfolding tables_from
  tables_from-AllDistinct [] t h = h
  tables_from-AllDistinct ((s, ds) ∷ rest) t h =
      tables_from-AllDistinct rest (add_shard names semantics s ds t)
        (add_shard-AllDistinct s ds t h)
