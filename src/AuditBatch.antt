-- ===== src/AuditBatch.antt =====
-- pkg/mot/index_audit_batch.go: the cutting of a catalog of collections into batches. The cursor
-- that names the next batch is in AuditBatch/Cursor.antt.
pub mod Cut
pub mod Cursor
pub mod Resume
pub mod Follow
use mongo_overview_tool.Base.{
  ℕ, zero, suc, ◌+◌, String, Bool, true, false, ◌||◌, ◌&&◌, List, [], ◌∷◌, leb, ltb, ◌==◌,
  if◌then◌else◌, not, str_eq, length, take, drop,
}
use mongo_overview_tool.Base.Int.{ℤ, pos, pos_part, is_positive}

pub record IndexCollectionRef : Type 0 where
  pub database : String
  pub collection : String
  pub type : String

-- The inner loop: how many refs in front are of a database.
unfoldable pub run_length : String → List IndexCollectionRef → ℕ
run_length database [] = 0
run_length database (r ∷ rs) =
    let rest = run_length database rs in if str_eq r.database database then suc rest else 0

-- The outer loop, with refs[selected:]: how many refs are selected in the end.
unfoldable pub select_databases : ℕ → ℕ → List IndexCollectionRef → ℕ → ℕ
unfolding run_length
select_databases zero selected rest limit = selected
select_databases (suc fuel) selected [] limit = selected
select_databases (suc fuel) selected (r ∷ rs) limit =
    let database_count = suc (run_length r.database rs) in
    let selected_more =
      select_databases fuel (selected + database_count) (drop database_count (r ∷ rs)) limit in
    if selected == 0 && ltb limit database_count
    then limit
    else if ltb limit (selected + database_count)
    then selected
    else selected_more

-- As many rounds as there are refs are enough, since each round takes one at least.
unfoldable pub next_index_audit_batch : List IndexCollectionRef → ℤ → List IndexCollectionRef
unfolding select_databases
next_index_audit_batch refs limit =
    if length refs == 0 || not (is_positive limit)
    then []
    else take (select_databases (length refs) 0 refs (pos_part limit)) refs

abbrev count_changes : ℕ → String → List IndexCollectionRef → ℕ
count_changes count last [] = count
count_changes count last (r ∷ rs) =
    if count == 0 || not (str_eq r.database last)
    then count_changes (suc count) r.database rs
    else count_changes count last rs

unfoldable pub index_audit_batch_database_count : List IndexCollectionRef → ℕ
index_audit_batch_database_count refs = count_changes 0 "" refs
