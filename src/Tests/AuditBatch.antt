-- ===== src/Tests/AuditBatch.antt =====
-- Runs of the batches over a small catalog, with cursors that are their own texts.
use mongo_overview_tool.Base.{
  ◌≡◌, ◌≤◌, ◌<◌, ◌++◌, ◌⊎◌, refl, Bool, true, false, String, str_eq, ℕ, List, [], ◌∷◌, Option, none,
  some, length, drop, concat, arith, ◌+◌,
}
use mongo_overview_tool.Base.Int.{pos}
use mongo_overview_tool.Errors.{ok}
use mongo_overview_tool.AuditBatch.{IndexCollectionRef, next_index_audit_batch}
use mongo_overview_tool.AuditBatch.Cut.{
  is_split, first_run, next_index_audit_batch_lem, next_index_audit_batch-Whole,
}
use mongo_overview_tool.AuditBatch.Cursor.{
  BatchCursor, Codec, encode_index_audit_batch_cursor, index_audit_batch_start,
}
use mongo_overview_tool.AuditBatch.Resume.{IsCodec, cursor_at, index_audit_batch_start-encode}
use mongo_overview_tool.AuditBatch.Follow.{follow, follow_complete}

abbrev ref : String → String → IndexCollectionRef
ref database collection = record {
  database = database;
  collection = collection;
  type = "collection";
}

abbrev refs : List IndexCollectionRef
refs = ref "a" "x" ∷ ref "a" "y" ∷ ref "b" "x" ∷ ref "c" "x" ∷ ref "c" "y" ∷ ref "c" "z" ∷ []

abbrev blank : Option BatchCursor → Bool
blank none = true
blank (some c) = false

abbrev decoded : Option BatchCursor → Option (ℕ × Option BatchCursor)
decoded none = none
decoded (some c) = some (100, some c)

abbrev codec : Codec (Option BatchCursor)
codec = record {
  is_blank = blank;
  encode = λ cursor. some cursor;
  decode = decoded;
  mac = λ cursor. "a0";
  same_bytes = str_eq;
}

abbrev laws : IsCodec codec (λ cursor. 100)
laws = record {
  not_blank = λ c. refl;
  round_trip = λ c. refl;
  has_digits = λ c. refl;
  same = λ c. refl;
}

next_index_audit_batch_run : length (next_index_audit_batch refs (pos 4)) ≡ 3
unfolding next_index_audit_batch
next_index_audit_batch_run = refl

next_index_audit_batch_example :
    let batch = next_index_audit_batch refs (pos 4) in
    (batch ++ drop (length batch) refs ≡ refs) × (1 ≤ length batch) × (length batch ≤ 4)
next_index_audit_batch_example = next_index_audit_batch_lem refs 4 (omega arith) (omega arith)

next_index_audit_batch-Whole_example :
    let k = length (next_index_audit_batch refs (pos 4)) in
    ((k ≡ 4) × (4 < first_run refs))
    ⊎ ((is_split k refs ≡ false) × ((k ≡ length refs) ⊎ (4 < k + first_run (drop k refs))))
next_index_audit_batch-Whole_example =
    next_index_audit_batch-Whole refs 4 (omega arith) (omega arith)

index_audit_batch_start-encode_example :
    index_audit_batch_start codec
      (encode_index_audit_batch_cursor codec
        (cursor_at codec (λ cursor. 100) laws "s" "c" refl refl refs 3 1))
      "s"
      "c"
      refs
    ≡ ok (pos 3, pos 2)
index_audit_batch_start-encode_example =
    index_audit_batch_start-encode codec (λ cursor. 100) laws "s" "c" refl refl refs 3 1
      (omega arith) (omega arith) (omega arith) (omega arith) (omega arith)

follow_complete_example : concat (follow codec "s" "c" refs 2 6 none) ≡ refs
follow_complete_example =
    follow_complete codec (λ cursor. 100) laws "s" "c" refl refl refs 2 (omega arith)
      (λ processed batch_index p b. (omega arith, omega arith)) none refl (omega arith)
