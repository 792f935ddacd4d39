-- ===== src/Results.antt =====
-- The result records of pkg/mot/results.go that errors and operations share.
use mongo_overview_tool.Base.{ℕ, String, Bool}

-- A time is the count of nanoseconds since the zero time, which is 0. A document count is a number.
pub record BulkResult : Type 0 where
  pub database : String
  pub collection : String
  pub dry_run : Bool
  pub matched_total : ℕ
  pub processed : ℕ
  pub deleted : ℕ
  pub matched : ℕ
  pub modified : ℕ
  pub batch_count : ℕ
  pub started_at : ℕ
  pub finished_at : ℕ

pub record BulkBatchResult : Type 0 where
  pub batch_number : ℕ
  pub processed : ℕ
  pub deleted : ℕ
  pub matched : ℕ
  pub modified : ℕ
