-- ===== src/Bulk.antt =====
-- pkg/mot/bulk.go: the options, what the operations call, and the validation. The run over the
-- batches is in Bulk/Run.antt.
pub mod Run
pub mod Batches
pub mod Fetches
pub mod Progress
pub mod Safety
pub mod Promises
pub mod DryRun
pub mod Operations
use mongo_overview_tool.Base.{
  ℕ, String, Bool, true, false, ◌&&◌, List, Option, none, some, not, str_eq, str_append, codes,
  if◌then◌else◌, [],
}
use mongo_overview_tool.Base.Int.{ℤ, pos, leb_ℤ, ltb_ℤ}
use mongo_overview_tool.Errors.{
  Result, ok, err, Error, sentinel, wrapped, dangerous_operation, invalid,
}
use mongo_overview_tool.Results.{BulkResult, BulkBatchResult}
use mongo_overview_tool.Document.{Document, Input, parse_document, is_empty_document}

abbrev pub max_bulk_batch_size : ℤ
max_bulk_batch_size = pos 50000

abbrev pub default_bulk_max_retries : ℤ
default_bulk_max_retries = pos 3

-- A duration is an integer of nanoseconds; `observed` says whether an observer is set.
pub record BulkOptions (Any : Type 0) : Type 0 where
  pub database : String
  pub collection : String
  pub filter : Input Any
  pub batch_size : ℤ
  pub pause : ℤ
  pub dry_run : Bool
  pub allow_empty_filter : Bool
  pub max_retries : ℤ
  pub observed : Bool

pub record BulkUpdateOptions (Any : Type 0) : Type 0 where
  pub options : BulkOptions Any
  pub update : Input Any

-- One round of `for cur.Next(ctx)`: ctx.Err() in it, and the document's _id or the decode error.
pub record Fetch (Any : Type 0) : Type 0 where
  pub context : Option Error
  pub id : Result Any

-- A cursor, by the documents it gives and its Err() behind the last.
pub record BulkCursor (Any : Type 0) : Type 0 where
  pub fetches : List (Fetch Any)
  pub end : Option Error

pub record BulkUpdateResult : Type 0 where
  pub matched : ℕ
  pub modified : ℕ

-- The servers, the clock and the context, whose state is a World: the interface bulkOperations,
-- time.Now, ctx.Err and the select between a timer and ctx.Done.
pub record Remote (World Any : Type 0) : Type 0 where
  pub parse : String → Result (Document Any)
  pub now : World → ℕ
  pub context : World → Option Error
  pub count_documents : String → String → Document Any → World → World × Result ℕ
  pub find_ids_cursor : String → String → Document Any → World → World × Result (BulkCursor Any)
  pub bulk_delete : String → String → List Any → World → World × (ℕ × Option Error)
  pub bulk_update :
      String → String → List Any → Document Any → World → World × (BulkUpdateResult × Option Error)
  pub wait : ℤ → World → World × Option Error

-- The calls that a run makes, with what came of them where it matters.
pub data Call (Any : Type 0) : Type 0 where
  counted : Call Any
  -- the cursor's documents, as they will be read
  opened : List (Fetch Any) → Call Any
  open_failed : Call Any
  closed : Call Any
  -- exec on a batch of ids, and whether it returned no error
  executed : List Any → Bool → Call Any
  waited : ℤ → Call Any
  on_bulk_start : ℕ → Call Any
  on_bulk_batch : BulkBatchResult → Call Any
  on_bulk_retry : Error → ℕ → Call Any
  on_bulk_done : BulkResult → Call Any

-- The variables of a run: `calls` has the latest first.
pub record BulkState (World Any : Type 0) : Type 0 where
  pub world : World
  pub result : BulkResult
  pub calls : List (Call Any)

-- The guards in front of the filter.
unfoldable pub check_bulk_options : {Any : Type 0} → BulkOptions Any → Option Error
check_bulk_options opts =
    if str_eq opts.database ""
    then some (invalid "database is required")
    else if str_eq opts.collection ""
    then some (invalid "collection is required")
    else if leb_ℤ opts.batch_size (pos 0)
    then some (invalid "batch size must be greater than 0")
    else if ltb_ℤ max_bulk_batch_size opts.batch_size
    then some (invalid "batch size must be less than or equal to 50000")
    else if ltb_ℤ opts.pause (pos 0)
    then some (invalid "pause must be greater than or equal to 0")
    else if ltb_ℤ opts.max_retries (pos 0)
    then some (invalid "max retries must be greater than or equal to 0")
    else none

module _ {World Any : Type 0} (remote : Remote World Any) where
  abbrev pub new_result : BulkOptions Any → World → BulkResult
  new_result opts world = record {
    database = opts.database;
    collection = opts.collection;
    dry_run = opts.dry_run;
    matched_total = 0;
    processed = 0;
    deleted = 0;
    matched = 0;
    modified = 0;
    batch_count = 0;
    started_at = remote.now world;
    finished_at = 0;
  }

  abbrev pub check_filter : String → BulkOptions Any → Result (Document Any) → Result (Document Any)
  check_filter op opts (err e) = err e
  check_filter op opts (ok filter) =
      if is_empty_document filter && (not opts.dry_run && not opts.allow_empty_filter)
      then err (
          wrapped [] (sentinel dangerous_operation)
            (codes (str_append ": " (str_append op " empty filter requires AllowEmptyFilter"))))
      else ok filter

  abbrev pub checked_filter : String → BulkOptions Any → Option Error → Result (Document Any)
  checked_filter op opts (some e) = err e
  checked_filter op opts none = check_filter op opts (parse_document remote.parse opts.filter)

  -- The filter, or the error; and the result, which is returned in both cases.
  unfoldable pub validate_bulk_options :
      String → BulkOptions Any → World → Result (Document Any) × BulkResult
  unfolding check_bulk_options parse_document
  validate_bulk_options op opts world =
      (checked_filter op opts (check_bulk_options opts), new_result opts world)
