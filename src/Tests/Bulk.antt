-- ===== src/Tests/Bulk.antt =====
-- Runs of the bulk operations on a server whose first cursor fails.
use mongo_overview_tool.Base.{
  ◌≡◌, refl, true, false, ℕ, zero, suc, ◌+◌, [], ◌∷◌, none, codes, length, any,
}
use mongo_overview_tool.Base.Int.{pos}
use mongo_overview_tool.Errors.{Result, ok, err, message}
use mongo_overview_tool.Document.{Input, parse_document}
use mongo_overview_tool.Bulk.{BulkOptions, BulkUpdateOptions, BulkCursor, Remote}
use mongo_overview_tool.Bulk.Operations.{bulk_delete, bulk_update}
use mongo_overview_tool.Bulk.Batches.{done_ids, last_opened}
use mongo_overview_tool.Bulk.Promises.{
  Promised, bulk_delete-Promised, bulk_update-Promised, bulk_delete_complete,
}
use mongo_overview_tool.Bulk.DryRun.{touches, bulk_delete_dry_run, bulk_delete_guard}

-- Three documents.
abbrev cursor : BulkCursor ℕ
cursor = record {
  fetches =
      record { context = none; id = ok 11 }
      ∷ record { context = none; id = ok 12 }
      ∷ record { context = none; id = ok 13 }
      ∷ [];
  end = none;
}

-- The state counts the waits: before the first wait no cursor can be opened.
abbrev found : ℕ → Result (BulkCursor ℕ)
found zero = err (message (codes "unexpected EOF"))
found (suc n) = ok cursor

abbrev remote : Remote ℕ ℕ
remote = record {
  parse = λ source. ok ((source, 1) ∷ []);
  now = λ world. world + 5;
  context = λ world. none;
  count_documents = λ db coll filter world. (world, ok 3);
  find_ids_cursor = λ db coll filter world. (world, found world);
  bulk_delete = λ db coll ids world. (world, (length ids, none));
  bulk_update =
      λ db coll ids update world. (world, (record { matched = length ids; modified = 1 }, none));
  wait = λ pause world. (suc world, none);
}

abbrev options : BulkOptions ℕ
options = record {
  database = "shop";
  collection = "orders";
  filter = Input.text "{status: 1}";
  batch_size = pos 2;
  pause = pos 0;
  dry_run = false;
  allow_empty_filter = false;
  max_retries = pos 0;
  observed = true;
}

abbrev update_options : BulkUpdateOptions ℕ
update_options = record { options = options; update = Input.ordered (("$set", 1) ∷ []) }

bulk_delete_run :
    ((bulk_delete remote true options 0).1 ≡ none)
    × ((bulk_delete remote true options 0).0.result.processed ≡ 3)
    × (done_ids (bulk_delete remote true options 0).0.calls ≡ 11 ∷ 12 ∷ 13 ∷ [])
unfolding bulk_delete done_ids
bulk_delete_run = (refl, refl, refl)

bulk_update_run : (bulk_update remote true update_options 0).1 ≡ none
unfolding bulk_update
bulk_update_run = refl

bulk_delete-Promised_example : Promised remote options (bulk_delete remote true options 0).0
bulk_delete-Promised_example = bulk_delete-Promised remote true options 0

bulk_update-Promised_example : Promised remote options (bulk_update remote true update_options 0).0
bulk_update-Promised_example = bulk_update-Promised remote true update_options 0

bulk_delete_complete_example :
    done_ids (bulk_delete remote true options 0).0.calls
    ≡ last_opened (bulk_delete remote true options 0).0.calls
bulk_delete_complete_example = bulk_delete_complete remote true options 0 bulk_delete_run.0

abbrev dry_options : BulkOptions ℕ
dry_options = record options { dry_run = true }

bulk_delete_dry_run_example : any touches (bulk_delete remote true dry_options 0).0.calls ≡ false
bulk_delete_dry_run_example = bulk_delete_dry_run remote true dry_options 0 refl

abbrev dry_update_options : BulkUpdateOptions ℕ
dry_update_options = record update_options { options = dry_options }

-- No filter, and no leave for it.
abbrev bare_options : BulkOptions ℕ
bare_options = record options { filter = Input.nil }

bulk_delete_guard_example : any touches (bulk_delete remote true bare_options 0).0.calls ≡ false
unfolding parse_document
bulk_delete_guard_example = bulk_delete_guard remote true bare_options 0 refl refl
