-- ===== src/AuditBatch/Cursor.antt =====
-- pkg/mot/index_audit_batch.go: the signed cursor, and what one call plans with it.
use mongo_overview_tool.Base.{
  ◌++◌, ℕ, ◌+◌, ◌-◌, String, Bool, ◌||◌, ◌&&◌, List, [], Option, none, some, ltb, ◌==◌,
  if◌then◌else◌, not, str_eq, length, drop, codes,
}
use mongo_overview_tool.Base.Int.{ℤ, pos, pos_part, ◌+ℤ◌, is_positive, leb_ℤ}
use mongo_overview_tool.Errors.{
  Result, ok, err, Error, sentinel, wrapped, index_audit_cursor_invalid, index_audit_scope_changed,
}
use mongo_overview_tool.AuditBatch.{
  IndexCollectionRef, next_index_audit_batch, index_audit_batch_database_count,
}

abbrev pub max_index_audit_cursor_bytes : ℕ
max_index_audit_cursor_bytes = 8192

-- indexAuditBatchCursor; `version` is compared with indexAuditCursorVersion.
pub record BatchCursor : Type 0 where
  pub version : ℤ
  pub scope_hash : String
  pub catalog_hash : String
  pub processed : ℤ
  pub batch_index : ℤ
  pub signature : String

-- The texts of cursors, and what makes them: base64, JSON, HMAC-SHA256 and hexadecimal digits are
-- of Go's library. `decode` gives the number of bytes of the JSON text, and what it reads.
pub record Codec (Text : Type 0) : Type 0 where
  pub is_blank : Text → Bool
  pub encode : BatchCursor → Text
  pub decode : Text → Option (ℕ × Option BatchCursor)
  -- hex(hmac(key, json(cursor)))
  pub mac : BatchCursor → String
  -- two texts of digits are of the same bytes
  pub same_bytes : String → String → Bool

abbrev pub cursor_invalid : String → Error
cursor_invalid text = wrapped [] (sentinel index_audit_cursor_invalid) (codes ": " ++ codes text)

pub record BatchMetadata : Type 0 where
  pub mode : String
  pub index : ℤ
  pub database_count : ℕ
  pub collection_count : ℕ
  pub processed_collections : ℕ
  pub total_collections : ℕ
  pub remaining_collections : ℕ
  pub has_more : Bool

abbrev is_whole : BatchCursor → Bool
is_whole cursor =
    (leb_ℤ cursor.version (pos 1) && leb_ℤ (pos 1) cursor.version)
    && (not (str_eq cursor.scope_hash "")
        && (not (str_eq cursor.catalog_hash "")
            && (is_positive cursor.processed
                && (is_positive cursor.batch_index && not (str_eq cursor.signature "")))))

module _ {Text : Type 0} (codec : Codec Text) where
  abbrev is_bad_size : ℕ → Bool
  is_bad_size size = size == 0 || ltb max_index_audit_cursor_bytes size

  unfoldable pub check_fields : Option (ℕ × Option BatchCursor) → Result BatchCursor
  check_fields none = err (cursor_invalid "cursor encoding is invalid")
  check_fields (some (size, none)) =
      if is_bad_size size
      then err (cursor_invalid "cursor encoding is invalid")
      else err (cursor_invalid "cursor payload is invalid")
  check_fields (some (size, some cursor)) =
      if is_bad_size size
      then err (cursor_invalid "cursor encoding is invalid")
      else if is_whole cursor
      then ok cursor
      else err (cursor_invalid "cursor fields are invalid")

  unfoldable pub decode_index_audit_batch_cursor : Text → Result BatchCursor
  unfolding check_fields
  decode_index_audit_batch_cursor raw = check_fields (codec.decode raw)

  abbrev pub index_audit_batch_cursor_signature : BatchCursor → String
  index_audit_batch_cursor_signature cursor = codec.mac (record cursor { signature = "" })

  abbrev pub valid_index_audit_batch_cursor_signature : BatchCursor → Bool
  valid_index_audit_batch_cursor_signature cursor =
      codec.same_bytes cursor.signature (index_audit_batch_cursor_signature cursor)

  abbrev pub signed : BatchCursor → BatchCursor
  signed cursor = record cursor { signature = index_audit_batch_cursor_signature cursor }

  unfoldable pub encode_index_audit_batch_cursor : BatchCursor → Text
  encode_index_audit_batch_cursor cursor = codec.encode (signed cursor)

  unfoldable pub check_cursor :
      String → String → List IndexCollectionRef → Result BatchCursor → Result (ℤ × ℤ)
  unfolding ◌+ℤ◌
  check_cursor scope_hash catalog_hash refs (err e) = err e
  check_cursor scope_hash catalog_hash refs (ok cursor) =
      if not (valid_index_audit_batch_cursor_signature cursor)
      then err (cursor_invalid "cursor signature is invalid")
      else if not (str_eq cursor.scope_hash scope_hash)
          || not (str_eq cursor.catalog_hash catalog_hash)
      then err (
          wrapped [] (sentinel index_audit_scope_changed)
            (codes ": cursor scope no longer matches"))
      else if not (is_positive cursor.processed) || leb_ℤ (pos (length refs)) cursor.processed
      then err (cursor_invalid "cursor position is outside the remaining scope")
      else ok (cursor.processed, cursor.batch_index +ℤ pos 1)

  -- Where the batch begins, and its index.
  unfoldable pub index_audit_batch_start :
      Text → String → String → List IndexCollectionRef → Result (ℤ × ℤ)
  unfolding check_cursor decode_index_audit_batch_cursor
  index_audit_batch_start raw scope_hash catalog_hash refs =
      if codec.is_blank raw
      then ok (pos 0, pos 1)
      else check_cursor scope_hash catalog_hash refs (decode_index_audit_batch_cursor raw)

  -- The batch of one call, its metadata, and the cursor of the next call if there is one.
  pub record Plan : Type 0 where
    pub batch : List IndexCollectionRef
    pub metadata : BatchMetadata
    pub next_cursor : Option Text

  abbrev pub metadata_of : ℕ → ℤ → List IndexCollectionRef → List IndexCollectionRef → BatchMetadata
  metadata_of start batch_index batch refs =
      let processed = start + length batch in
      record {
        mode = "cursor";
        index = batch_index;
        database_count = index_audit_batch_database_count batch;
        collection_count = length batch;
        processed_collections = processed;
        total_collections = length refs;
        remaining_collections = length refs - processed;
        has_more = ltb processed (length refs);
      }

  abbrev pub plan_of :
      String → String → ℕ → ℤ → List IndexCollectionRef → List IndexCollectionRef → Plan
  plan_of scope_hash catalog_hash start batch_index batch refs =
      let metadata = metadata_of start batch_index batch refs in
      record {
        batch = batch;
        metadata = metadata;
        next_cursor =
            if metadata.has_more
            then some (
                encode_index_audit_batch_cursor (record {
                  version = pos 1;
                  scope_hash = scope_hash;
                  catalog_hash = catalog_hash;
                  processed = pos metadata.processed_collections;
                  batch_index = batch_index;
                  signature = "";
                }))
            else none;
      }

  unfoldable pub after_start :
      String → String → List IndexCollectionRef → ℤ → Result (ℤ × ℤ) → Result Plan
  unfolding next_index_audit_batch
  after_start scope_hash catalog_hash refs limit (err e) = err e
  after_start scope_hash catalog_hash refs limit (ok (start, batch_index)) =
      let batch = next_index_audit_batch (drop (pos_part start) refs) limit in
      if length batch == 0
      then err (cursor_invalid "cursor does not select a remaining batch")
      else ok (plan_of scope_hash catalog_hash (pos_part start) batch_index batch refs)

  -- The part of indexAuditBatch behind the discovery of the refs and before their audit.
  unfoldable pub index_audit_batch_plan :
      Text → String → String → List IndexCollectionRef → ℤ → Result Plan
  unfolding index_audit_batch_start after_start
  index_audit_batch_plan raw scope_hash catalog_hash refs limit =
      after_start scope_hash catalog_hash refs limit
        (index_audit_batch_start raw scope_hash catalog_hash refs)
