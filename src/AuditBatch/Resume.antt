-- ===== src/AuditBatch/Resume.antt =====
-- Following the cursors from call to call takes every collection of the catalog once.
use mongo_overview_tool.Base.{
  ℕ, ◌+◌, ◌≤◌, ◌<◌, String, true, false, List, some, str_eq, length, ◌≡◌, ap, ◌∙◌, arith, eq_refl,
}
use mongo_overview_tool.Base.Int.{pos, ◌+ℤ◌}
use mongo_overview_tool.Errors.{ok}
use mongo_overview_tool.AuditBatch.{IndexCollectionRef}
use mongo_overview_tool.AuditBatch.Cursor.{
  check_fields, BatchCursor, Codec, signed, encode_index_audit_batch_cursor,
  index_audit_batch_start, decode_index_audit_batch_cursor, check_cursor,
  max_index_audit_cursor_bytes,
}

-- What the code relies on: an encoded cursor is a text that decodes to it, of the size given; a
-- signature has digits, and they are the same bytes as themselves.
pub record IsCodec {Text : Type 0} (codec : Codec Text) (size : BatchCursor → ℕ) : Type 0 where
  pub not_blank : (c : BatchCursor) → codec.is_blank (codec.encode c) ≡ false
  pub round_trip : (c : BatchCursor) → codec.decode (codec.encode c) ≡ some (size c, some c)
  pub has_digits : (c : BatchCursor) → str_eq (codec.mac c) "" ≡ false
  pub same : (c : BatchCursor) → codec.same_bytes (codec.mac c) (codec.mac c) ≡ true

module _ {Text : Type 0} (codec : Codec Text) (size : BatchCursor → ℕ) (laws : IsCodec codec size)
    (scope_hash catalog_hash : String) (scope_some : str_eq scope_hash "" ≡ false)
    (catalog_some : str_eq catalog_hash "" ≡ false) (refs : List IndexCollectionRef) where
  abbrev pub cursor_at : ℕ → ℕ → BatchCursor
  cursor_at processed batch_index = record {
    version = pos 1;
    scope_hash = scope_hash;
    catalog_hash = catalog_hash;
    processed = pos processed;
    batch_index = pos batch_index;
    signature = "";
  }

  module _ (processed batch_index : ℕ) (p : 1 ≤ processed) (b : 1 ≤ batch_index)
      (lo : 1 ≤ size (signed codec (cursor_at processed batch_index)))
      (hi : size (signed codec (cursor_at processed batch_index))
        ≤ max_index_audit_cursor_bytes) where
    abbrev sent : BatchCursor
    sent = signed codec (cursor_at processed batch_index)

    decode-encode :
        decode_index_audit_batch_cursor codec
          (encode_index_audit_batch_cursor codec (cursor_at processed batch_index))
        ≡ ok sent
    unfolding decode_index_audit_batch_cursor encode_index_audit_batch_cursor check_fields
    decode-encode =
        ap (check_fields codec) (laws.round_trip sent)
        ∙ ground
            (arith, scope_some, catalog_some, laws.has_digits (cursor_at processed batch_index))

    check-sent :
        processed < length refs
        → check_cursor codec scope_hash catalog_hash refs (ok sent)
          ≡ ok (pos processed, pos (batch_index + 1))
    unfolding check_cursor ◌+ℤ◌
    check-sent l = ground (
      arith,
      laws.same (cursor_at processed batch_index),
      eq_refl scope_hash,
      eq_refl catalog_hash,
    )

  -- A cursor that a call gave is taken back where the same scope and catalog are asked for: the
  -- next batch begins behind the refs that were processed, and has the next index.
  pub index_audit_batch_start-encode :
      (processed batch_index : ℕ)
      → 1 ≤ processed
      → processed < length refs
      → 1 ≤ batch_index
      → 1 ≤ size (signed codec (cursor_at processed batch_index))
      → size (signed codec (cursor_at processed batch_index)) ≤ max_index_audit_cursor_bytes
      → index_audit_batch_start codec
          (encode_index_audit_batch_cursor codec (cursor_at processed batch_index))
          scope_hash
          catalog_hash
          refs
        ≡ ok (pos processed, pos (batch_index + 1))
  unfolding index_audit_batch_start encode_index_audit_batch_cursor
  index_audit_batch_start-encode processed batch_index p l b lo hi =
      rw (laws.not_blank (signed codec (cursor_at processed batch_index))) (
        ap (check_cursor codec scope_hash catalog_hash refs)
          (decode-encode processed batch_index p b lo hi)
        ∙ check-sent processed batch_index p b lo hi l)
