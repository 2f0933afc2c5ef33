-- ===== src/Chat/Catalog.antt =====
-- services/chat_support_spans.py: `build_support_spans` and `support_span_catalog`.
use Prim.Native.String.{String, ◌++◌}
use mathlib.Core.Option
use knoarbor.Prelude.{
  ℕ, ◌+◌, Bool, Option, none, some, List, [], ◌∷◌, ◌++◌ as append, if◌then◌else◌, length,
}
use knoarbor.Json.{Json, Fields, boolean, number, get, is_truthy}
use knoarbor.Text.{is_empty, strip, slice}
use knoarbor.Sources.Printing.{decimal, or_value}
use knoarbor.Sources.Blocks.{both}
use knoarbor.Chat.Spans.{
  Range, ChatSupportSpan, citeable_ranges, text_of, optional_text, evidence_segments,
}

-- `is_digit` are the decimal digits of Unicode, `repr` is `str` of a list or a dict, and `int_text` is `int`
-- of a text, `none` where it raises.
module _ (is_digit : ℕ → Bool) (repr : Json → String) (int_text : String → Option ℕ) where
  abbrev pub int_value : Json → Option ℕ
  int_value (number n) = some n
  int_value (boolean b) = some 1
  int_value (Json.text s) = int_text s
  int_value _ = none

  -- `int(value or 0)`.
  abbrev pub int_of : Json → Option ℕ
  int_of v = if is_truthy v then int_value v else some 0

  unfoldable pub span_of : Fields → String → ℕ → ℕ → String → ℕ → Range → ChatSupportSpan
  span_of item evidence_id evidence_index ordinal content segment_start (start, end) = record {
    support_span_id = "sp_" ++ (decimal (evidence_index + 1) ++ ("_" ++ decimal ordinal));
    evidence_id = evidence_id;
    text = slice content start end;
    char_start = segment_start + start;
    char_end = segment_start + end;
    source_unit_id = optional_text repr (get "source_unit_id" item);
    raw_revision_id = optional_text repr (get "raw_revision_id" item);
    source_path = optional_text repr (get "source_path" item);
    title = optional_text repr (get "title" item);
    document_title = optional_text repr (get "document_title" item);
    vault_id = optional_text repr (get "vault_id" item);
    vault_name = optional_text repr (get "vault_name" item);
    vault_path = optional_text repr (get "vault_path" item);
  }

  -- The inner loop; `ordinal` is `len(spans) + 1`.
  unfoldable pub range_spans :
      Fields → String → ℕ → ℕ → String → ℕ → List Range → List ChatSupportSpan
  unfolding span_of
  range_spans item evidence_id evidence_index ordinal content segment_start [] = []
  range_spans item evidence_id evidence_index ordinal content segment_start (r ∷ rs) =
      span_of item evidence_id evidence_index ordinal content segment_start r
      ∷ range_spans item evidence_id evidence_index (ordinal + 1) content segment_start rs

  -- The outer loop.
  unfoldable pub segment_spans : Fields → String → ℕ → ℕ → List (String × ℕ) → List ChatSupportSpan
  unfolding range_spans
  segment_spans item evidence_id evidence_index ordinal [] = []
  segment_spans item evidence_id evidence_index ordinal ((content, segment_start) ∷ segments) =
      let ranges = citeable_ranges is_digit content in
      append (range_spans item evidence_id evidence_index ordinal content segment_start ranges)
        (segment_spans item evidence_id evidence_index (ordinal + length ranges) segments)

  -- The segments of an item, or its whole content.
  abbrev pub segments_of : Fields → Option (List (String × ℕ))
  segments_of item = elim (evidence_segments repr item) [
    | segment ∷ segments ↦ some (segment ∷ segments)
    | [] ↦
        let content = text_of repr (or_value (get "content" item) (get "excerpt" item)) in
        Option.map (λ start. (content, start) ∷ []) (int_of (get "source_unit_char_start" item))
  ]

  -- `build_support_spans`; `none` means that `int` raised.
  unfoldable pub build_support_spans : Fields → ℕ → Option (List ChatSupportSpan)
  unfolding segment_spans
  build_support_spans item evidence_index =
      let evidence_id = strip (text_of repr (get "evidence_id" item)) in
      if is_empty evidence_id
      then some []
      else Option.map (segment_spans item evidence_id evidence_index 1) (segments_of item)

  catalog_from : ℕ → List Fields → Option (List ChatSupportSpan)
  catalog_from evidence_index [] = some []
  catalog_from evidence_index (item ∷ items) =
      both (build_support_spans item evidence_index) (catalog_from (evidence_index + 1) items)

  -- `support_span_catalog`.
  unfoldable pub support_span_catalog : List Fields → Option (List ChatSupportSpan)
  unfolding catalog_from
  support_span_catalog = catalog_from 0
