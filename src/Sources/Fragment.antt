-- ===== src/Sources/Fragment.antt =====
-- pipelines/source_segmentation.py: the document of a segment, `_segment_document` and `_merged_payload`.
use Prim.Native.String.{String, ◌++◌}
use knoarbor.Prelude.{
  ℕ, zero, suc, ◌+◌, ◌-◌, true, false, Option, none, some, List, [], ◌∷◌, ◌++◌ as append,
  if◌then◌else◌, ltb, map, length, str_eq,
}
use knoarbor.Json.{
  Json, Fields, null, boolean, number, text, array, object, end, field, get, set_field,
}
use knoarbor.Sources.Document.{SourceContent, SourceDocument, ContentFormat}
use knoarbor.Sources.Printing.{decimal, dumps}
use knoarbor.Sources.Blocks.{Mode, mode_text, Block}
use knoarbor.Sources.Turns.{to_items, items_of, session_units}
use knoarbor.Sources.Outlines.{SegmentOutline, range_json, as_metadata}

abbrev pub text_or_null : Option String → Json
text_or_null none = null
text_or_null (some s) = text s

unfoldable pub payloads_of : List Block → List Fields
payloads_of [] = []
payloads_of (b ∷ bs) = elim b.payload [ none ↦ payloads_of bs | some p ↦ p ∷ payloads_of bs ]

-- `value if isinstance(value, list) else []`.
abbrev pub listed : Json → List Json
listed (array vs) = items_of vs
listed _ = []

-- The loop of `_merged_payload`.
unfoldable pub merged_units : String → List Fields → List Json
unfolding items_of
merged_units units_key [] = []
merged_units units_key (p ∷ ps) = append (listed (get units_key p)) (merged_units units_key ps)

-- `_merged_payload`.
unfoldable pub merged_payload : List Block → Option Fields
unfolding payloads_of merged_units session_units
merged_payload blocks = elim (payloads_of blocks) [
  | [] ↦ none
  | base ∷ ps ↦ elim (session_units base) [
    | none ↦ some base
    | some (units_key, units) ↦
        some (set_field units_key (array (to_items (merged_units units_key (base ∷ ps)))) base)
  ]
]

unfoldable pub sections_of : List Block → List Fields
sections_of [] = []
sections_of (b ∷ bs) = append b.sections (sections_of bs)

unfoldable pub without : String → Fields → Fields
without k end = end
without k (field j v fs) = let rest = without k fs in if str_eq j k then rest else field j v rest

abbrev pub title_at : List SegmentOutline → ℕ → Option String
title_at [] index = none
title_at (o ∷ os) zero = some o.title
title_at (o ∷ os) (suc index) = title_at os index

abbrev pub segment_name : SourceDocument → ℕ → String
segment_name document index = document.source_id ++ (":segment:" ++ decimal index)

abbrev guidance : String
guidance =
    "This is partial source evidence with sibling outline context only; do not infer unseen segment content."

-- The entry "segmentation" of the metadata of a segment.
unfoldable pub segment_metadata :
    SourceDocument → Mode → ℕ → List SegmentOutline → String → Option ℕ → Option ℕ → Json
unfolding to_items
segment_metadata document mode index outlines title from to =
    let previous = if ltb 0 index then title_at outlines (index - 1) else none in
    object (
      field "enabled" (boolean true) (
        field "mode" (text (mode_text mode)) (
          field "sibling_context_mode" (text "outline_only") (
            field "segment_id" (text (segment_name document index)) (
              field "segment_index" (number index) (
                field "segment_count" (number (length outlines)) (
                  field "segment_title" (text title) (
                    field "segment_titles"
                      (array (to_items (map (λ (o : SegmentOutline). text o.title) outlines)))
                      (field "segment_outline" (array (to_items (map as_metadata outlines))) (
                        field "previous_segment_title" (text_or_null previous) (
                          field "next_segment_title" (text_or_null (title_at outlines (index + 1)))
                            (field "source_range" (range_json from to) (
                              field "is_full_source" (boolean false)
                                (field "guidance" (text guidance) end))))))))))))))

-- `_segment_document`.
unfoldable pub segment_document :
    SourceDocument
    → Mode
    → List Block
    → String
    → ℕ
    → List SegmentOutline
    → String
    → Option ℕ
    → Option ℕ
    → SourceDocument
unfolding merged_payload sections_of without segment_metadata
segment_document document mode blocks content index outlines title from to =
    let metadata =
      set_field "segmentation" (segment_metadata document mode index outlines title from to)
        (without "source_unitization" document.metadata) in
    let shown : SourceContent = elim (merged_payload blocks) [
      | none ↦ record document.content { text = content; sections = sections_of blocks }
      | some payload ↦ record document.content {
        format = ContentFormat.json;
        text = dumps (some 0) (object payload);
        sections = sections_of blocks;
      }
    ] in
    record document {
      content = shown;
      metadata = metadata;
      content_hash = document.content_hash ++ ("-s" ++ decimal index);
    }
