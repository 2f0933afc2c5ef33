-- ===== src/Sources/Segmenter.antt =====
-- pipelines/source_segmentation.py: `SourceSegmenter.segment`, from the choice of a mode to the
-- segments and their documents.
pub mod Kept
pub mod Sized
use Prim.Native.String.{String, ◌++◌, count}
use mathlib.Core.Option
use knoarbor.Prelude.{
  ℕ, ◌+◌, ◌-◌, Bool, true, false, not, ◌&&◌, ◌||◌, Option, none, some, List, [], ◌∷◌,
  ◌++◌ as append, if◌then◌else◌, ltb, leb, map, any, length,
}
use knoarbor.Json.{Json, boolean, number, text, object, end, field, get, set_field, is_truthy}
use knoarbor.Sources.Document.{SourceDocument, ContentFormat, SourceType, is_chat}
use knoarbor.Sources.Packing.{is_nil}
use knoarbor.Sources.Printing.{decimal, to_text}
use knoarbor.Sources.Blocks.{
  Config, Mode, whole, heading, turns, pages, paragraphs, mode_text, Block, enumerate_from,
  paragraph_blocks, section_blocks,
}
use knoarbor.Sources.Headings.{heading_blocks}
use knoarbor.Sources.Turns.{turn_blocks}
use knoarbor.Sources.Outlines.{
  dedupe, all_warnings, pack_blocks, content_of, segment_title, first_index, last_index,
  SegmentOutline, segment_outlines,
}
use knoarbor.Sources.Fragment.{segment_name, segment_document}

-- `SourceSegment`.
pub record SourceSegment : Type 0 where
  pub segment_id : String
  pub index : ℕ
  pub title : String
  pub content : String
  pub from_index : Option ℕ
  pub to_index : Option ℕ
  pub context_before : String
  pub context_after : String
  pub is_full_source : Bool
  pub document : SourceDocument
  pub warnings : List String

-- `value if values else default`.
abbrev pub or_index : Option ℕ → Option ℕ → Option ℕ
or_index none default = default
or_index (some n) default = some n

-- `_segment_from_blocks`.
unfoldable pub segment_from_blocks :
    SourceDocument → Mode → List SegmentOutline → ℕ → List Block → SourceSegment
unfolding content_of segment_title segment_document dedupe
segment_from_blocks document mode outlines index blocks =
    let content = content_of blocks in
    let title = segment_title blocks index in
    let from = or_index (first_index blocks) document.from_index in
    let to = or_index (last_index blocks) document.to_index in
    record {
      segment_id = segment_name document index;
      index = index;
      title = title;
      content = content;
      from_index = from;
      to_index = to;
      context_before = "";
      context_after = "";
      is_full_source = false;
      document = segment_document document mode blocks content index outlines title from to;
      warnings = dedupe (all_warnings blocks);
    }

-- `SourceSegmentBatch`.
pub record SourceSegmentBatch : Type 0 where
  pub source_id : String
  pub source_file : String
  pub segmentation_mode : Mode
  pub segments : List SourceSegment
  pub warnings : List String

abbrev pub is_whole : Mode → Bool
is_whole whole = true
is_whole _ = false

-- `SourceSegmentBatch.enabled`.
abbrev pub is_enabled : SourceSegmentBatch → Bool
is_enabled batch =
    not (is_whole batch.segmentation_mode)
    || any (λ (s : SourceSegment). not s.is_full_source) batch.segments

abbrev single_metadata : Mode → Json
single_metadata mode = object (
    field "enabled" (boolean false) (
      field "mode" (text (mode_text mode)) (
        field "sibling_context_mode" (text "none") (
          field "segment_index" (number 0)
            (field "segment_count" (number 1) (field "is_full_source" (boolean true) end))))))

abbrev count_warning : Config → ℕ → String
count_warning config found =
    "segment_count_exceeded:"
    ++ (decimal found
        ++ (">"
            ++ (decimal config.max_segments_per_source
                ++ "; all segments were kept to preserve segment size bounds")))

abbrev pub is_markdown : ContentFormat → Bool
is_markdown ContentFormat.markdown = true
is_markdown _ = false

abbrev pub is_document : SourceType → Bool
is_document SourceType.document = true
is_document _ = false

module _ (repr : Json → String) where
  -- `_single`.
  unfoldable pub single : SourceDocument → Mode → List String → SourceSegmentBatch
  single document mode warnings =
      let named = get "title" document.metadata in
      record {
        source_id = document.source_id;
        source_file = document.raw_path;
        segmentation_mode = whole;
        segments =
            record {
              segment_id = segment_name document 0;
              index = 0;
              title = if is_truthy named then to_text repr named else document.source_id;
              content = document.content.text;
              from_index = document.from_index;
              to_index = document.to_index;
              context_before = "";
              context_after = "";
              is_full_source = true;
              document = record document {
                metadata = set_field "segmentation" (single_metadata mode) document.metadata;
              };
              warnings = warnings;
            }
            ∷ [];
        warnings = warnings;
      }

  -- The blocks of a text in Markdown.
  abbrev pub markdown_blocks : Config → String → Option (Mode × List Block)
  markdown_blocks config content = elim (heading_blocks config content) [
    | none ↦ none
    | some (b ∷ c ∷ bs) ↦ some (heading, b ∷ c ∷ bs)
    | some _ ↦ Option.map (λ bs. (paragraphs, bs)) (paragraph_blocks config content)
  ]

  -- `_blocks`.
  unfoldable pub blocks_of : Config → Option Json → SourceDocument → Option (Mode × List Block)
  blocks_of config loaded document =
      let content = document.content in
      if is_chat document.source_type
      then Option.map (λ bs. (turns, bs)) (turn_blocks repr config loaded content.text)
      else if not (is_nil content.sections) && is_document document.source_type
      then Option.map (λ bs. (pages, bs)) (section_blocks repr config content.sections content.text)
      else if is_markdown content.format
      then markdown_blocks config content.text
      else Option.map (λ bs. (paragraphs, bs)) (paragraph_blocks config content.text)

  -- The batch of at least two packed segments, or the whole source.
  unfoldable pub batch_of : Config → SourceDocument → Mode → List Block → SourceSegmentBatch
  unfolding single pack_blocks segment_outlines segment_from_blocks
  batch_of config document mode blocks =
      let (packed, warnings) = pack_blocks config blocks in
      if leb (length packed) 1 then single document mode warnings else record {
        source_id = document.source_id;
        source_file = document.raw_path;
        segmentation_mode = mode;
        segments =
            enumerate_from (segment_from_blocks document mode (segment_outlines packed)) 0 packed;
        warnings =
            if ltb config.max_segments_per_source (length packed)
            then append warnings (count_warning config (length packed) ∷ [])
            else warnings;
      }

  -- `SourceSegmenter.segment`; `loaded` is what `json.loads` gives for the text of the document.
  unfoldable pub segment : Config → Option Json → SourceDocument → Option SourceSegmentBatch
  unfolding single blocks_of batch_of
  segment config loaded document =
      if not config.enabled || leb (count document.content.text) config.max_chars_per_segment
      then some (single document whole [])
      else elim (blocks_of config loaded document) [
        | none ↦ none
        | some (mode, blocks) ↦ some (batch_of config document mode blocks)
      ]
