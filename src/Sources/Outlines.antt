-- ===== src/Sources/Outlines.antt =====
-- pipelines/source_segmentation.py: how blocks are packed in segments, and the outline of a segment.
use Prim.Native.String.{String, ◌++◌, count}
use knoarbor.Prelude.{
  ℕ, ◌+◌, Bool, not, ◌&&◌, ◌||◌, Option, none, some, List, [], ◌∷◌, ◌++◌ as append, if◌then◌else◌,
  ltb, leb, map, any, str_eq,
}
use knoarbor.Json.{Json, null, number, text, object, end, field}
use knoarbor.Text.{is_empty, strip, join}
use knoarbor.Sources.Packing.{pack}
use knoarbor.Sources.Printing.{decimal}
use knoarbor.Sources.Blocks.{Config, Block, enumerate_from}
use knoarbor.Sources.Turns.{min_of, max_of}

-- `_dedupe`; `seen` holds the values that the loop has met.
unfoldable pub dedupe_from : List String → List String → List String
dedupe_from seen [] = []
dedupe_from seen (v ∷ vs) =
    let skipped = dedupe_from seen vs in
    let taken = v ∷ dedupe_from (v ∷ seen) vs in
    if not (is_empty v) && not (any (str_eq v) seen) then taken else skipped

unfoldable pub dedupe : List String → List String
unfolding dedupe_from
dedupe = dedupe_from []

abbrev pub block_size : Block → ℕ
block_size block = count block.text

-- `should_flush` of `_pack_blocks`, for a current segment that is not empty.
abbrev pub is_full : Config → ℕ → Block → Bool
is_full config current_len block =
    ltb config.max_chars_per_segment (current_len + block_size block)
    || (leb config.min_segment_chars current_len
        && ltb config.soft_chars_per_segment (current_len + block_size block))

unfoldable pub all_warnings : List Block → List String
all_warnings [] = []
all_warnings (b ∷ bs) = append b.warnings (all_warnings bs)

-- `_pack_blocks`.
unfoldable pub pack_blocks : Config → List Block → List (List Block) × List String
unfolding dedupe all_warnings
pack_blocks config blocks = (pack block_size (is_full config) blocks, dedupe (all_warnings blocks))

-- `"\n\n".join(block.text for block in blocks).strip()`.
unfoldable pub content_of : List Block → String
content_of blocks = strip (join "\n\n" (map (λ (b : Block). b.text) blocks))

last_title : Block → List Block → String
last_title b [] = b.title
last_title b (c ∷ cs) = last_title c cs

-- `_segment_title`.
unfoldable pub segment_title : List Block → ℕ → String
unfolding last_title
segment_title [] index = "Segment " ++ decimal (index + 1)
segment_title (b ∷ []) index = b.title
segment_title (b ∷ c ∷ cs) index = b.title ++ (" - " ++ last_title c cs)

unfoldable pub known : List (Option ℕ) → List ℕ
known [] = []
known (none ∷ ns) = known ns
known (some n ∷ ns) = n ∷ known ns

abbrev pub first_index : List Block → Option ℕ
first_index blocks = min_of (known (map (λ (b : Block). b.from_index) blocks))

abbrev pub last_index : List Block → Option ℕ
last_index blocks = max_of (known (map (λ (b : Block). b.to_index) blocks))

-- `_SegmentOutline`.
pub record SegmentOutline : Type 0 where
  pub index : ℕ
  pub title : String
  pub chars : ℕ
  pub from_index : Option ℕ
  pub to_index : Option ℕ

abbrev pub outline : ℕ → List Block → SegmentOutline
outline index blocks = record {
  index = index;
  title = segment_title blocks index;
  chars = count (content_of blocks);
  from_index = first_index blocks;
  to_index = last_index blocks;
}

-- `_segment_outlines`.
unfoldable pub segment_outlines : List (List Block) → List SegmentOutline
unfolding enumerate_from
segment_outlines = enumerate_from outline 0

abbrev pub index_json : Option ℕ → Json
index_json none = null
index_json (some n) = number n

abbrev pub range_json : Option ℕ → Option ℕ → Json
range_json from to =
    object (field "from_index" (index_json from) (field "to_index" (index_json to) end))

-- `_SegmentOutline.as_metadata`.
abbrev pub as_metadata : SegmentOutline → Json
as_metadata o = object (
    field "index" (number o.index) (
      field "title" (text o.title) (
        field "chars" (number o.chars)
          (field "source_range" (range_json o.from_index o.to_index) end))))
