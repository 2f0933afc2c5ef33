-- ===== src/Sources/Tests.antt =====
-- pipelines/source_segmentation.py: concrete documents, at which the theorems about the segments apply.
use Prim.Native.String.{String, ◌++◌}
use knoarbor.Prelude.{ℕ, zero, suc, ◌≡◌, refl, true, none, some, List, [], ◌∷◌, arith}
use knoarbor.Json.{Json, Fields, number, text, array, object, nil, cons, end, field, get}
use knoarbor.Text.{strip, lstrip, rstrip, prefix, suffix, rfind}
use knoarbor.Text.Ink.{ink}
use knoarbor.Sources.Document.{SourceDocument, SourceType, ContentFormat}
use knoarbor.Sources.HardSplit.{hard_split_text, IsSplit, hard_split_text-IsSplit}
use knoarbor.Sources.Printing.{dumps}
use knoarbor.Sources.Blocks.{Config, IsValid, Block, plain_block, paragraphs_of, blank_lines}
use knoarbor.Sources.Headings.{heading_matches, run_of}
use knoarbor.Sources.Turns.{session_units, turn_blocks, to_items}
use knoarbor.Sources.Turns.Grouped.{Holds, turn_blocks-units}
use knoarbor.Sources.Outlines.{pack_blocks}
use knoarbor.Sources.Segmenter.{SourceSegmentBatch, segment}
use knoarbor.Sources.Segmenter.Kept.{segment_ink, segment-keeps}
use knoarbor.Sources.Segmenter.Sized.{IsPacking, pack_blocks-IsPacking}

-- `str` of a list or a dict, which the samples do not need.
abbrev no_repr : Json → String
no_repr v = ""

split_sample :
    hard_split_text " first part\n\nsecond line\nthird " 14
    ≡ some ("first part" ∷ "second line" ∷ "third" ∷ [])
unfolding hard_split_text strip lstrip rstrip prefix suffix rfind
split_sample = refl

hard_split_text-IsSplit_example :
    (parts : List String) × (hard_split_text " first part\n\nsecond line\nthird " 14 ≡ some parts)
    × IsSplit 14 " first part\n\nsecond line\nthird " parts
hard_split_text-IsSplit_example =
    hard_split_text-IsSplit " first part\n\nsecond line\nthird " 14 (omega arith)

paragraphs_sample : paragraphs_of "one \n  \n\n two\nthree\n\n" ≡ "one" ∷ "two\nthree" ∷ []
unfolding paragraphs_of strip lstrip rstrip
paragraphs_sample = refl

headings_sample :
    heading_matches "intro\n# One \nbody\n####### no\n##\n\n# Two\n"
    ≡ record { start = 6; level = 1; title = "One" }
      ∷ record { start = 29; level = 2; title = "# Two" }
      ∷ []
unfolding heading_matches run_of suffix rstrip blank_lines
headings_sample = refl

dumps_sample :
    dumps (some 0) (
      array (
        cons (object (field "a" (number 10) (field "b" (array nil) end))) (cons (text "x\ty") nil)))
    ≡ "[\n  {\n    \"a\": 10,\n    \"b\": []\n  },\n  \"x\\ty\"\n]"
unfolding dumps
dumps_sample = refl

abbrev config : Config
config = record {
  enabled = true;
  max_chars_per_segment = 2000;
  soft_chars_per_segment = 1500;
  max_segments_per_source = 20;
  min_segment_chars = 100;
}

config-IsValid : IsValid config
config-IsValid = record {
  enough_room = omega arith;
  soft_room = omega arith;
  soft_within = omega arith;
  min_within = omega arith;
}

abbrev two_blocks : List Block
two_blocks = plain_block "paragraph 1" "first" ∷ plain_block "paragraph 2" "second" ∷ []

pack_blocks-IsPacking_example : IsPacking config two_blocks (pack_blocks config two_blocks).0
pack_blocks-IsPacking_example = pack_blocks-IsPacking config two_blocks (omega arith)

repeat : ℕ → String → String
repeat zero s = ""
repeat (suc n) s = s ++ repeat n s

abbrev notes : SourceDocument
notes = record {
  source_id = "notes";
  source_type = SourceType.document;
  raw_path = "raw/notes.md";
  original_path = none;
  content = record {
    format = ContentFormat.markdown;
    text = repeat 300 "# Head\n\nSome words to read.\n\n";
    sections = [];
    attachments = [];
  };
  metadata = end;
  content_hash = "hash";
  connector_version = "1";
  parser_version = none;
  from_index = none;
  to_index = none;
}

segment-keeps_example :
    (batch : SourceSegmentBatch) × (segment no_repr config none notes ≡ some batch)
    × (segment_ink batch.segments ≡ ink notes.content.text)
segment-keeps_example = segment-keeps no_repr config none notes config-IsValid refl refl

abbrev asked : Json
asked = object (field "role" (text "user") (field "content" (text "What is it?") end))

abbrev answered : Json
answered = object (field "role" (text "assistant") (field "content" (text "A test.") end))

abbrev chat : Fields
chat = field "messages" (array (cons asked (cons answered (cons asked nil)))) end

chat_units : session_units chat ≡ some ("messages", asked ∷ answered ∷ asked ∷ [])
unfolding session_units get
chat_units = refl

turn_blocks-units_example :
    Holds config "messages"
      (asked ∷ answered ∷ asked ∷ [])
      (turn_blocks no_repr config (some (object chat)) "")
unfolding dumps to_items
turn_blocks-units_example =
    turn_blocks-units config no_repr chat "" "messages" asked (answered ∷ asked ∷ []) chat_units
      (refl, (refl, (refl, tt)))
