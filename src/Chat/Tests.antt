-- ===== src/Chat/Tests.antt =====
-- services/chat_support_spans.py and retrieval/evidence_selection.py: concrete evidence, at which the
-- theorems about it apply.
use Prim.Native.String.{String}
use knoarbor.Prelude.{
  ℕ, ◌≡◌, refl, Bool, ◌&&◌, Option, none, some, List, [], ◌∷◌, leb, map, keep, Every,
}
use knoarbor.Json.{Json, Fields, null, number, text, array, object, nil, cons, end, field, get}
use knoarbor.Text.{strip, lstrip, rstrip, prefix, suffix}
use knoarbor.Text.Ink.{all_ink}
use knoarbor.Sources.Printing.{to_text}
use knoarbor.Chat.Spans.{ChatSupportSpan, citeable_ranges, is_markdown_structural_line, segments_in}
use knoarbor.Chat.Ranges.{Covers}
use knoarbor.Chat.Lines.{citeable_ranges-Covers}
use knoarbor.Chat.Catalog.{segments_of, build_support_spans}
use knoarbor.Chat.Quoting.{IsQuote, quotes, contents, build_support_spans-IsQuote}
use knoarbor.Chat.Evidence.{
  at, below_zero, EvidenceHandle, EvidenceSelectionCandidate, select_structural_evidence,
  explain_structural_evidence,
}
use mathlib.Core.Option
use knoarbor.Table.{lookup}
use knoarbor.Chat.Selecting.{
  is_backed, chosen, reasons_of, last_with, select_structural_evidence-is_backed,
}

abbrev ascii_digit : ℕ → Bool
ascii_digit c = leb b'0' c && leb c b'9'

abbrev no_repr : Json → String
no_repr v = ""

abbrev no_int : String → Option ℕ
no_int s = none

abbrev content : String
content = "  One. Two 2.5!\n\n- item a. b\n 3) x\nlast "

ranges_sample :
    citeable_ranges ascii_digit content ≡ (2, 6) ∷ (7, 15) ∷ (17, 28) ∷ (30, 34) ∷ (35, 39) ∷ []
unfolding citeable_ranges is_markdown_structural_line lstrip rstrip strip prefix suffix
ranges_sample = refl

citeable_ranges-Covers_example : Covers 0 content (citeable_ranges ascii_digit content)
citeable_ranges-Covers_example = citeable_ranges-Covers ascii_digit content

abbrev evidence : Fields
evidence = field "evidence_id" (text " e1 ") (
    field "evidence_segments"
      (array (
        cons
          (object (
            field "text" (text "Yes. No.")
              (field "char_start" (number 10) (field "char_end" (number 18) end))))
          (cons null nil)))
      end)

evidence_read : segments_of ascii_digit no_repr no_int evidence ≡ some (("Yes. No.", 10) ∷ [])
unfolding get segments_in to_text
evidence_read = refl

build_support_spans-IsQuote_example :
    (spans : List ChatSupportSpan) × (build_support_spans ascii_digit no_repr no_int evidence 0
      ≡ some spans)
    × Every IsQuote spans
    × (all_ink (quotes spans) ≡ all_ink (contents (("Yes. No.", 10) ∷ [])))
unfolding get strip to_text
build_support_spans-IsQuote_example =
    build_support_spans-IsQuote ascii_digit no_repr no_int evidence 0 (("Yes. No.", 10) ∷ []) refl
      evidence_read

abbrev handle : EvidenceHandle
handle =
    record { channel = "body"; matched_spans = (at 3, at 3) ∷ (at 2, at 5) ∷ [] }
    ∷ record { channel = "title"; matched_spans = (below_zero, at 5) ∷ [] }
    ∷ []

abbrev candidates : List EvidenceSelectionCandidate
candidates =
    record { key = "a"; handle = handle; query_ids = "q1" ∷ []; handles_by_query = [] }
    ∷ record { key = "b"; handle = []; query_ids = "q1" ∷ []; handles_by_query = [] }
    ∷ record { key = "a"; handle = []; query_ids = "q2" ∷ []; handles_by_query = [] }
    ∷ []

select_structural_evidence-is_backed_example :
    (select_structural_evidence candidates ≡ map chosen (keep is_backed candidates))
    × ((key : String)
        → lookup key (explain_structural_evidence candidates)
          ≡ Option.map reasons_of (last_with key none candidates))
select_structural_evidence-is_backed_example = select_structural_evidence-is_backed candidates
