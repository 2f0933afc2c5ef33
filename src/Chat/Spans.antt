-- ===== src/Chat/Spans.antt =====
-- services/chat_support_spans.py: the spans of evidence that an answer can cite.
use Prim.Native.Char.{Char, code}
use Prim.Native.String.{String, [], ◌∷◌, ◌++◌, count}
use knoarbor.Prelude.{
  ℕ, ◌+◌, ◌-◌, Bool, true, false, not, ◌&&◌, ◌||◌, Option, none, some, List, [], ◌∷◌,
  ◌++◌ as append, if◌then◌else◌, ◌==◌, ltb, leb,
}
use knoarbor.Json.{
  Json, Items, Fields, null, boolean, number, array, object, nil, cons, get, is_truthy,
}
use knoarbor.Text.{is_space, is_empty, lstrip, rstrip, strip, begins, slice, suffix}
use knoarbor.Sources.Headings.{run_of}
use knoarbor.Sources.Printing.{to_text}

abbrev pub Range : Type 0
Range = ℕ × ℕ

-- `[。！？!?]`.
abbrev pub ends_always : ℕ → Bool
ends_always c = c == 12290 || c == 65281 || c == 65311 || c == b'!' || c == b'?'

-- `(?=\s|$)` behind a full stop, in a text with no line break.
abbrev pub starts_blank : String → Bool
starts_blank [] = true
starts_blank (c ∷ s) = is_space (code c)

abbrev pub ends_sentence : Char → String → Bool
ends_sentence c s = ends_always (code c) || (code c == b'.' && starts_blank s)

-- `len(text) - len(text.lstrip())`.
abbrev pub leading : String → ℕ
leading s = count s - count (lstrip s)

-- `_sentence_ranges`: `start` is where the sentence starts and `pending` its text so far, which ends at
-- `at`.
unfoldable pub sentences_from : String → ℕ → ℕ → String → String → List Range
sentences_from line start at pending [] =
    if is_empty (strip pending) then [] else (start + leading pending, count (rstrip line)) ∷ []
sentences_from line start at pending (c ∷ s) =
    let piece = pending ++ (c ∷ []) in
    let later = sentences_from line (at + 1) (at + 1) "" s in
    let longer = sentences_from line start (at + 1) piece s in
    if ends_sentence c s
    then (if is_empty (strip piece) then later else (start + leading piece, at + 1) ∷ later)
    else longer

unfoldable pub sentence_ranges : String → List Range
unfolding sentences_from
sentence_ranges line = sentences_from line 0 0 "" line

-- `range` of a line that starts at `at`.
unfoldable pub shift : ℕ → List Range → List Range
shift at [] = []
shift at ((start, end) ∷ rs) = (at + start, at + end) ∷ shift at rs

-- The maximal runs of characters that are no line break, `[^\r\n]+`, with their positions; `line` is
-- the run that the scan is in.
unfoldable pub lines_from : ℕ → String → String → List (ℕ × String)
lines_from start line [] = if is_empty line then [] else (start, line) ∷ []
lines_from start line (c ∷ s) =
    let broken = lines_from (start + count line + 1) "" s in
    let longer = lines_from start (line ++ (c ∷ [])) s in
    if code c == 10 || code c == 13
    then (if is_empty line then broken else (start, line) ∷ broken)
    else longer

-- `is_digit` are the decimal digits of Unicode.
module _ (is_digit : ℕ → Bool) where
  abbrev pub after_digits : String → String
  after_digits [] = []
  after_digits (c ∷ s) = let rest = after_digits s in if is_digit (code c) then rest else c ∷ s

  abbrev starts_digit : String → Bool
  starts_digit [] = false
  starts_digit (c ∷ s) = is_digit (code c)

  abbrev head_is : (ℕ → Bool) → String → Bool
  head_is test [] = false
  head_is test (c ∷ s) = test (code c)

  -- `_is_markdown_structural_line`.
  unfoldable pub is_markdown_structural_line : String → Bool
  unfolding run_of suffix begins
  is_markdown_structural_line line =
      let level = run_of (λ c. c == b'#') line in
      (leb 1 level && leb level 6 && head_is is_space (suffix level line))
      || (head_is (λ c. c == b'-' || c == b'*' || c == b'+' || c == b'>') line
          && head_is is_space (suffix 1 line))
      || (starts_digit line
          && head_is (λ c. c == b'.' || c == b')') (after_digits line)
          && head_is is_space (suffix 1 (after_digits line)))
      || begins line "```"
      || begins line "|"

  -- The body of the loop of `_citeable_ranges`; the text of the line is cut from the run itself.
  unfoldable pub line_ranges : ℕ → String → List Range
  unfolding shift sentence_ranges
  line_ranges start raw_line =
      let left = leading raw_line in
      let right = count (rstrip raw_line) in
      let line_start = start + left in
      let line_text = slice raw_line left right in
      if leb right left
      then []
      else if is_markdown_structural_line line_text
      then (line_start, line_start + count line_text) ∷ []
      else shift line_start (sentence_ranges line_text)

  unfoldable pub all_ranges : List (ℕ × String) → List Range
  unfolding line_ranges
  all_ranges [] = []
  all_ranges ((start, line) ∷ lines) = append (line_ranges start line) (all_ranges lines)

  -- `_citeable_ranges`.
  unfoldable pub citeable_ranges : String → List Range
  unfolding all_ranges lines_from
  citeable_ranges content = all_ranges (lines_from 0 "" content)

pub record ChatSupportSpan : Type 0 where
  pub support_span_id : String
  pub evidence_id : String
  pub text : String
  pub char_start : ℕ
  pub char_end : ℕ
  pub source_unit_id : Option String
  pub raw_revision_id : Option String
  pub source_path : Option String
  pub title : Option String
  pub document_title : Option String
  pub vault_id : Option String
  pub vault_name : Option String
  pub vault_path : Option String

-- `value` where `isinstance(value, int)`; Python's `True` is the integer 1.
abbrev pub as_int : Json → Option ℕ
as_int (number n) = some n
as_int (boolean b) = some (if b then 1 else 0)
as_int _ = none

module _ (repr : Json → String) where
  -- `str(first or second or "")`.
  abbrev pub text_of : Json → String
  text_of v = if is_truthy v then to_text repr v else ""

  -- `_optional_text`.
  abbrev pub optional_text : Json → Option String
  optional_text null = none
  optional_text v =
      let shown = strip (to_text repr v) in if is_empty shown then none else some shown

  -- The test of `_evidence_segments` on an item that is a dict.
  abbrev pub segment_of : Fields → Option (String × ℕ)
  segment_of segment =
      let content = text_of (get "text" segment) in
      elim (as_int (get "char_start" segment)) [
        | none ↦ none
        | some start ↦ elim (as_int (get "char_end" segment)) [
          | none ↦ none
          | some end ↦
              if not (is_empty content) && ltb start end && count content == end - start
              then some (content, start)
              else none
        ]
      ]

  abbrev pub segment_item : Json → Option (String × ℕ)
  segment_item (object segment) = segment_of segment
  segment_item _ = none

  unfoldable pub segments_in : Items → List (String × ℕ)
  segments_in nil = []
  segments_in (cons v vs) = elim (segment_item v) [
    | none ↦ segments_in vs
    | some segment ↦ segment ∷ segments_in vs
  ]

  -- `_evidence_segments`.
  abbrev pub evidence_segments : Fields → List (String × ℕ)
  evidence_segments item = elim (get "evidence_segments" item) [
    | array vs ↦ segments_in vs
    | _ ↦ []
  ]
