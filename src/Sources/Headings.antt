-- ===== src/Sources/Headings.antt =====
-- pipelines/source_segmentation.py: the Markdown headings, which the code finds by the pattern
-- `(?m)^(#{1,6})\s+(.+?)\s*$`, and `_heading_blocks`.
pub mod Positions
use Prim.Native.Char.{code}
use Prim.Native.String.{String, [], ◌∷◌, count}
use knoarbor.Prelude.{
  ℕ, zero, suc, ◌+◌, ◌-◌, Bool, true, not, ◌&&◌, Option, none, some, List, [], ◌∷◌, if◌then◌else◌,
  ◌==◌, leb, ltb,
}
use knoarbor.Text.{slice, is_space, is_empty, prefix, suffix, strip, rstrip}
use knoarbor.Sources.Blocks.{
  Config, heading, Block, plain_block, both, split_oversized_block, blank_lines,
}

-- A match: where it starts, the number of its signs `#`, and its title, stripped.
pub record HeadingMatch : Type 0 where
  pub start : ℕ
  pub level : ℕ
  pub title : String

-- How many characters in front pass the test.
unfoldable pub run_of : (ℕ → Bool) → String → ℕ
run_of test [] = 0
run_of test (c ∷ s) = let more = run_of test s in if test (code c) then suc more else 0

-- The text up to its first line break.
unfoldable pub line_of : String → String
line_of [] = []
line_of (c ∷ s) = let more = line_of s in if code c == 10 then [] else c ∷ more

-- How much white space `\s*$` takes: all of it at the end of the text, else that before the last line
-- break of the run.
abbrev pub tail_of : String → ℕ
tail_of s =
    let blank = run_of is_space s in
    if is_empty (suffix blank s) then blank else elim (blank_lines s) [ none ↦ 0 | some n ↦ n - 1 ]

-- Behind the signs `#`, of which there are `level`: the title and the length of the match. Where only
-- white space is left, `.+?` takes one character of it that is no line break.
unfoldable pub match_title : ℕ → String → Option (String × ℕ)
unfolding run_of line_of
match_title level s =
    let gap = run_of is_space s in
    let rest = suffix gap s in
    let title = rstrip (line_of rest) in
    let whole = level + gap + count title + tail_of (suffix (count title) rest) in
    if gap == 0
    then none
    else if is_empty rest
    then (if run_of (λ c. c == 10) (suffix 1 s) == gap - 1 then none else some ("", level + gap))
    else some (title, whole)

-- A match at the start of a line: its level, title and length.
unfoldable pub match_at : String → Option (ℕ × String × ℕ)
unfolding match_title run_of
match_at s =
    let level = run_of (λ c. c == b'#') s in
    if leb 1 level && leb level 6
    then elim (match_title level (suffix level s)) [
      | none ↦ none
      | some (title, len) ↦ some (level, title, len)
    ]
    else none

-- `re.finditer`: `skip` are the characters of the last match that are left, `at` the position, and
-- `line_start` tells whether a line starts there.
unfoldable pub find_from : ℕ → ℕ → Bool → String → List HeadingMatch
unfolding match_at
find_from skip at line_start [] = []
find_from (suc skip) at line_start (c ∷ s) = find_from skip (at + 1) (code c == 10) s
find_from zero at line_start (c ∷ s) = elim (if line_start then match_at (c ∷ s) else none) [
  | none ↦ find_from zero (at + 1) (code c == 10) s
  | some (level, title, len) ↦
      record { start = at; level = level; title = title }
      ∷ find_from (len - 1) (at + 1) (code c == 10) s
]

unfoldable pub heading_matches : String → List HeadingMatch
unfolding find_from
heading_matches text = find_from zero 0 true text

-- `matches[index + 1].start() if index + 1 < len(matches) else len(text)`.
abbrev pub end_of : String → List HeadingMatch → ℕ
end_of text [] = count text
end_of text (next ∷ _) = next.start

-- The loop over the matches.
unfoldable pub section_loop : Config → String → List HeadingMatch → Option (List Block)
section_loop config text [] = some []
section_loop config text (m ∷ ms) =
    both
      (split_oversized_block config heading
        (plain_block (strip m.title) (strip (slice text m.start (end_of text ms)))))
      (section_loop config text ms)

-- The text in front of the first heading is kept in one block.
abbrev pub preamble : String → ℕ → List Block
preamble text start =
    let front = strip (prefix start text) in
    if ltb 0 start && not (is_empty front) then plain_block "Preamble" front ∷ [] else []

-- `_heading_blocks`.
unfoldable pub heading_blocks : Config → String → Option (List Block)
unfolding heading_matches section_loop
heading_blocks config text = elim (heading_matches text) [
  | [] ↦ some (plain_block "Document" text ∷ [])
  | m ∷ ms ↦ both (some (preamble text m.start)) (section_loop config text (m ∷ ms))
]
