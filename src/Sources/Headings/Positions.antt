-- ===== src/Sources/Headings/Positions.antt =====
-- pipelines/source_segmentation.py: the characters and the sizes of the blocks of `_heading_blocks`.
use Prim.Native.Char.{Char, code}
use Prim.Native.String.{String, [], ◌∷◌, ◌++◌, count}
use Prim.Native.String.count
use text.Mathlib.TextLemmas.{append-nil}
use mathlib.Core.Path.{subst}
use knoarbor.Prelude.{
  ℕ, zero, suc, ◌+◌, ◌-◌, ◌≤◌, ◌≡◌, refl, sym, ap, ◌∙◌, Bool, true, none, some, List, [], ◌∷◌,
  ◌++◌ as join_lists, if◌then◌else◌, ◌==◌, ltb, arith, Bool-cases, Option-cases, inl, inr,
}
use knoarbor.Text.{is_empty, prefix, suffix, strip, prefix-suffix, slice, slice-suffix, suffix_all}
use knoarbor.Text.Ink.{ink, ink-append, ink-strip, ink-blank}
use knoarbor.Sources.Blocks.{Config, heading, Block, plain_block, split_oversized_block}
use knoarbor.Sources.Blocks.Kept.{
  block_ink, block_ink-append, split_oversized_block-Returns, both-Returns, Returns, AreBlocks,
}
use knoarbor.Sources.Headings.{
  HeadingMatch, match_at, find_from, heading_matches, end_of, section_loop, preamble,
  heading_blocks,
}

-- The matches start one after the other, none before `from` and none behind `to`.
abbrev pub Ascends : ℕ → ℕ → List HeadingMatch → Type 0
Ascends from to [] = from ≤ to
Ascends from to (m ∷ ms) = (from ≤ m.start) × Ascends m.start to ms

Ascends-weaken : (a b to : ℕ) (ms : List HeadingMatch) → a ≤ b → Ascends b to ms → Ascends a to ms
Ascends-weaken a b to [] h k = omega arith
Ascends-weaken a b to (m ∷ ms) h k = (omega (arith, k.0), k.1)

behind :
    (at from : ℕ) (c : Char) (s : String) (ms : List HeadingMatch)
    → from ≤ at + 1
    → Ascends (at + 1) (at + 1 + count s) ms
    → Ascends from (at + count (c ∷ s)) ms
behind at from c s ms h k =
    let same : at + 1 + count s ≡ at + count (c ∷ s) = omega (arith, count.cons c s) in
    subst (λ to. Ascends from to ms) same (Ascends-weaken from (at + 1) _ ms h k)

find_from-Ascends :
    (skip at : ℕ) (line_start : Bool) (s : String)
    → Ascends at (at + count s) (find_from skip at line_start s)
unfolding find_from
find_from-Ascends zero at line_start [] = omega (arith, count.nil)
find_from-Ascends (suc skip) at line_start [] = omega (arith, count.nil)
find_from-Ascends (suc skip) at line_start (c ∷ s) =
    behind at at c s _ (omega arith) (find_from-Ascends skip (at + 1) (code c == 10) s)
find_from-Ascends zero at line_start (c ∷ s) =
    elim (Option-cases (if line_start then match_at (c ∷ s) else none)) [
      | inl other ↦
          rw (other, find_from)
            (behind at at c s _ (omega arith) (find_from-Ascends zero (at + 1) (code c == 10) s))
      | inr ((level, title, len), found) ↦
          rw (found, find_from)
            (
              omega arith,
              behind at at c s _ (omega arith)
                  (find_from-Ascends (len - 1) (at + 1) (code c == 10) s),
            )
    ]

end_of-le :
    (text : String) (from : ℕ) (ms : List HeadingMatch)
    → Ascends from (count text) ms
    → from ≤ end_of text ms
end_of-le text from [] order = order
end_of-le text from (m ∷ ms) order = order.0

section-Returns :
    (config : Config) (text : String) (m : HeadingMatch) (ms : List HeadingMatch)
    → 2 ≤ config.max_chars_per_segment
    → Ascends m.start (count text) ms
    → Returns config (ink (suffix (end_of text ms) text)) (section_loop config text ms)
    → Returns config (ink (suffix m.start text)) (section_loop config text (m ∷ ms))
unfolding section_loop
section-Returns config text m ms h order rest =
    let body = slice text m.start (end_of text ms) in
    let block = plain_block (strip m.title) (strip body) in
    let cut = slice-suffix text m.start (end_of text ms) (end_of-le text m.start ms order) in
    let kept : ink (strip body) ++ ink (suffix (end_of text ms) text) ≡ ink (suffix m.start text) =
      rw (ink-strip body) (sym (ink-append body (suffix (end_of text ms) text)) ∙ ap ink cut) in
    subst (λ k. Returns config k (section_loop config text (m ∷ ms))) kept
      (both-Returns config _ _ (split_oversized_block config heading block)
        (section_loop config text ms) (split_oversized_block-Returns config heading block h) rest)

-- The loop over the matches keeps all from the first one on.
section_loop-Returns :
    (config : Config) (text : String) (m : HeadingMatch) (ms : List HeadingMatch)
    → 2 ≤ config.max_chars_per_segment
    → Ascends m.start (count text) ms
    → Returns config (ink (suffix m.start text)) (section_loop config text (m ∷ ms))
unfolding block_ink ink
section_loop-Returns config text m [] h order =
    let none_left : Returns config (ink (suffix (count text) text)) (section_loop config text []) =
      ([], (unfold section_loop in refl), (ap ink (sym (suffix_all text)), tt)) in
    section-Returns config text m [] h order none_left
section_loop-Returns config text m (n ∷ ns) h order =
    section-Returns config text m (n ∷ ns) h order (section_loop-Returns config text n ns h order.1)

preamble-ink :
    (text : String) (start : ℕ) → block_ink (preamble text start) ≡ ink (prefix start text)
unfolding block_ink ink
preamble-ink text zero = unfold prefix in refl
preamble-ink text (suc n) =
    let starts : ltb 0 (suc n) ≡ true = ground arith in
    elim (Bool-cases (is_empty (strip (prefix (suc n) text)))) [
      | inl blank ↦ rw (starts, blank) (sym (ink-blank (prefix (suc n) text) blank))
      | inr front ↦
          rw (starts, front)
            (append-nil (ink (strip (prefix (suc n) text))) ∙ ink-strip (prefix (suc n) text))
    ]

heading_matches-Ascends : (text : String) → Ascends 0 (count text) (heading_matches text)
unfolding heading_matches
heading_matches-Ascends text =
    subst (λ to. Ascends 0 to (find_from zero 0 true text)) (omega arith)
      (find_from-Ascends zero 0 true text)

-- A Markdown text with a heading is cut at its headings; the blocks behind the first heading are not
-- too long, and with what stands before it, which is kept whole, they keep all of the text but white
-- space.
pub heading_blocks-Kept :
    (config : Config) (text : String) (m : HeadingMatch) (ms : List HeadingMatch)
    → 2 ≤ config.max_chars_per_segment
    → heading_matches text ≡ m ∷ ms
    → (blocks : List Block) × (heading_blocks config text
        ≡ some (join_lists (preamble text m.start) blocks))
      × AreBlocks config (ink (suffix m.start text)) blocks
      × (block_ink (join_lists (preamble text m.start) blocks) ≡ ink text)
unfolding heading_blocks
heading_blocks-Kept config text m ms h found =
    let order : Ascends 0 (count text) (m ∷ ms) = rw found at (heading_matches-Ascends text) in
    let (blocks, e, kept) = section_loop-Returns config text m ms h order.1 in
    (
      blocks,
      rw (found, heading_blocks) (rw e refl),
      kept,
      block_ink-append (preamble text m.start) blocks
          ∙ (rw (preamble-ink text m.start, kept.0)
              (sym (ink-append (prefix m.start text) (suffix m.start text))
                ∙ ap ink (prefix-suffix m.start text))),
    )
