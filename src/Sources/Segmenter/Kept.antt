-- ===== src/Sources/Segmenter/Kept.antt =====
-- pipelines/source_segmentation.py: what the segments keep of a document that is read as text.
use Prim.Native.String.{String, [], ◌∷◌, ◌++◌, count}
use Prim.Native.String.append
use text.Mathlib.TextLemmas.{append-nil}
use mathlib.Core.Option
use knoarbor.Prelude.{
  ℕ, ◌+◌, ◌≤◌, ◌≡◌, refl, sym, ap, ◌∙◌, false, not, ◌||◌, Option, some, List, [], ◌∷◌,
  ◌++◌ as join_lists, leb, map, arith, Bool-cases, ◌⊎◌, inl, inr, List-cases, length,
}
use knoarbor.Json.{Json}
use knoarbor.Text.{is_empty, join}
use knoarbor.Text.Ink.{ink, all_ink, ink-append, ink-strip}
use knoarbor.Sources.Document.{SourceDocument, is_chat}
use knoarbor.Sources.Packing.{pack, concat, concat-pack}
use knoarbor.Sources.Blocks.{
  Config, IsValid, Mode, whole, heading, paragraphs, Block, plain_block, enumerate_from,
  paragraph_blocks,
}
use knoarbor.Sources.Blocks.Kept.{
  block_ink, block_ink-append, paragraph_blocks-Returns, paragraph_blocks_blank,
}
use knoarbor.Sources.Headings.{heading_blocks, heading_matches, preamble}
use knoarbor.Sources.Headings.Positions.{heading_blocks-Kept}
use knoarbor.Sources.Outlines.{
  block_size, is_full, pack_blocks, content_of, SegmentOutline, segment_outlines,
}
use knoarbor.Sources.Segmenter.{
  SourceSegment, SourceSegmentBatch, segment_from_blocks, single, markdown_blocks, blocks_of,
  batch_of, segment, is_markdown,
}

ink-join : (ws : List String) → ink (join "\n\n" ws) ≡ all_ink ws
unfolding join all_ink ink
ink-join [] = refl
ink-join (w ∷ []) = sym (append-nil (ink w))
ink-join (w ∷ v ∷ vs) =
    let gap : ink ("\n\n" ++ join "\n\n" (v ∷ vs)) ≡ all_ink (v ∷ vs) =
      ink-append "\n\n" (join "\n\n" (v ∷ vs))
      ∙ (append.nil (ink (join "\n\n" (v ∷ vs))) ∙ ink-join (v ∷ vs)) in
    ink-append w ("\n\n" ++ join "\n\n" (v ∷ vs)) ∙ ap (◌++◌ (ink w)) gap

all_ink-texts :
    (blocks : List Block) → all_ink (map (λ (b : Block). b.text) blocks) ≡ block_ink blocks
unfolding all_ink block_ink
all_ink-texts [] = refl
all_ink-texts (b ∷ bs) = ap (◌++◌ (ink b.text)) (all_ink-texts bs)

pub ink-content_of : (blocks : List Block) → ink (content_of blocks) ≡ block_ink blocks
unfolding content_of
ink-content_of blocks =
    ink-strip (join "\n\n" (map (λ (b : Block). b.text) blocks))
    ∙ (ink-join (map (λ (b : Block). b.text) blocks) ∙ all_ink-texts blocks)

-- The ink of the contents of all segments, in order.
unfoldable pub segment_ink : List SourceSegment → String
unfolding ink
segment_ink [] = []
segment_ink (s ∷ ss) = ink s.content ++ segment_ink ss

segments-ink :
    (document : SourceDocument) (mode : Mode) (outlines : List SegmentOutline) (index : ℕ)
    (packed : List (List Block))
    → segment_ink (enumerate_from (segment_from_blocks document mode outlines) index packed)
      ≡ block_ink (concat packed)
unfolding segment_ink enumerate_from segment_from_blocks concat block_ink
segments-ink document mode outlines index [] = refl
segments-ink document mode outlines index (g ∷ gs) =
    rw
      (
        block_ink-append g (concat gs),
        ink-content_of g,
        segments-ink document mode outlines (index + 1) gs,
      )
      refl

module _ (repr : Json → String) (config : Config) where
  batch_of-ink :
      (document : SourceDocument) (mode : Mode) (blocks : List Block)
      → block_ink blocks ≡ ink document.content.text
      → segment_ink (batch_of repr config document mode blocks).segments ≡ ink document.content.text
  unfolding batch_of single segment_ink pack_blocks
  batch_of-ink document mode blocks kept =
      let packed = pack block_size (is_full config) blocks in
      elim (Bool-cases (leb (length packed) 1)) [
        | inl alone ↦ rw alone (append-nil (ink document.content.text))
        | inr several ↦ rw several (
            segments-ink document mode (segment_outlines packed) 0 packed
            ∙ (ap block_ink (concat-pack block_size (is_full config) blocks) ∙ kept))
      ]

  -- A call that returns blocks with all the ink of the text.
  abbrev Keeps : String → Option (Mode × List Block) → Type 0
  Keeps content result =
      (mode : Mode) × (blocks : List Block) × (result ≡ some (mode, blocks))
      × (block_ink blocks ≡ ink content)

  paragraph_blocks-ink :
      (content : String)
      → 2 ≤ config.max_chars_per_segment
      → (blocks : List Block) × (paragraph_blocks config content ≡ some blocks)
        × (block_ink blocks ≡ ink content)
  unfolding block_ink
  paragraph_blocks-ink content h = elim (Bool-cases (is_empty (ink content))) [
    | inl blank ↦ (
      plain_block "Text" content ∷ [],
      paragraph_blocks_blank config content blank,
      append-nil (ink content),
    )
    | inr inked ↦
        let (blocks, e, (kept, _)) = paragraph_blocks-Returns config content h inked in
        (blocks, e, kept)
  ]

  in_paragraphs :
      (content : String)
      → 2 ≤ config.max_chars_per_segment
      → Keeps content (Option.map (λ bs. (paragraphs, bs)) (paragraph_blocks config content))
  in_paragraphs content h =
      let (blocks, e, kept) = paragraph_blocks-ink content h in
      (paragraphs, blocks, rw e refl, kept)

  -- Whatever the number of headed blocks, a text in Markdown is kept.
  markdown_blocks-Keeps :
      (content : String)
      → 2 ≤ config.max_chars_per_segment
      → (found : List Block) → heading_blocks config content ≡ some found
      → (block_ink found ≡ ink content) ⊎ (length found ≤ 1)
      → Keeps content (markdown_blocks repr config content)
  markdown_blocks-Keeps content h [] e kept = rw (e, markdown_blocks) (in_paragraphs content h)
  markdown_blocks-Keeps content h (b ∷ []) e kept =
      rw (e, markdown_blocks) (in_paragraphs content h)
  markdown_blocks-Keeps content h (b ∷ c ∷ bs) e (inl kept) =
      (heading, b ∷ c ∷ bs, rw (e, markdown_blocks) refl, kept)
  markdown_blocks-Keeps content h (b ∷ c ∷ bs) e (inr few) = absurd (omega arith)

  markdown-Keeps :
      (content : String)
      → 2 ≤ config.max_chars_per_segment
      → Keeps content (markdown_blocks repr config content)
  markdown-Keeps content h = elim (List-cases (heading_matches content)) [
    | inl no_heading ↦
        markdown_blocks-Keeps content h (plain_block "Document" content ∷ [])
          (unfold heading_blocks in rw (no_heading, heading_blocks) refl) (inr (omega arith))
    | inr (m, ms, found) ↦
        let (blocks, e, _, kept) = heading_blocks-Kept config content m ms h found in
        markdown_blocks-Keeps content h (join_lists (preamble content m.start) blocks) e (inl kept)
  ]

  blocks_of-Keeps :
      (loaded : Option Json) (document : SourceDocument)
      → 2 ≤ config.max_chars_per_segment
      → is_chat document.source_type ≡ false
      → document.content.sections ≡ []
      → Keeps document.content.text (blocks_of repr config loaded document)
  unfolding blocks_of
  blocks_of-Keeps loaded document h no_chat no_sections =
      elim (Bool-cases (is_markdown document.content.format)) [
        | inl marked ↦ rw (no_chat, no_sections, marked) (markdown-Keeps document.content.text h)
        | inr other ↦ rw (no_chat, no_sections, other) (in_paragraphs document.content.text h)
      ]

  -- The segments of a document that is no chat and has no sections, for a valid configuration: the
  -- segmentation returns, and the contents of the segments, one after the other, are the text of the
  -- document, but for white space.
  pub segment-keeps :
      (loaded : Option Json) (document : SourceDocument)
      → IsValid config
      → is_chat document.source_type ≡ false
      → document.content.sections ≡ []
      → (batch : SourceSegmentBatch) × (segment repr config loaded document ≡ some batch)
        × (segment_ink batch.segments ≡ ink document.content.text)
  unfolding segment single segment_ink
  segment-keeps loaded document valid no_chat no_sections =
      elim (Bool-cases
        (not config.enabled || leb (count document.content.text) config.max_chars_per_segment)) [
          | inl whole_text ↦ (
            single repr document whole [],
            rw whole_text refl,
            append-nil (ink document.content.text),
          )
          | inr long ↦
              let (mode, blocks, e, kept) =
                blocks_of-Keeps loaded document (omega (arith, valid.enough_room)) no_chat
                  no_sections in
              (
                batch_of repr config document mode blocks,
                rw (long, e) refl,
                batch_of-ink document mode blocks kept,
              )
        ]
