-- ===== src/Chat/Quoting.antt =====
-- services/chat_support_spans.py: what the support spans of an item quote.
use Prim.Native.String.{String, [], ◌∷◌, ◌++◌, count}
use Prim.Native.String.append
use text.Mathlib.TextLemmas.{append_assoc}
use mathlib.Core.Path.{subst}
use mathlib.Core.List.{map-append}
use knoarbor.Prelude.{
  ℕ, ◌+◌, ◌-◌, ◌<◌, ◌≡◌, refl, sym, ap, ◌∙◌, Bool, false, Option, some, List, [], ◌∷◌,
  ◌++◌ as join_lists, arith, map, Every, Every-append, length,
}
use knoarbor.Json.{Json, Fields, get}
use knoarbor.Text.{is_empty, strip, prefix, slice, count-append}
use knoarbor.Text.Edges.{suffix-append, prefix-append}
use knoarbor.Text.Ink.{ink, all_ink, ink-append}
use knoarbor.Chat.Spans.{Range, ChatSupportSpan, citeable_ranges, text_of}
use knoarbor.Chat.Ranges.{Covers}
use knoarbor.Chat.Lines.{citeable_ranges-Covers}
use knoarbor.Chat.Catalog.{span_of, range_spans, segment_spans, segments_of, build_support_spans}

-- A range that is not empty and is as long as the text that it cuts out of the content.
abbrev IsExact : String → Range → Type 0
IsExact content (start, end) =
    (0 < count (slice content start end)) × (end ≡ start + count (slice content start end))

abbrev cut_out : String → List Range → List String
cut_out content = map (λ (r : Range). slice content r.0 r.1)

slice-middle :
    (front body rest : String) (start end : ℕ)
    → start ≡ count front
    → end ≡ count front + count body
    → slice (front ++ (body ++ rest)) start end ≡ body
slice-middle front body rest start end starts ends =
    let width : end - start ≡ count body = omega arith in
    rw (width, starts)
      (ap (prefix (count body)) (suffix-append front (body ++ rest)) ∙ prefix-append body rest)

Covers-IsExact :
    (before s : String) (rs : List Range)
    → Covers (count before) s rs
    → Every (IsExact (before ++ s)) rs × (all_ink (cut_out (before ++ s) rs) ≡ ink s)
unfolding all_ink
Covers-IsExact before s [] h = (tt, sym h)
Covers-IsExact before s ((start, end) ∷ rs) (p, later) =
    let front = before ++ p.gap in
    let same : before ++ s ≡ front ++ (p.body ++ p.rest) =
      ap (◌++◌ before) p.cut ∙ sym (append_assoc before p.gap (p.body ++ p.rest)) in
    let quoted : slice (before ++ s) start end ≡ p.body =
      ap (λ x. slice x start end) same
      ∙ slice-middle front p.body p.rest start end
          (omega (arith, p.start, count-append before p.gap))
          (omega (arith, p.end, count-append before p.gap)) in
    let behind : (front ++ p.body) ++ p.rest ≡ before ++ s =
      append_assoc front p.body p.rest ∙ sym same in
    let rest = Covers-IsExact (front ++ p.body) p.rest rs (
      subst (λ k. Covers k p.rest rs)
        (omega (arith, count-append front p.body, count-append before p.gap)) later) in
    let inked : ink s ≡ ink p.body ++ ink p.rest =
      ap ink p.cut
      ∙ (ink-append p.gap (p.body ++ p.rest)
          ∙ (rw p.blank (append.nil (ink (p.body ++ p.rest))) ∙ ink-append p.body p.rest)) in
    (
      (
        rw quoted (p.filled, omega (arith, p.start, p.end)),
        subst (λ x. Every (IsExact x) rs) behind rest.0,
      ),
      rw (quoted, inked)
          (ap (◌++◌ (ink p.body)) (ap (λ x. all_ink (cut_out x rs)) (sym behind) ∙ rest.1)),
    )

-- A span quotes some text and is as long as it.
abbrev pub IsQuote : ChatSupportSpan → Type 0
IsQuote s = (0 < count s.text) × (s.char_end ≡ s.char_start + count s.text)

abbrev pub quotes : List ChatSupportSpan → List String
quotes = map (λ (s : ChatSupportSpan). s.text)

unfoldable pub contents : List (String × ℕ) → List String
contents [] = []
contents ((content, start) ∷ segments) = content ∷ contents segments

pub all_ink-append : (xs ys : List String) → all_ink (join_lists xs ys) ≡ all_ink xs ++ all_ink ys
unfolding all_ink
all_ink-append [] ys = sym (append.nil (all_ink ys))
all_ink-append (x ∷ xs) ys =
    ap (◌++◌ (ink x)) (all_ink-append xs ys) ∙ sym (append_assoc (ink x) (all_ink xs) (all_ink ys))

module _ (is_digit : ℕ → Bool) (repr : Json → String) (int_text : String → Option ℕ) where
  ranges-IsExact :
      (content : String)
      → Every (IsExact content) (citeable_ranges is_digit content)
        × (all_ink (cut_out content (citeable_ranges is_digit content)) ≡ ink content)
  ranges-IsExact content =
      let ranges = citeable_ranges is_digit content in
      subst (λ x. Every (IsExact x) ranges × (all_ink (cut_out x ranges) ≡ ink content))
        (append.nil content)
        (Covers-IsExact "" content ranges (citeable_ranges-Covers is_digit content))

  range_spans-IsQuote :
      (item : Fields) (evidence_id : String) (index ordinal : ℕ) (content : String) (start : ℕ)
      (rs : List Range)
      → Every (IsExact content) rs
      → Every IsQuote
          (range_spans is_digit repr int_text item evidence_id index ordinal content start rs)
        × (quotes
              (range_spans is_digit repr int_text item evidence_id index ordinal content start rs)
            ≡ cut_out content rs)
  unfolding range_spans span_of
  range_spans-IsQuote item evidence_id index ordinal content start [] exact = (tt, refl)
  range_spans-IsQuote item evidence_id index ordinal content start ((a, b) ∷ rs) exact =
      let (quote, texts) =
        range_spans-IsQuote item evidence_id index (ordinal + 1) content start rs exact.1 in
      (((exact.0.0, omega (arith, exact.0.1)), quote), ap (◌∷◌ (slice content a b)) texts)

  segment_spans-IsQuote :
      (item : Fields) (evidence_id : String) (index ordinal : ℕ) (segments : List (String × ℕ))
      → Every IsQuote (segment_spans is_digit repr int_text item evidence_id index ordinal segments)
        × (all_ink (
              quotes (segment_spans is_digit repr int_text item evidence_id index ordinal segments))
            ≡ all_ink (contents segments))
  unfolding segment_spans contents all_ink
  segment_spans-IsQuote item evidence_id index ordinal [] = (tt, refl)
  segment_spans-IsQuote item evidence_id index ordinal ((content, start) ∷ segments) =
      let ranges = citeable_ranges is_digit content in
      let (exact, inked) = ranges-IsExact content in
      let here = range_spans-IsQuote item evidence_id index ordinal content start ranges exact in
      let later = segment_spans-IsQuote item evidence_id index (ordinal + length ranges) segments in
      let spans =
        range_spans is_digit repr int_text item evidence_id index ordinal content start ranges in
      let more =
        segment_spans is_digit repr int_text item evidence_id index (ordinal + length ranges)
          segments in
      (
        Every-append IsQuote spans more here.0 later.0,
        ap all_ink (map-append _ spans more)
            ∙ (all_ink-append (quotes spans) (quotes more) ∙ rw (here.1, inked, later.1) refl),
      )

  -- For an item with an identifier, once its segments are read, the spans are built; each quotes some
  -- text and is as long as it, and all of them, one after the other, quote the segments, but for white
  -- space.
  pub build_support_spans-IsQuote :
      (item : Fields) (index : ℕ) (segments : List (String × ℕ))
      → is_empty (strip (text_of repr (get "evidence_id" item))) ≡ false
      → segments_of is_digit repr int_text item ≡ some segments
      → (spans : List ChatSupportSpan) × (build_support_spans is_digit repr int_text item index
          ≡ some spans)
        × Every IsQuote spans
        × (all_ink (quotes spans) ≡ all_ink (contents segments))
  unfolding build_support_spans
  build_support_spans-IsQuote item index segments named found =
      let evidence_id = strip (text_of repr (get "evidence_id" item)) in
      let (quote, inked) = segment_spans-IsQuote item evidence_id index 1 segments in
      (
        segment_spans is_digit repr int_text item evidence_id index 1 segments,
        rw (named, found) refl,
        quote,
        inked,
      )
