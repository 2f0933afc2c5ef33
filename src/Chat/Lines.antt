-- ===== src/Chat/Lines.antt =====
-- services/chat_support_spans.py: which parts of a line and of a text the citeable ranges take up.
use Prim.Native.Char.{Char, code}
use Prim.Native.String.{String, [], ◌∷◌, ◌++◌, count}
use Prim.Native.String.append
use Prim.Native.String.count
use text.Mathlib.TextLemmas.{append-nil}
use mathlib.Core.Path.{subst}
use mathlib.Core.List.{append-nil as list-append-nil}
use knoarbor.Prelude.{
  ℕ, ◌+◌, ◌-◌, ◌<◌, ◌≡◌, refl, sym, ap, ◌∙◌, Bool, true, false, ◌||◌, List, [], ◌∷◌, if◌then◌else◌,
  ◌==◌, leb, arith, Bool-cases, inl, inr,
}
use knoarbor.Text.{
  is_space, is_empty, lstrip, rstrip, strip, prefix, suffix, slice, count-append, count-rstrip,
  nil_of_is_empty,
}
use knoarbor.Text.Edges.{
  lstrip_split, rstrip_split, rstrip-append, append_snoc, suffix-append, prefix-append,
}
use knoarbor.Text.Ink.{ink, ink-lstrip, ink-blank, lstrip-is_flush, ink-is_flush}
use knoarbor.Chat.Spans.{
  Range, leading, sentence_ranges, shift, lines_from, line_ranges, all_ranges, citeable_ranges,
  is_markdown_structural_line,
}
use knoarbor.Chat.Ranges.{
  Covers, Covers-one, Covers-append, Covers-blank, sentences-Covers, Range-path, count_pos,
}

shift-Covers :
    (at from : ℕ) (s : String) (rs : List Range)
    → Covers from s rs
    → Covers (at + from) s (shift at rs)
unfolding shift
shift-Covers at from s [] h = h
shift-Covers at from s (r ∷ rs) (p, later) = (
  record {
    gap = p.gap;
    body = p.body;
    rest = p.rest;
    cut = p.cut;
    blank = p.blank;
    filled = p.filled;
    start = omega (arith, p.start);
    end = omega (arith, p.end);
  },
  subst (λ k. Covers k p.rest (shift at rs)) (omega arith)
      (shift-Covers at (from + count p.gap + count p.body) p.rest rs later),
)

sentence_ranges-Covers : (line : String) → Covers 0 line (sentence_ranges line)
unfolding sentence_ranges
sentence_ranges-Covers line =
    subst (λ x. Covers 0 x (sentence_ranges line)) (append.nil line)
      (sentences-Covers line "" "" line 0 0 (sym (append.nil ("" ++ line) ∙ append.nil line))
        count.nil (omega (arith, count.nil)))

-- A blank line has nothing to cite: what is left of it on the right ends where it starts on the left.
blank-le :
    (raw : String) → is_empty (strip raw) ≡ true → leb (count (rstrip raw)) (leading raw) ≡ true
unfolding ink
blank-le raw blank =
    let no_ink : ink (lstrip raw) ≡ "" = ink-lstrip raw ∙ ink-blank raw blank in
    let none_left : lstrip raw ≡ "" =
      nil_of_is_empty (lstrip raw)
        (sym (ink-is_flush (lstrip raw) (lstrip-is_flush raw)) ∙ ap is_empty no_ink) in
    let size : count (lstrip raw) ≡ 0 = ap count none_left ∙ count.nil in
    let short = count-rstrip raw in ground (arith, size, short)

-- Where a line that is not blank lies between its edges.
pub record Edges (raw : String) : Type 0 where
  pub gap : String
  pub tail : String
  pub cut : raw ≡ gap ++ (strip raw ++ tail)
  pub no_gap : ink gap ≡ ""
  pub no_tail : ink tail ≡ ""
  pub left : leading raw ≡ count gap
  pub right : count (rstrip raw) ≡ count gap + count (strip raw)
  pub middle : slice raw (leading raw) (count (rstrip raw)) ≡ strip raw

Edges-of : (raw : String) → is_empty (strip raw) ≡ false → Edges raw
unfolding strip
Edges-of raw inked =
    let (gap, cut, no_gap) = lstrip_split raw in
    let (tail, cut', no_tail) = rstrip_split (lstrip raw) in
    let whole = cut ∙ ap (◌++◌ gap) cut' in
    let kept : rstrip raw ≡ gap ++ strip raw =
      ap rstrip cut ∙ rstrip-append gap (lstrip raw) inked in
    let left : leading raw ≡ count gap =
      omega (arith, ap count cut, count-append gap (lstrip raw)) in
    let right : count (rstrip raw) ≡ count gap + count (strip raw) =
      ap count kept ∙ count-append gap (strip raw) in
    let width : count (rstrip raw) - leading raw ≡ count (strip raw) = omega (arith, left, right) in
    record {
      gap = gap;
      tail = tail;
      cut = whole;
      no_gap = no_gap;
      no_tail = no_tail;
      left = left;
      right = right;
      middle =
          rw (width, left)
            (ap (λ x. prefix (count (strip raw)) x)
                (ap (suffix (count gap)) whole ∙ suffix-append gap (strip raw ++ tail))
              ∙ prefix-append (strip raw) tail);
    }

ink_nil : ink "" ≡ ""
unfolding ink
ink_nil = refl

-- White space behind a covered text is left out.
Covers-tail :
    (at : ℕ) (s t : String) (rs : List Range) → Covers at s rs → ink t ≡ "" → Covers at (s ++ t) rs
Covers-tail at s t rs here blank =
    subst (Covers at (s ++ t)) (list-append-nil rs) (Covers-append at s t rs [] here blank)

Covers-inner :
    (start : ℕ) (raw : String) (rs : List Range)
    → Edges raw
    → Covers (start + leading raw) (strip raw) rs
    → Covers start raw rs
Covers-inner start raw rs e here =
    let behind : Covers (start + count e.gap) (strip raw) rs =
      subst (λ k. Covers k (strip raw) rs) (omega (arith, e.left)) here in
    subst (λ x. Covers start x rs) (sym e.cut)
      (Covers-blank start e.gap (strip raw ++ e.tail) rs e.no_gap
        (Covers-tail (start + count e.gap) (strip raw) e.tail rs behind e.no_tail))

Covers-whole : (at : ℕ) (s : String) → 0 < count s → Covers at s ((at, at + count s) ∷ [])
unfolding ink
Covers-whole at s filled =
    subst (λ (r : Range). Covers at s (r ∷ []))
      (Range-path (omega (arith, count.nil)) (omega (arith, count.nil)))
      (Covers-one at s "" s "" (sym (append.nil (s ++ "") ∙ append-nil s)) refl refl filled)

module _ (is_digit : ℕ → Bool) where
  chosen-Covers :
      (at : ℕ) (line : String) (structural : Bool)
      → 0 < count line
      → Covers at line
          (if structural then (at, at + count line) ∷ [] else shift at (sentence_ranges line))
  chosen-Covers at line true filled = Covers-whole at line filled
  chosen-Covers at line false filled =
      subst (λ k. Covers k line (shift at (sentence_ranges line))) (omega arith)
        (shift-Covers at 0 line (sentence_ranges line) (sentence_ranges-Covers line))

  line_ranges-Covers :
      (start : ℕ) (raw : String) → Covers start raw (line_ranges is_digit start raw)
  unfolding line_ranges
  line_ranges-Covers start raw = elim (Bool-cases (is_empty (strip raw))) [
    | inl blank ↦ rw (blank-le raw blank) (ink-blank raw blank)
    | inr inked ↦
        let e = Edges-of raw inked in
        let size = count_pos (strip raw) inked in
        let apart : leb (count (rstrip raw)) (leading raw) ≡ false =
          ground (arith, e.left, e.right, size) in
        rw (apart, e.middle)
          (Covers-inner start raw _ e (
            chosen-Covers (start + leading raw) (strip raw)
              (is_markdown_structural_line is_digit (strip raw)) size))
  ]

  -- A line break ends a line, and is left out.
  break-Covers :
      (start : ℕ) (line : String) (c : Char) (s : String) (later : List (ℕ × String))
      → is_space (code c) ≡ true
      → Covers (start + count line + 1) s (all_ranges is_digit later)
      → Covers start
          (line ++ (c ∷ s))
          (all_ranges is_digit (if is_empty line then later else (start, line) ∷ later))
  unfolding all_ranges ink
  break-Covers start line c s later space h =
      let ranges = all_ranges is_digit later in
      let next : Covers (start + count line + count (c ∷ "")) s ranges =
        subst (λ k. Covers k s ranges) (omega (arith, count.cons c "", count.nil)) h in
      let behind : Covers (start + count line) (c ∷ s) ranges =
        subst (λ x. Covers (start + count line) x ranges)
          (append.cons c "" s ∙ ap (◌∷◌ c) (append.nil s))
          (Covers-blank (start + count line) (c ∷ "") s ranges (rw space refl) next) in
      elim (Bool-cases (is_empty line)) [
        | inl none_left ↦ rw none_left (
            Covers-blank start line (c ∷ s) ranges (ap ink (nil_of_is_empty line none_left)) behind)
        | inr some_left ↦ rw some_left (
            Covers-append start line (c ∷ s) (line_ranges is_digit start line) ranges
              (line_ranges-Covers start line) behind)
      ]

  -- The lines of a text with the positions at which they stand.
  lines-Covers :
      (start : ℕ) (line s : String)
      → Covers start (line ++ s) (all_ranges is_digit (lines_from start line s))
  unfolding lines_from all_ranges
  lines-Covers start line [] = elim (Bool-cases (is_empty line)) [
    | inl none_left ↦
        rw none_left (ap ink (append-nil line ∙ nil_of_is_empty line none_left) ∙ ink_nil)
    | inr some_left ↦ rw some_left (
        Covers-append start line "" (line_ranges is_digit start line) []
          (line_ranges-Covers start line) ink_nil)
  ]
  lines-Covers start line (c ∷ s) =
      let later = lines_from (start + count line + 1) "" s in
      elim (Bool-cases (code c == 10 || code c == 13)) [
        | inr goes_on ↦ rw goes_on (
            subst
              (λ x. Covers start x (all_ranges is_digit (lines_from start (line ++ (c ∷ [])) s)))
              (append_snoc line c s) (lines-Covers start (line ++ (c ∷ [])) s))
        | inl breaks ↦ rw breaks (
            break-Covers start line c s later (ground (arith, breaks)) (
              subst (λ x. Covers (start + count line + 1) x (all_ranges is_digit later))
                (append.nil s) (lines-Covers (start + count line + 1) "" s)))
      ]

  -- The citeable ranges of a text are not empty, do not overlap, come in order, lie in it, and leave out
  -- nothing but white space.
  pub citeable_ranges-Covers :
      (content : String) → Covers 0 content (citeable_ranges is_digit content)
  unfolding citeable_ranges
  citeable_ranges-Covers content =
      subst (λ x. Covers 0 x (citeable_ranges is_digit content)) (append.nil content)
        (lines-Covers 0 "" content)
