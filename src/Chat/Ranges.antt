-- ===== src/Chat/Ranges.antt =====
-- services/chat_support_spans.py: the citeable ranges as pieces of a text, and those of a line.
use Prim.Native.String.{String, [], ◌∷◌, ◌++◌, count}
use Prim.Native.String.append
use Prim.Native.String.count
use text.Mathlib.TextLemmas.{append_assoc, append-nil}
use mathlib.Core.Path.{subst}
use knoarbor.Prelude.{
  ℕ, ◌+◌, ◌<◌, ◌≡◌, refl, sym, ap, ◌∙◌, false, List, [], ◌∷◌, ◌++◌ as join_lists, if◌then◌else◌,
  arith, Bool-cases, inl, inr,
}
use knoarbor.Text.{is_empty, lstrip, rstrip, strip, count-append, count-rstrip}
use knoarbor.Text.Edges.{
  lstrip_split, rstrip_split, rstrip-append, append_snoc, is_empty-append_right,
}
use knoarbor.Text.Ink.{ink, ink-append, ink-blank}
use knoarbor.Chat.Spans.{Range, leading, ends_sentence, sentences_from}

-- The first range in a text `s` that stands at `at`: a piece of it behind a blank gap.
pub record Piece (at : ℕ) (s : String) (r : Range) : Type 0 where
  pub gap : String
  pub body : String
  pub rest : String
  pub cut : s ≡ gap ++ (body ++ rest)
  pub blank : ink gap ≡ ""
  pub filled : 0 < count body
  pub start : r.0 ≡ at + count gap
  pub end : r.1 ≡ at + count gap + count body

-- The ranges are pieces of the text one behind the other, and only white space is left out.
abbrev pub Covers : ℕ → String → List Range → Type 0
Covers at s [] = ink s ≡ ""
Covers at s (r ∷ rs) = (p : Piece at s r) × Covers (at + count p.gap + count p.body) p.rest rs

-- White space in front of a covered text only makes the first gap longer.
pub Covers-blank :
    (at : ℕ) (s t : String) (rs : List Range)
    → ink s ≡ ""
    → Covers (at + count s) t rs
    → Covers at (s ++ t) rs
Covers-blank at s t [] blank h = ink-append s t ∙ rw (blank, h) (append.nil "")
Covers-blank at s t (r ∷ rs) blank (p, later) = (
  record {
    gap = s ++ p.gap;
    body = p.body;
    rest = p.rest;
    cut = ap (◌++◌ s) p.cut ∙ sym (append_assoc s p.gap (p.body ++ p.rest));
    blank = ink-append s p.gap ∙ rw (blank, p.blank) (append.nil "");
    filled = p.filled;
    start = omega (arith, p.start, count-append s p.gap);
    end = omega (arith, p.end, count-append s p.gap);
  },
  subst (λ k. Covers k p.rest rs) (omega (arith, count-append s p.gap)) later,
)

-- Covered texts one after the other.
pub Covers-append :
    (at : ℕ) (s t : String) (rs qs : List Range)
    → Covers at s rs
    → Covers (at + count s) t qs
    → Covers at (s ++ t) (join_lists rs qs)
Covers-append at s t [] qs blank later = Covers-blank at s t qs blank later
Covers-append at s t (r ∷ rs) qs (p, here) later = (
  record {
    gap = p.gap;
    body = p.body;
    rest = p.rest ++ t;
    cut =
        ap (λ (x : String). x ++ t) p.cut
        ∙ (append_assoc p.gap (p.body ++ p.rest) t
            ∙ ap (◌++◌ p.gap) (append_assoc p.body p.rest t));
    blank = p.blank;
    filled = p.filled;
    start = p.start;
    end = p.end;
  },
  Covers-append (at + count p.gap + count p.body) p.rest t rs qs here (
      subst (λ k. Covers k t qs)
        (omega (
          arith,
          ap count p.cut,
          count-append p.gap (p.body ++ p.rest),
          count-append p.body p.rest,
        ))
        later),
)

-- A text with one piece.
pub Covers-one :
    (at : ℕ) (s gap body rest : String)
    → s ≡ gap ++ (body ++ rest)
    → ink gap ≡ ""
    → ink rest ≡ ""
    → 0 < count body
    → Covers at s ((at + count gap, at + count gap + count body) ∷ [])
Covers-one at s gap body rest cut blank tail filled = (
  record {
    gap = gap;
    body = body;
    rest = rest;
    cut = cut;
    blank = blank;
    filled = filled;
    start = refl;
    end = refl;
  },
  tail,
)

pub Range-path : {a b c d : ℕ} → a ≡ c → b ≡ d → ◌≡◌ {A = Range} (a, b) (c, d)
Range-path p q = λ i. (p i, q i)

pub count_pos : (s : String) → is_empty s ≡ false → 0 < count s
count_pos [] h = cc
count_pos (c ∷ s) h = omega (arith, count.cons c s)

-- A text that is not blank, in one piece from its first ink on.
piece-Covers :
    (start end : ℕ) (piece : String)
    → is_empty (strip piece) ≡ false
    → end ≡ start + count piece
    → Covers start piece ((start + leading piece, end) ∷ [])
unfolding strip
piece-Covers start end piece inked e =
    let (gap, cut, no_gap) = lstrip_split piece in
    let sum : count piece ≡ count gap + count (lstrip piece) =
      ap count cut ∙ count-append gap (lstrip piece) in
    let filled : 0 < count (lstrip piece) =
      omega (arith, count_pos (strip piece) inked, count-rstrip (lstrip piece)) in
    let whole = cut ∙ ap (◌++◌ gap) (sym (append-nil (lstrip piece))) in
    subst (λ (r : Range). Covers start piece (r ∷ []))
      (Range-path (omega (arith, sum)) (omega (arith, sum, e)))
      (Covers-one start piece gap (lstrip piece) "" whole no_gap (unfold ink in refl) filled)

-- The last piece ends where the line does, but for white space behind it.
last-Covers :
    (line done pending : String) (start : ℕ)
    → line ≡ done ++ pending
    → count done ≡ start
    → is_empty (strip pending) ≡ false
    → Covers start pending ((start + leading pending, count (rstrip line)) ∷ [])
unfolding strip
last-Covers line done pending start is_line is_start inked =
    let (gap, cut, no_gap) = lstrip_split pending in
    let (tail, cut', no_tail) = rstrip_split (lstrip pending) in
    let body = rstrip (lstrip pending) in
    let kept : rstrip pending ≡ gap ++ body =
      ap rstrip cut ∙ rstrip-append gap (lstrip pending) inked in
    let ends : rstrip line ≡ done ++ (gap ++ body) =
      ap rstrip is_line
      ∙ (rstrip-append done pending (rw kept (is_empty-append_right gap body inked))
          ∙ ap (◌++◌ done) kept) in
    let sizes : count (rstrip line) ≡ count done + (count gap + count body) =
      ap count ends
      ∙ (count-append done (gap ++ body) ∙ ap (◌+◌ (count done)) (count-append gap body)) in
    let sum : count pending ≡ count gap + count (lstrip pending) =
      ap count cut ∙ count-append gap (lstrip pending) in
    subst (λ (r : Range). Covers start pending (r ∷ []))
      (Range-path (omega (arith, sum)) (omega (arith, sizes, is_start)))
      (Covers-one start pending gap body tail (cut ∙ ap (◌++◌ gap) cut') no_gap no_tail
        (count_pos body inked))

closed-Covers :
    (start end : ℕ) (piece s : String) (ranges : List Range)
    → end ≡ start + count piece
    → Covers end s ranges
    → Covers start
        (piece ++ s)
        (if is_empty (strip piece) then ranges else (start + leading piece, end) ∷ ranges)
closed-Covers start end piece s ranges e later =
    let behind : Covers (start + count piece) s ranges = subst (λ k. Covers k s ranges) e later in
    elim (Bool-cases (is_empty (strip piece))) [
      | inl blank ↦ rw blank (Covers-blank start piece s ranges (ink-blank piece blank) behind)
      | inr inked ↦ rw inked (
          Covers-append start piece s ((start + leading piece, end) ∷ []) ranges
            (piece-Covers start end piece inked e) behind)
    ]

pub sentences-Covers :
    (line done pending s : String) (start at : ℕ)
    → line ≡ done ++ (pending ++ s)
    → count done ≡ start
    → at ≡ start + count pending
    → Covers start (pending ++ s) (sentences_from line start at pending s)
unfolding sentences_from
sentences-Covers line done pending [] start at is_line is_start is_at =
    elim (Bool-cases (is_empty (strip pending))) [
      | inl blank ↦ rw blank (ap ink (append-nil pending) ∙ ink-blank pending blank)
      | inr inked ↦ rw inked (
          subst (λ x. Covers start x ((start + leading pending, count (rstrip line)) ∷ []))
            (sym (append-nil pending))
            (last-Covers line done pending start (is_line ∙ ap (◌++◌ done) (append-nil pending))
              is_start inked))
    ]
sentences-Covers line done pending (c ∷ s) start at is_line is_start is_at =
    let piece = pending ++ (c ∷ []) in
    let same : piece ++ s ≡ pending ++ (c ∷ s) = append_snoc pending c s in
    let at_end : at + 1 ≡ start + count piece =
      omega (arith, is_at, count-append pending (c ∷ []), count.cons c "", count.nil) in
    let ranges = sentences_from line (at + 1) (at + 1) "" s in
    let later : Covers (at + 1) s ranges =
      subst (λ x. Covers (at + 1) x ranges) (append.nil s)
        (sentences-Covers line (done ++ piece) "" s (at + 1) (at + 1)
          (is_line
            ∙ (ap (◌++◌ done) (sym same)
                ∙ (sym (append_assoc done piece s)
                    ∙ ap (◌++◌ (done ++ piece)) (sym (append.nil s)))))
          (omega (arith, count-append done piece, is_start, at_end)) (omega (arith, count.nil))) in
    elim (Bool-cases (ends_sentence c s)) [
      | inr goes_on ↦ rw goes_on (
          subst (λ x. Covers start x (sentences_from line start (at + 1) piece s)) same
            (sentences-Covers line done piece s start (at + 1) (is_line ∙ ap (◌++◌ done) (sym same))
              is_start at_end))
      | inl stops ↦ rw stops (
          subst
            (λ x.
              Covers start x (
                if is_empty (strip piece)
                then ranges
                else (start + leading piece, at + 1) ∷ ranges))
            same (closed-Covers start (at + 1) piece s ranges at_end later))
    ]
