-- ===== src/Sources/HardSplit.antt =====
-- pipelines/source_segmentation.py: `_hard_split_text`, which cuts a text that is too long.
use Prim.Native.String.{String, [], ◌∷◌, count}
use Prim.Native.String.count
use text.Mathlib.TextLemmas.{append-nil}
use knoarbor.Prelude.{
  ltb→lt, ℕ, zero, suc, ◌+◌, ◌/◌, ◌≤◌, ◌<◌, ◌≡◌, refl, ◌∙◌, Bool, true, Option, none, some, List,
  [], ◌∷◌, if◌then◌else◌, arith, Bool-cases, inl, inr, ltb, Every,
}
use mathlib.Core.Option
use knoarbor.Text.{
  is_empty, prefix, suffix, strip, rfind, rfind-le, count-prefix, count-suffix, count-strip,
}
use knoarbor.Text.Ink.{
  ink, all_ink, ink-strip, ink-cut, is_flush, strip-is_flush, count-strip-prefix,
}

-- `rfind(...) < n`, where a failed search gives -1.
abbrev pub before : Option ℕ → ℕ → Bool
before none n = true
before (some i) n = ltb i n

abbrev pub or_at : Option ℕ → ℕ → ℕ
or_at none n = n
or_at (some i) n = i

-- The place of a cut: the last blank line in the second half of the range, else its last line break
-- there, else its end.
unfoldable pub split_at : String → ℕ → ℕ
split_at remaining max_chars =
    let blank_line = rfind "\n\n" remaining max_chars in
    let found =
      if before blank_line (max_chars / 2) then rfind "\n" remaining max_chars else blank_line in
    if before found (max_chars / 2) then max_chars else or_at found max_chars

-- The loop; `none` means that the fuel ran out.
unfoldable pub split_loop : ℕ → ℕ → String → Option (List String)
unfolding split_at
split_loop zero max_chars remaining = none
split_loop (suc fuel) max_chars remaining =
    let at = split_at remaining max_chars in
    let rest =
      Option.map (◌∷◌ (strip (prefix at remaining)))
        (split_loop fuel max_chars (strip (suffix at remaining))) in
    if ltb max_chars (count remaining)
    then rest
    else some (if is_empty remaining then [] else remaining ∷ [])

unfoldable pub hard_split_text : String → ℕ → Option (List String)
unfolding split_loop
hard_split_text text max_chars =
    let remaining = strip text in split_loop (count remaining + 1) max_chars remaining

taken-bounds :
    (found : Option ℕ) (max_chars : ℕ)
    → 2 ≤ max_chars
    → ((i : ℕ) → found ≡ some i → i ≤ max_chars)
    → (0 < (if before found (max_chars / 2) then max_chars else or_at found max_chars))
      × ((if before found (max_chars / 2) then max_chars else or_at found max_chars) ≤ max_chars)
taken-bounds none max_chars h within = omega arith
taken-bounds (some i) max_chars h within = ground (arith, within i refl)

line_break-le :
    (remaining : String) (max_chars i : ℕ) → rfind "\n" remaining max_chars ≡ some i → i ≤ max_chars
line_break-le remaining max_chars i e =
    omega (arith, rfind-le "\n" remaining max_chars i (omega arith) e)

blank_line-le :
    (remaining : String) (max_chars i : ℕ)
    → rfind "\n\n" remaining max_chars ≡ some i
    → i ≤ max_chars
blank_line-le remaining max_chars i e =
    omega (arith, rfind-le "\n\n" remaining max_chars i (omega arith) e)

-- A cut makes progress and stays in the range.
split_at_bounds :
    (remaining : String) (max_chars : ℕ)
    → 2 ≤ max_chars
    → (0 < split_at remaining max_chars) × (split_at remaining max_chars ≤ max_chars)
unfolding split_at
split_at_bounds remaining max_chars h =
    let blank_line = rfind "\n\n" remaining max_chars in
    elim (Bool-cases (before blank_line (max_chars / 2))) [
      | inl early ↦ rw early (taken-bounds _ max_chars h (line_break-le remaining max_chars))
      | inr late ↦ rw late (taken-bounds _ max_chars h (blank_line-le remaining max_chars))
    ]

-- The parts are not empty and not too long, and keep all of the text but white space.
abbrev pub IsSplit : ℕ → String → List String → Type 0
IsSplit max_chars text parts =
    Every (λ part. (0 < count part) × (count part ≤ max_chars)) parts × (all_ink parts ≡ ink text)

IsSplit-end :
    (remaining : String) (max_chars : ℕ)
    → count remaining ≤ max_chars
    → (parts : List String) × (some (if is_empty remaining then [] else remaining ∷ [])
        ≡ some parts)
      × IsSplit max_chars remaining parts
unfolding all_ink
IsSplit-end [] max_chars short = ([], refl, (tt, refl))
IsSplit-end (c ∷ s) max_chars short =
    ((c ∷ s) ∷ [], refl, (((omega (arith, count.cons c s), short), tt), append-nil (ink (c ∷ s))))

split_loop-IsSplit :
    (fuel max_chars : ℕ) (remaining : String)
    → 2 ≤ max_chars
    → is_flush remaining ≡ true
    → count remaining < fuel
    → (parts : List String) × (split_loop fuel max_chars remaining ≡ some parts)
      × IsSplit max_chars remaining parts
unfolding split_loop all_ink
split_loop-IsSplit zero max_chars remaining h flush enough = absurd (omega arith)
split_loop-IsSplit (suc fuel) max_chars remaining h flush enough =
    elim (Bool-cases (ltb max_chars (count remaining))) [
      | inl long ↦
          let at = split_at remaining max_chars in
          let bounds = split_at_bounds remaining max_chars h in
          let longer = ltb→lt max_chars (count remaining) long in
          let (parts, e, (sized, kept)) =
            split_loop-IsSplit fuel max_chars (strip (suffix at remaining)) h
              (strip-is_flush (suffix at remaining))
              (omega (
                arith,
                count-strip (suffix at remaining),
                count-suffix at remaining (omega arith),
              )) in
          (
            strip (prefix at remaining) ∷ parts,
            rw (long, e) refl,
            (
              (
                (
                  count-strip-prefix at remaining bounds.0 flush (omega arith),
                  omega (arith, count-strip (prefix at remaining), count-prefix at remaining),
                ),
                sized,
              ),
              rw kept (ink-cut at remaining),
            ),
          )
      | inr short ↦ rw short (IsSplit-end remaining max_chars (ground (arith, short)))
    ]

-- With room for at least two characters the cutting of a text ends. Its parts are not empty and not
-- longer than allowed, and one after the other they are the text, but for white space.
pub hard_split_text-IsSplit :
    (text : String) (max_chars : ℕ)
    → 2 ≤ max_chars
    → (parts : List String) × (hard_split_text text max_chars ≡ some parts)
      × IsSplit max_chars text parts
unfolding hard_split_text
hard_split_text-IsSplit text max_chars h =
    let (parts, e, (sized, kept)) =
      split_loop-IsSplit (count (strip text) + 1) max_chars (strip text) h (strip-is_flush text)
        (omega arith) in
    (parts, e, (sized, kept ∙ ink-strip text))
