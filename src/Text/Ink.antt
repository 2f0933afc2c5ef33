-- ===== src/Text/Ink.antt =====
-- The characters of a text that are no white space, and what cutting and stripping do to them.
use Prim.Native.Char.{code}
use Prim.Native.String.{String, [], ◌∷◌, ◌++◌, count}
use Prim.Native.String.append
use Prim.Native.String.count
use knoarbor.Prelude.{
  ℕ, zero, suc, ◌≤◌, ◌<◌, not, Bool, ◌≡◌, refl, sym, ap, ◌∙◌, true, false, if◌then◌else◌, List, [],
  ◌∷◌, arith, Bool-cases, inl, inr,
}
use knoarbor.Text.{
  is_space, is_empty, prefix, suffix, lstrip, rstrip, strip, prefix-suffix, nil_of_is_empty,
}

unfoldable pub ink : String → String
ink [] = []
ink (c ∷ s) = let rest = ink s in if is_space (code c) then rest else c ∷ rest

-- The ink of the texts of a list, in order.
unfoldable pub all_ink : List String → String
unfolding ink
all_ink [] = []
all_ink (s ∷ ss) = ink s ++ all_ink ss

pub ink-append : (s t : String) → ink (s ++ t) ≡ ink s ++ ink t
unfolding ink
ink-append [] t = rw (append.nil t, append.nil (ink t)) refl
ink-append (c ∷ s) t = elim (Bool-cases (is_space (code c))) [
  | inl blank ↦ rw (append.cons c s t, blank) (ink-append s t)
  | inr keeps ↦
      rw (append.cons c s t, keeps, append.cons c (ink s) (ink t)) (ap (◌∷◌ c) (ink-append s t))
]

pub ink-lstrip : (s : String) → ink (lstrip s) ≡ ink s
unfolding ink lstrip
ink-lstrip [] = refl
ink-lstrip (c ∷ s) = elim (Bool-cases (is_space (code c))) [
  | inl blank ↦ rw blank (ink-lstrip s)
  | inr keeps ↦ rw keeps (rw keeps refl)
]

pub ink-rstrip : (s : String) → ink (rstrip s) ≡ ink s
unfolding ink rstrip
ink-rstrip [] = refl
ink-rstrip (c ∷ s) = elim (Bool-cases (is_space (code c))) [
  | inl blank ↦ elim (Bool-cases (is_empty (rstrip s))) [
    | inl done ↦ rw (blank, done) (sym (ap ink (nil_of_is_empty (rstrip s) done)) ∙ ink-rstrip s)
    | inr more ↦ rw (blank, more) (rw blank (ink-rstrip s))
  ]
  | inr keeps ↦ rw keeps (rw keeps (ap (◌∷◌ c) (ink-rstrip s)))
]

pub ink-strip : (s : String) → ink (strip s) ≡ ink s
unfolding strip
ink-strip s = ink-rstrip (lstrip s) ∙ ink-lstrip s

-- A cut between two stripped parts loses white space only.
pub ink-cut : (n : ℕ) (s : String) → ink (strip (prefix n s)) ++ ink (strip (suffix n s)) ≡ ink s
ink-cut n s =
    rw (ink-strip (prefix n s), ink-strip (suffix n s))
      (sym (ink-append (prefix n s) (suffix n s)) ∙ ap ink (prefix-suffix n s))

pub count-ink : (s : String) → count (ink s) ≤ count s
unfolding ink
count-ink [] = omega arith
count-ink (c ∷ s) = elim (Bool-cases (is_space (code c))) [
  | inl blank ↦ rw blank (omega (arith, count.cons c s, count-ink s))
  | inr keeps ↦ rw keeps (omega (arith, count.cons c s, count.cons c (ink s), count-ink s))
]

-- Whether a text has no white space in front.
abbrev pub is_flush : String → Bool
is_flush [] = true
is_flush (c ∷ s) = not (is_space (code c))

pub lstrip-is_flush : (s : String) → is_flush (lstrip s) ≡ true
unfolding lstrip
lstrip-is_flush [] = refl
lstrip-is_flush (c ∷ s) = elim (Bool-cases (is_space (code c))) [
  | inl blank ↦ rw blank (lstrip-is_flush s)
  | inr keeps ↦ rw keeps (rw keeps refl)
]

rstrip-is_flush : (s : String) → is_flush s ≡ true → is_flush (rstrip s) ≡ true
unfolding rstrip
rstrip-is_flush [] h = refl
rstrip-is_flush (c ∷ s) h = elim (Bool-cases (is_space (code c))) [
  | inl blank ↦ absurd (ground (arith, blank, h))
  | inr keeps ↦ rw keeps (rw keeps refl)
]

pub strip-is_flush : (s : String) → is_flush (strip s) ≡ true
unfolding strip
strip-is_flush s = rstrip-is_flush (lstrip s) (lstrip-is_flush s)

-- The part in front of a cut of a text that starts with ink is not empty.
pub count-strip-prefix :
    (n : ℕ) (s : String) → 0 < n → is_flush s ≡ true → 0 < count s → 0 < count (strip (prefix n s))
unfolding prefix ink
count-strip-prefix zero s pos flush some_text = absurd (omega arith)
count-strip-prefix (suc n) [] pos flush some_text = absurd (omega (arith, count.nil))
count-strip-prefix (suc n) (c ∷ s) pos flush some_text =
    let keeps : is_space (code c) ≡ false = ground (arith, flush) in
    let inked : ink (c ∷ prefix n s) ≡ c ∷ ink (prefix n s) = rw keeps refl in
    omega (
      arith,
      count-ink (strip (c ∷ prefix n s)),
      ap count (ink-strip (c ∷ prefix n s) ∙ inked),
      count.cons c (ink (prefix n s)),
    )

pub ink-is_flush : (s : String) → is_flush s ≡ true → is_empty (ink s) ≡ is_empty s
unfolding ink
ink-is_flush [] flush = refl
ink-is_flush (c ∷ s) flush =
    let keeps : is_space (code c) ≡ false = ground (arith, flush) in rw keeps refl

-- A text has no ink exactly when nothing is left of it when it is stripped.
pub is_empty-ink : (s : String) → is_empty (ink s) ≡ is_empty (strip s)
is_empty-ink s = ap is_empty (sym (ink-strip s)) ∙ ink-is_flush (strip s) (strip-is_flush s)

pub ink-blank : (s : String) → is_empty (strip s) ≡ true → ink s ≡ ""
unfolding ink
ink-blank s h = sym (ink-strip s) ∙ ap ink (nil_of_is_empty (strip s) h)
