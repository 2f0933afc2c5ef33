-- ===== src/Text/Edges.antt =====
-- The white space at the edges of a text, as pieces of it.
use Prim.Native.Char.{Char, code}
use Prim.Native.String.{String, [], ◌∷◌, ◌++◌, count}
use Prim.Native.String.append
use Prim.Native.String.count
use text.Mathlib.TextLemmas.{append_assoc}
use knoarbor.Prelude.{◌≡◌, refl, sym, ap, ◌∙◌, true, false, ◌&&◌, arith, Bool-cases, inl, inr}
use knoarbor.Text.{prefix, suffix, is_space, is_empty, lstrip, rstrip, strip, nil_of_is_empty}
use knoarbor.Text.Ink.{ink, ink-rstrip}

pub append_snoc : (t : String) (c : Char) (s : String) → (t ++ (c ∷ [])) ++ s ≡ t ++ (c ∷ s)
append_snoc t c s =
    append_assoc t (c ∷ []) s ∙ ap (◌++◌ t) (append.cons c [] s ∙ ap (◌∷◌ c) (append.nil s))

-- What `strip` takes away in front has no ink.
pub lstrip_split : (s : String) → (gap : String) × (s ≡ gap ++ lstrip s) × (ink gap ≡ "")
unfolding lstrip ink
lstrip_split [] = ("", sym (append.nil ""), refl)
lstrip_split (c ∷ s) = elim (Bool-cases (is_space (code c))) [
  | inl blank ↦
      let (gap, cut, no_ink) = lstrip_split s in
      (c ∷ gap, rw blank (ap (◌∷◌ c) cut ∙ sym (append.cons c gap (lstrip s))), rw blank no_ink)
  | inr keeps ↦ ("", rw keeps (sym (append.nil (c ∷ s))), refl)
]

pub rstrip_split : (s : String) → (tail : String) × (s ≡ rstrip s ++ tail) × (ink tail ≡ "")
unfolding rstrip ink
rstrip_split [] = ("", sym (append.nil ""), refl)
rstrip_split (c ∷ s) = elim (Bool-cases (is_space (code c) && is_empty (rstrip s))) [
  | inr keeps ↦
      let (tail, cut, no_ink) = rstrip_split s in
      (tail, rw keeps (ap (◌∷◌ c) cut ∙ sym (append.cons c (rstrip s) tail)), no_ink)
  | inl blank ↦
      let space : is_space (code c) ≡ true = ground (arith, blank) in
      let none_left : is_empty (rstrip s) ≡ true = ground (arith, blank) in
      (
        c ∷ s,
        rw blank (sym (append.nil (c ∷ s))),
        rw space (sym (ink-rstrip s) ∙ ap ink (nil_of_is_empty (rstrip s) none_left)),
      )
]

-- A text between the white space at its edges.
pub strip_split :
    (s : String)
    → (gap : String) × (tail : String) × (s ≡ gap ++ (strip s ++ tail))
      × (ink gap ≡ "")
      × (ink tail ≡ "")
unfolding strip
strip_split s =
    let (gap, cut, no_gap) = lstrip_split s in
    let (tail, cut', no_tail) = rstrip_split (lstrip s) in
    (gap, tail, cut ∙ ap (◌++◌ gap) cut', no_gap, no_tail)

pub is_empty-append_right : (s t : String) → is_empty t ≡ false → is_empty (s ++ t) ≡ false
is_empty-append_right [] t h = rw (append.nil t) h
is_empty-append_right (c ∷ s) t h = rw (append.cons c s t) refl

-- Behind a text, one that is not blank keeps its edge.
pub rstrip-append : (s t : String) → is_empty (rstrip t) ≡ false → rstrip (s ++ t) ≡ s ++ rstrip t
unfolding rstrip
rstrip-append [] t h = rw (append.nil t) (sym (append.nil (rstrip t)))
rstrip-append (c ∷ s) t h =
    let rest = rstrip-append s t h in
    let more : is_empty (rstrip (s ++ t)) ≡ false =
      rw rest (is_empty-append_right s (rstrip t) h) in
    let longer : (is_space (code c) && is_empty (rstrip (s ++ t))) ≡ false = ground (arith, more) in
    rw (append.cons c s t, longer) (ap (◌∷◌ c) rest ∙ sym (append.cons c s (rstrip t)))

pub suffix-append : (s t : String) → suffix (count s) (s ++ t) ≡ t
unfolding suffix
suffix-append [] t = append.nil t
suffix-append (c ∷ s) t = rw (count.cons c s, append.cons c s t) (suffix-append s t)

pub prefix-append : (s t : String) → prefix (count s) (s ++ t) ≡ s
unfolding prefix
prefix-append [] t = refl
prefix-append (c ∷ s) t = rw (count.cons c s, append.cons c s t) (ap (◌∷◌ c) (prefix-append s t))
