-- ===== src/Text.antt =====
-- Texts as `str` has them: a sequence of code points with the operations that the program calls, and
-- the characters of a text that are no white space.
pub mod Ink
pub mod Edges
use Prim.Native.Char.{code}
use Prim.Native.String.{String, [], ◌∷◌, ◌++◌, count}
use Prim.Native.String.count
use Prim.Native.String.append
use knoarbor.Prelude.{
  ℕ, zero, suc, ◌+◌, ◌-◌, ◌≤◌, ◌<◌, ◌≡◌, Bool, true, false, ◌&&◌, ◌||◌, ◌==◌, leb, refl, sym, ap,
  ◌∙◌, Option-cases, Option, none, some, List, [], ◌∷◌, if◌then◌else◌, arith, Bool-cases, inl, inr,
}

-- The characters that `str.split()`, `str.strip()` and `\s` take for white space.
abbrev pub is_space : ℕ → Bool
is_space c =
    (leb 9 c && leb c 13)
    || (leb 28 c && leb c 32)
    || c == 133
    || c == 160
    || c == 5760
    || (leb 8192 c && leb c 8202)
    || c == 8232
    || c == 8233
    || c == 8239
    || c == 8287
    || c == 12288

abbrev pub is_empty : String → Bool
is_empty [] = true
is_empty (c ∷ s) = false

-- `text[:n]`.
unfoldable pub prefix : ℕ → String → String
prefix zero s = []
prefix (suc n) [] = []
prefix (suc n) (c ∷ s) = c ∷ prefix n s

-- `text[n:]`.
unfoldable pub suffix : ℕ → String → String
suffix zero s = s
suffix (suc n) [] = []
suffix (suc n) (c ∷ s) = suffix n s

unfoldable pub lstrip : String → String
lstrip [] = []
lstrip (c ∷ s) = let rest = lstrip s in if is_space (code c) then rest else c ∷ s

unfoldable pub rstrip : String → String
rstrip [] = []
rstrip (c ∷ s) = let rest = rstrip s in if is_space (code c) && is_empty rest then [] else c ∷ rest

unfoldable pub strip : String → String
unfolding lstrip rstrip
strip s = rstrip (lstrip s)

-- `text.startswith(sub)`.
unfoldable pub begins : String → String → Bool
begins s [] = true
begins [] (d ∷ t) = false
begins (c ∷ s) (d ∷ t) = code c == code d && begins s t

-- `text.rfind(sub, 0, end)` for a text that is not empty; `none` stands for -1.
unfoldable pub rfind : String → String → ℕ → Option ℕ
unfolding begins
rfind sub [] end = none
rfind sub (c ∷ s) end = elim (rfind sub s (end - 1)) [
  | some i ↦ some (suc i)
  | none ↦ if begins (c ∷ s) sub && leb (count sub) end then some 0 else none
]

-- `sep.join(parts)`.
unfoldable pub join : String → List String → String
join sep [] = ""
join sep (w ∷ []) = w
join sep (w ∷ v ∷ vs) = w ++ (sep ++ join sep (v ∷ vs))

pub count-prefix : (n : ℕ) (s : String) → count (prefix n s) ≤ n
unfolding prefix
count-prefix zero s = omega (arith, count.nil)
count-prefix (suc n) [] = omega (arith, count.nil)
count-prefix (suc n) (c ∷ s) = omega (arith, count.cons c (prefix n s), count-prefix n s)

pub count-suffix : (n : ℕ) (s : String) → n ≤ count s → count (suffix n s) + n ≡ count s
unfolding suffix
count-suffix zero s h = omega arith
count-suffix (suc n) [] h = absurd (omega (arith, count.nil))
count-suffix (suc n) (c ∷ s) h =
    omega (arith, count.cons c s, count-suffix n s (omega (arith, count.cons c s)))

pub prefix-suffix : (n : ℕ) (s : String) → prefix n s ++ suffix n s ≡ s
unfolding prefix suffix
prefix-suffix zero s = append.nil s
prefix-suffix (suc n) [] = append.nil []
prefix-suffix (suc n) (c ∷ s) = rw (append.cons c (prefix n s) (suffix n s), prefix-suffix n s)

pub suffix-nil : (n : ℕ) → suffix n [] ≡ []
unfolding suffix
suffix-nil zero = refl
suffix-nil (suc n) = refl

pub suffix-suffix : (n m : ℕ) (s : String) → suffix n (suffix m s) ≡ suffix (m + n) s
unfolding suffix
suffix-suffix n zero s = ap (λ (k : ℕ). suffix k s) (omega arith)
suffix-suffix n (suc m) [] = suffix-nil n ∙ sym (suffix-nil (suc m + n))
suffix-suffix n (suc m) (c ∷ s) =
    suffix-suffix n m s
    ∙ ap (λ (k : ℕ). suffix k (c ∷ s)) (let e : suc (m + n) ≡ suc m + n = omega arith in e)

pub suffix_all : (s : String) → suffix (count s) s ≡ []
unfolding suffix
suffix_all [] = suffix-nil (count [])
suffix_all (c ∷ s) = rw (count.cons c s) (suffix_all s)

-- `text[start:end]`.
abbrev pub slice : String → ℕ → ℕ → String
slice text start end = prefix (end - start) (suffix start text)

pub slice-suffix :
    (text : String) (start end : ℕ)
    → start ≤ end
    → slice text start end ++ suffix end text ≡ suffix start text
slice-suffix text start end h =
    let e : start + (end - start) ≡ end = omega arith in
    ap (λ (k : ℕ). slice text start end ++ suffix k text) (sym e)
    ∙ (ap (◌++◌ (slice text start end)) (sym (suffix-suffix (end - start) start text))
        ∙ prefix-suffix (end - start) (suffix start text))

pub count-rstrip : (s : String) → count (rstrip s) ≤ count s
unfolding rstrip
count-rstrip [] = omega arith
count-rstrip (c ∷ s) = elim (Bool-cases (is_space (code c) && is_empty (rstrip s))) [
  | inl blank ↦ rw blank (omega (arith, count.nil))
  | inr keeps ↦ rw keeps (omega (arith, count.cons c (rstrip s), count.cons c s, count-rstrip s))
]

pub count-lstrip : (s : String) → count (lstrip s) ≤ count s
unfolding lstrip
count-lstrip [] = omega arith
count-lstrip (c ∷ s) = elim (Bool-cases (is_space (code c))) [
  | inl blank ↦ rw blank (omega (arith, count.cons c s, count-lstrip s))
  | inr keeps ↦ rw keeps (omega arith)
]

pub count-strip : (s : String) → count (strip s) ≤ count s
unfolding strip
count-strip s = omega (arith, count-rstrip (lstrip s), count-lstrip s)

pub count-append : (s t : String) → count (s ++ t) ≡ count s + count t
count-append [] t = rw (append.nil t) (omega (arith, count.nil))
count-append (c ∷ s) t =
    rw (append.cons c s t) (omega (arith, count.cons c (s ++ t), count.cons c s, count-append s t))

pub nil_of_is_empty : (s : String) → is_empty s ≡ true → s ≡ []
nil_of_is_empty [] h = refl
nil_of_is_empty (c ∷ s) h = cc

-- What `rfind` finds lies before the end of the range.
pub rfind-le :
    (sub s : String) (end i : ℕ) → 0 < count sub → rfind sub s end ≡ some i → i + count sub ≤ end
unfolding rfind
rfind-le sub [] end i some_sub h = absurd (ground (arith, h))
rfind-le sub (c ∷ s) end i some_sub h = elim (Option-cases (rfind sub s (end - 1))) [
  | inl last ↦
      let here : (if begins (c ∷ s) sub && leb (count sub) end then some 0 else none) ≡ some i =
        rw last at h in
      ground (arith, here)
  | inr (j, later) ↦
      let next : some (suc j) ≡ some i = rw later at h in
      ground (arith, next, rfind-le sub s (end - 1) j some_sub later)
]
