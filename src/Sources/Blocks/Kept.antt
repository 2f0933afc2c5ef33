-- ===== src/Sources/Blocks/Kept.antt =====
-- pipelines/source_segmentation.py: the size and the characters of the blocks of a text.
use Prim.Native.Char.{Char, code}
use Prim.Native.String.{String, [], ◌∷◌, ◌++◌, count}
use Prim.Native.String.append
use text.Mathlib.TextLemmas.{append_assoc, append-nil}
use mathlib.Core.Path.{subst}
use knoarbor.Prelude.{
  ℕ, zero, suc, ◌+◌, ◌≤◌, ◌<◌, ◌≡◌, refl, sym, ap, ◌∙◌, true, false, not, Option, none, some, List,
  [], ◌∷◌, ◌++◌ as join_lists, if◌then◌else◌, ◌==◌, leb, map, keep, arith, Bool-cases, Option-cases,
  inl, inr, Every, Every-append, List-cases,
}
use knoarbor.Text.{is_space, is_empty, strip, suffix}
use knoarbor.Text.Ink.{ink, all_ink, ink-append, ink-strip, is_empty-ink, ink-blank}
use knoarbor.Sources.HardSplit.{hard_split_text-IsSplit}
use knoarbor.Sources.Blocks.{
  Config, Mode, paragraphs, Block, plain_block, part_block, enumerate_from, both, extend_from,
  hard_split_warning, split_oversized_block, blank_lines, parts_from, paragraphs_of,
  paragraph_block, paragraph_blocks,
}

-- The ink of all blocks, in order.
unfoldable pub block_ink : List Block → String
unfolding ink
block_ink [] = []
block_ink (b ∷ bs) = ink b.text ++ block_ink bs

pub block_ink-append :
    (bs cs : List Block) → block_ink (join_lists bs cs) ≡ block_ink bs ++ block_ink cs
unfolding block_ink
block_ink-append [] cs = sym (append.nil (block_ink cs))
block_ink-append (b ∷ bs) cs =
    ap (◌++◌ (ink b.text)) (block_ink-append bs cs)
    ∙ sym (append_assoc (ink b.text) (block_ink bs) (block_ink cs))

-- Blocks that are not too long and whose ink is `kept`.
abbrev pub AreBlocks : Config → String → List Block → Type 0
AreBlocks config kept blocks =
    (block_ink blocks ≡ kept) × Every (λ b. count b.text ≤ config.max_chars_per_segment) blocks

-- The call returns such blocks.
abbrev pub Returns : Config → String → Option (List Block) → Type 0
Returns config kept result =
    (blocks : List Block) × (result ≡ some blocks) × AreBlocks config kept blocks

parts-AreBlocks :
    (config : Config) (block : Block) (warnings : List String) (index : ℕ) (parts : List String)
    → Every (λ part. (0 < count part) × (count part ≤ config.max_chars_per_segment)) parts
    → AreBlocks config (all_ink parts) (enumerate_from (part_block block warnings) index parts)
unfolding block_ink all_ink enumerate_from
parts-AreBlocks config block warnings index [] h = (refl, tt)
parts-AreBlocks config block warnings index (part ∷ parts) h =
    let (kept, sized) = parts-AreBlocks config block warnings (index + 1) parts h.1 in
    (ap (◌++◌ (ink part)) kept, (h.0.1, sized))

pub split_oversized_block-Returns :
    (config : Config) (mode : Mode) (block : Block)
    → 2 ≤ config.max_chars_per_segment
    → Returns config (ink block.text) (split_oversized_block config mode block)
unfolding split_oversized_block block_ink
split_oversized_block-Returns config mode block h =
    elim (Bool-cases (leb (count block.text) config.max_chars_per_segment)) [
      | inl short ↦
          (block ∷ [], rw short refl, (append-nil (ink block.text), (ground (arith, short), tt)))
      | inr long ↦
          let (parts, e, (sized, kept)) =
            hard_split_text-IsSplit block.text config.max_chars_per_segment h in
          let warnings : List String = hard_split_warning mode block ∷ [] in
          let blocks = parts-AreBlocks config block warnings 0 parts sized in
          (
            enumerate_from (part_block block warnings) 0 parts,
            rw (long, e) refl,
            (blocks.0 ∙ kept, blocks.1),
          )
    ]

pub both-Returns :
    (config : Config) (kept kept' : String) (result result' : Option (List Block))
    → Returns config kept result
    → Returns config kept' result'
    → Returns config (kept ++ kept') (both result result')
both-Returns config kept kept' result result' (blocks, e, (all, sized))
      (later, e', (all', sized')) =
    (
      join_lists blocks later,
      rw (e, e') refl,
      (
        block_ink-append blocks later ∙ rw (all, all') refl,
        Every-append _ blocks later sized sized',
      ),
    )

-- The texts that `ink_of` reads from the items, one after the other.
unfoldable pub inks_from {ℓ} : {A : Type ℓ} → (ℕ → A → String) → ℕ → List A → String
inks_from ink_of index [] = []
inks_from ink_of index (x ∷ xs) = ink_of index x ++ inks_from ink_of (index + 1) xs

pub extend_from-Returns {ℓ} :
    {A : Type ℓ} (config : Config) (f : ℕ → A → Option (List Block)) (ink_of : ℕ → A → String)
    → ((index : ℕ) (x : A) → Returns config (ink_of index x) (f index x))
    → (index : ℕ) (xs : List A)
    → Returns config (inks_from ink_of index xs) (extend_from f index xs)
unfolding extend_from inks_from block_ink
extend_from-Returns config f ink_of h index [] = ([], refl, (refl, tt))
extend_from-Returns config f ink_of h index (x ∷ xs) =
    both-Returns config _ _ (f index x) (extend_from f (index + 1) xs) (h index x)
      (extend_from-Returns config f ink_of h (index + 1) xs)

-- A run of blank lines has no ink.
ink-blank_lines : (s : String) (n : ℕ) → blank_lines s ≡ some n → ink (suffix n s) ≡ ink s
unfolding blank_lines ink suffix
ink-blank_lines [] n h = cc
ink-blank_lines (c ∷ s) n h = elim (Bool-cases (is_space (code c))) [
  | inr keeps ↦ absurd (ground (arith, rw keeps at h))
  | inl blank ↦ elim (Option-cases (blank_lines s)) [
    | inr (m, later) ↦
        let n_is : some (suc m) ≡ some n = rw (blank, later) at h in
        let n_next : n ≡ suc m = cc in rw (n_next, blank) (ink-blank_lines s m later)
    | inl last ↦
        let n_is : (if code c == 10 then some 1 else none) ≡ some n = rw (blank, last) at h in
        let n_one : n ≡ suc zero = ground arith in rw (n_one, blank) refl
  ]
]

ink-snoc :
    (part : String) (c : Char) (s : String)
    → ink (part ++ (c ∷ [])) ++ ink s ≡ ink part ++ ink (c ∷ s)
ink-snoc part c s =
    let ahead : (c ∷ []) ++ s ≡ c ∷ s = rw (append.cons c [] s, append.nil s) refl in
    rw (ink-append part (c ∷ [])) (
      append_assoc (ink part) (ink (c ∷ [])) (ink s)
      ∙ ap (◌++◌ (ink part)) (sym (ink-append (c ∷ []) s) ∙ ap ink ahead))

all_ink-parts_from :
    (skip : ℕ) (part s : String)
    → all_ink (parts_from skip part s) ≡ ink part ++ ink (suffix skip s)
unfolding parts_from all_ink suffix ink
all_ink-parts_from zero part [] = refl
all_ink-parts_from (suc skip) part [] = refl
all_ink-parts_from (suc skip) part (c ∷ s) = all_ink-parts_from skip part s
all_ink-parts_from zero part (c ∷ s) = elim (Bool-cases (code c == 10)) [
  | inr other ↦
      rw (other, parts_from) (all_ink-parts_from zero (part ++ (c ∷ [])) s ∙ ink-snoc part c s)
  | inl break ↦ elim (Option-cases (blank_lines s)) [
    | inr (n, cut) ↦
        let blank : is_space (code c) ≡ true = ground (arith, break) in
        rw (break, cut, parts_from)
          (ap (◌++◌ (ink part)) (
            all_ink-parts_from n "" s
            ∙ (append.nil (ink (suffix n s)) ∙ (ink-blank_lines s n cut ∙ rw blank refl))))
    | inl no_cut ↦
        rw (break, no_cut, parts_from)
          (all_ink-parts_from zero (part ++ (c ∷ [])) s ∙ ink-snoc part c s)
  ]
]

all_ink-keep :
    (parts : List String)
    → all_ink (keep (λ part. not (is_empty part)) (map strip parts)) ≡ all_ink parts
unfolding all_ink
all_ink-keep [] = refl
all_ink-keep (part ∷ parts) = elim (Bool-cases (is_empty (strip part))) [
  | inl none_left ↦
      rw none_left
        (all_ink-keep parts ∙ rw (ink-blank part none_left) (sym (append.nil (all_ink parts))))
  | inr some_left ↦ rw some_left (rw (ink-strip part, all_ink-keep parts) refl)
]

pub all_ink-paragraphs_of : (text : String) → all_ink (paragraphs_of text) ≡ ink text
unfolding paragraphs_of suffix ink
all_ink-paragraphs_of text =
    all_ink-keep (parts_from zero "" text)
    ∙ (all_ink-parts_from zero "" text ∙ append.nil (ink text))

inks_from-all_ink : (index : ℕ) (ps : List String) → inks_from (λ _ p. ink p) index ps ≡ all_ink ps
unfolding inks_from all_ink
inks_from-all_ink index [] = refl
inks_from-all_ink index (p ∷ ps) = ap (◌++◌ (ink p)) (inks_from-all_ink (index + 1) ps)

-- The paragraphs of a text that is not blank, none too long, keep all of it but white space.
pub paragraph_blocks-Returns :
    (config : Config) (text : String)
    → 2 ≤ config.max_chars_per_segment
    → is_empty (ink text) ≡ false
    → Returns config (ink text) (paragraph_blocks config text)
unfolding paragraph_blocks all_ink
paragraph_blocks-Returns config text h inked = elim (List-cases (paragraphs_of text)) [
  | inl blank ↦
      let no_ink : "" ≡ ink text = ap all_ink (sym blank) ∙ all_ink-paragraphs_of text in
      cc (ap is_empty no_ink ∙ inked)
  | inr (p, ps, e) ↦
      let kept : inks_from (λ _ q. ink q) 0 (p ∷ ps) ≡ ink text =
        inks_from-all_ink 0 (p ∷ ps) ∙ (ap all_ink (sym e) ∙ all_ink-paragraphs_of text) in
      rw (e, paragraph_blocks)
        (subst (λ k. Returns config k (extend_from (paragraph_block config) 0 (p ∷ ps))) kept
          (extend_from-Returns config (paragraph_block config) (λ _ q. ink q)
            (λ index q. split_oversized_block-Returns config paragraphs (plain_block _ q) h) 0
            (p ∷ ps)))
]

keep-inked :
    (parts : List String)
    → Every (λ p. is_empty (ink p) ≡ false) (keep (λ part. not (is_empty part)) (map strip parts))
keep-inked [] = tt
keep-inked (part ∷ parts) = elim (Bool-cases (is_empty (strip part))) [
  | inl none_left ↦ rw none_left (keep-inked parts)
  | inr some_left ↦
      rw some_left
        (ap is_empty (ink-strip part) ∙ (is_empty-ink part ∙ some_left), keep-inked parts)
]

is_empty-append : (s t : String) → is_empty (s ++ t) ≡ true → is_empty s ≡ true
is_empty-append [] t h = refl
is_empty-append (c ∷ s) t h =
    let longer : is_empty (c ∷ (s ++ t)) ≡ true = rw (append.cons c s t) at h in cc

-- A blank text is one block, however long it is.
pub paragraph_blocks_blank :
    (config : Config) (text : String)
    → is_empty (ink text) ≡ true
    → paragraph_blocks config text ≡ some (plain_block "Text" text ∷ [])
unfolding paragraph_blocks paragraphs_of all_ink
paragraph_blocks_blank config text blank = elim (List-cases (paragraphs_of text)) [
  | inl e ↦ rw (e, paragraph_blocks) refl
  | inr (p, ps, e) ↦
      let inked = rw e at (keep-inked (parts_from zero "" text)) in
      let kept = ap all_ink (sym e) ∙ all_ink-paragraphs_of text in
      let no_ink = is_empty-append (ink p) (all_ink ps) (ap is_empty kept ∙ blank) in
      cc (sym no_ink ∙ inked.0)
]
