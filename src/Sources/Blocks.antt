-- ===== src/Sources/Blocks.antt =====
-- pipelines/source_segmentation.py: the blocks of a document, `_split_oversized_block`,
-- `_paragraph_blocks` and `_section_blocks`.
pub mod Kept
use Prim.Native.Char.{code}
use Prim.Native.String.{String, [], ◌∷◌, ◌++◌, count}
use mathlib.Core.Option
use knoarbor.Prelude.{
  ℕ, zero, suc, ◌+◌, ◌≤◌, Bool, not, Option, none, some, List, [], ◌∷◌, ◌++◌ as append,
  if◌then◌else◌, ◌==◌, leb, map, keep,
}
use knoarbor.Json.{Json, Fields, get, object, is_truthy}
use knoarbor.Text.{is_space, is_empty, strip}
use knoarbor.Sources.HardSplit.{hard_split_text}
use knoarbor.Sources.Printing.{decimal, dumps, to_text, or_value}

-- `IngestSegmentationConfig`.
pub record Config : Type 0 where
  pub enabled : Bool
  pub max_chars_per_segment : ℕ
  pub soft_chars_per_segment : ℕ
  pub max_segments_per_source : ℕ
  pub min_segment_chars : ℕ

-- The bounds and the validator of the configuration.
pub record IsValid (c : Config) : Type 0 where
  pub enough_room : 2000 ≤ c.max_chars_per_segment
  pub soft_room : 1000 ≤ c.soft_chars_per_segment
  pub soft_within : c.soft_chars_per_segment ≤ c.max_chars_per_segment
  pub min_within : c.min_segment_chars ≤ c.max_chars_per_segment

pub data Mode : Type 0 where
  whole heading turns pages paragraphs : Mode

abbrev pub mode_text : Mode → String
mode_text whole = "none"
mode_text heading = "heading"
mode_text turns = "turns"
mode_text pages = "pages"
mode_text paragraphs = "paragraphs"

-- `_Block`; no sections and `None` are one value, as the code only reads `block.sections or []`.
pub record Block : Type 0 where
  pub title : String
  pub text : String
  pub from_index : Option ℕ
  pub to_index : Option ℕ
  pub payload : Option Fields
  pub sections : List Fields
  pub warnings : List String

abbrev pub plain_block : String → String → Block
plain_block title text = record {
  title = title;
  text = text;
  from_index = none;
  to_index = none;
  payload = none;
  sections = [];
  warnings = [];
}

abbrev pub part_block : Block → List String → ℕ → String → Block
part_block block warnings index part = record block {
  title = block.title ++ (" part " ++ decimal (index + 1));
  text = part;
  warnings = append block.warnings warnings;
}

-- `[f(index, x) for index, x in enumerate(xs)]`.
unfoldable pub enumerate_from {ℓ κ} : {A : Type ℓ} {B : Type κ} → (ℕ → A → B) → ℕ → List A → List B
enumerate_from f index [] = []
enumerate_from f index (x ∷ xs) = f index x ∷ enumerate_from f (index + 1) xs

-- What is left when both calls return.
abbrev pub both {ℓ} : {A : Type ℓ} → Option (List A) → Option (List A) → Option (List A)
both none later = none
both (some xs) none = none
both (some xs) (some ys) = some (append xs ys)

-- `for index, x in enumerate(xs): blocks.extend(f(index, x))`.
unfoldable pub extend_from {ℓ κ} :
    {A : Type ℓ} {B : Type κ} → (ℕ → A → Option (List B)) → ℕ → List A → Option (List B)
extend_from f index [] = some []
extend_from f index (x ∷ xs) = both (f index x) (extend_from f (index + 1) xs)

abbrev pub hard_split_warning : Mode → Block → String
hard_split_warning mode block = "hard_split:" ++ (mode_text mode ++ (":" ++ block.title))

-- `_split_oversized_block` for a block with no payload.
unfoldable pub split_oversized_block : Config → Mode → Block → Option (List Block)
unfolding enumerate_from
split_oversized_block config mode block =
    if leb (count block.text) config.max_chars_per_segment
    then some (block ∷ [])
    else Option.map (enumerate_from (part_block block (hard_split_warning mode block ∷ [])) 0)
        (hard_split_text block.text config.max_chars_per_segment)

-- Behind a line break: how many characters of white space end in the last line break among them.
unfoldable pub blank_lines : String → Option ℕ
blank_lines [] = none
blank_lines (c ∷ s) =
    let later = blank_lines s in
    if is_space (code c)
    then elim later [ some n ↦ some (suc n) | none ↦ if code c == 10 then some 1 else none ]
    else none

-- `re.split(r"\n\s*\n", text)`; `part` is the part that the scan is in, and `skip` the characters of a
-- match that are left.
unfoldable pub parts_from : ℕ → String → String → List String
unfolding blank_lines
parts_from skip part [] = part ∷ []
parts_from (suc skip) part (c ∷ s) = parts_from skip part s
parts_from zero part (c ∷ s) = elim (if code c == 10 then blank_lines s else none) [
  | some n ↦ part ∷ parts_from n "" s
  | none ↦ parts_from zero (part ++ (c ∷ [])) s
]

-- `[part.strip() for part in re.split(...) if part.strip()]`.
unfoldable pub paragraphs_of : String → List String
unfolding parts_from
paragraphs_of text = keep (λ part. not (is_empty part)) (map strip (parts_from zero "" text))

abbrev pub paragraph_block : Config → ℕ → String → Option (List Block)
paragraph_block config index paragraph =
    split_oversized_block config paragraphs
      (plain_block ("paragraph " ++ decimal (index + 1)) paragraph)

-- `_paragraph_blocks`.
unfoldable pub paragraph_blocks : Config → String → Option (List Block)
unfolding extend_from
paragraph_blocks config text = elim (paragraphs_of text) [
  | [] ↦ some (plain_block "Text" text ∷ [])
  | p ∷ ps ↦ extend_from (paragraph_block config) 0 (p ∷ ps)
]

module _ (repr : Json → String) where
  -- The title and the text of a section, as `_section_blocks` reads them.
  abbrev pub section_block : ℕ → Fields → Block
  section_block index section =
      let shown = or_value (get "title" section) (get "heading" section) in
      let title =
        if is_truthy shown then to_text repr shown else "section " ++ decimal (index + 1) in
      let found = or_value (get "content" section) (get "text" section) in
      let body = if is_truthy found then to_text repr found else "" in
      record (plain_block title
        (if is_empty (strip body) then dumps none (object section) else body)) {
          from_index = some index;
          to_index = some index;
          sections = section ∷ [];
        }

  -- `_section_blocks`.
  unfoldable pub section_blocks : Config → List Fields → String → Option (List Block)
  section_blocks config sections text =
      let split =
        λ (index : ℕ) (s : Fields). split_oversized_block config pages (section_block index s) in
      elim (extend_from split 0 sections) [
        | none ↦ none
        | some [] ↦ paragraph_blocks config text
        | some (block ∷ blocks) ↦ some (block ∷ blocks)
      ]
