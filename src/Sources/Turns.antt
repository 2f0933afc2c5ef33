-- ===== src/Sources/Turns.antt =====
-- pipelines/source_segmentation.py: the blocks of a chat, `_turn_blocks`, and how a group of turns that
-- is too long is cut; `session_unit_raw_index` of core/source_unitization.py.
pub mod Grouped
use Prim.Native.Char.{code}
use Prim.Native.String.{String, [], ◌∷◌, ◌++◌, count}
use mathlib.Core.Option
use knoarbor.Prelude.{
  ℕ, ◌+◌, ◌-◌, ◌*◌, ◌/◌, Bool, true, false, not, ◌&&◌, Option, none, some, List, [], ◌∷◌,
  ◌++◌ as append, if◌then◌else◌, ◌==◌, ltb, leb, map, length,
}
use knoarbor.Json.{
  Json, Items, Fields, boolean, number, text, array, object, nil, cons, get, set_field,
}
use knoarbor.Text.{is_empty}
use knoarbor.Sources.HardSplit.{hard_split_text}
use knoarbor.Sources.Packing.{pack}
use knoarbor.Sources.Printing.{decimal, dumps, to_text}
use knoarbor.Sources.Blocks.{
  Config, turns, Block, part_block, enumerate_from, extend_from, hard_split_warning,
  paragraph_blocks,
}

unfoldable pub items_of : Items → List Json
items_of nil = []
items_of (cons v vs) = v ∷ items_of vs

unfoldable pub to_items : List Json → Items
to_items [] = nil
to_items (v ∷ vs) = cons v (to_items vs)

-- `value` of `payload.get(key)`, where it is a list.
unfoldable pub list_at : String → Fields → Option (List Json)
unfolding items_of
list_at key payload = elim (get key payload) [ array vs ↦ some (items_of vs) | _ ↦ none ]

-- `_session_units`; `None` for the key and for the units go together.
unfoldable pub session_units : Fields → Option (String × List Json)
unfolding list_at
session_units payload = elim (list_at "messages" payload) [
  | some units ↦ some ("messages", units)
  | none ↦ Option.map (λ units. ("turns", units)) (list_at "turns" payload)
]

abbrev is_digit : ℕ → Bool
is_digit c = leb b'0' c && leb c b'9'

-- `int(value)` of a text of digits.
int_from : ℕ → String → ℕ
int_from n [] = n
int_from n (c ∷ s) = int_from (10 * n + (code c - b'0')) s

all_digits : String → Bool
all_digits [] = true
all_digits (c ∷ s) = is_digit (code c) && all_digits s

-- `session_unit_raw_index`, with the digits of ASCII.
unfoldable pub session_unit_raw_index : Json → ℕ → ℕ
unfolding int_from all_digits
session_unit_raw_index (object unit) fallback = elim (get "raw_index" unit) [
  | number n ↦ n
  | boolean b ↦ if b then 1 else 0
  | text s ↦ if not (is_empty s) && all_digits s then int_from 0 s else fallback
  | _ ↦ fallback
]
session_unit_raw_index _ fallback = fallback

abbrev lowered : ℕ → ℕ
lowered c = if leb b'A' c && leb c b'Z' then c + 32 else c

-- `s.lower() == word` for a word of small letters of ASCII, none of which another letter is lowered to.
unfoldable pub lowers_to : String → String → Bool
lowers_to [] [] = true
lowers_to (c ∷ s) (d ∷ word) = lowered (code c) == code d && lowers_to s word
lowers_to _ _ = false

module _ (repr : Json → String) where
  -- `role == "user"`; a unit that is no object has the role "".
  unfoldable pub is_user : Json → Bool
  unfolding lowers_to
  is_user (object unit) = lowers_to (to_text repr (get "role" unit)) "user"
  is_user _ = false

  -- The first loop of `_turn_blocks`.
  unfoldable pub turn_groups : List Json → List (List Json)
  turn_groups = pack (λ _. 0) (λ _ unit. is_user unit)

abbrev minimum : ℕ → List ℕ → ℕ
minimum n [] = n
minimum n (m ∷ ms) = minimum (if ltb m n then m else n) ms

abbrev maximum : ℕ → List ℕ → ℕ
maximum n [] = n
maximum n (m ∷ ms) = maximum (if ltb n m then m else n) ms

-- `min(values) if values else None`.
abbrev pub min_of : List ℕ → Option ℕ
min_of [] = none
min_of (n ∷ ns) = some (minimum n ns)

abbrev pub max_of : List ℕ → Option ℕ
max_of [] = none
max_of (n ∷ ns) = some (maximum n ns)

abbrev larger : ℕ → ℕ → ℕ
larger a b = if ltb a b then b else a

abbrev smaller : ℕ → ℕ → ℕ
smaller a b = if ltb b a then b else a

-- What a part of a message may hold, with room for the JSON around it.
abbrev pub part_budget : ℕ → ℕ
part_budget max_chars = larger 1000 (max_chars - smaller 1200 (max_chars / 4))

abbrev pub message_part : Fields → ℕ → ℕ → String → Json
message_part unit parts index part = object (
    set_field "content"
      (text (
        "[oversized message part "
        ++ (decimal (index + 1) ++ ("/" ++ (decimal parts ++ ("]\n" ++ part))))))
      unit)

abbrev split_content : Config → Fields → Json → Option (List Json)
split_content config unit (text content) =
    if leb (count content) config.max_chars_per_segment
    then some (object unit ∷ [])
    else Option.map
        (λ parts.
          if leb (length parts) 1
          then object unit ∷ []
          else enumerate_from (message_part unit (length parts)) 0 parts)
        (hard_split_text content (part_budget config.max_chars_per_segment))
split_content config unit _ = some (object unit ∷ [])

abbrev pub printed : List Json → String
printed units = dumps (some 0) (array (to_items units))

abbrev split_object : Config → Json → Option (List Json)
split_object config (object unit) = split_content config unit (get "content" unit)
split_object config unit = some (unit ∷ [])

-- `_split_oversized_unit`.
unfoldable pub split_oversized_unit : Config → Json → Option (List Json)
unfolding to_items
split_oversized_unit config unit =
    if leb (count (printed (unit ∷ []))) config.max_chars_per_segment
    then some (unit ∷ [])
    else split_object config unit

-- The loops of `_split_oversized_payload_block` over the units and their parts.
unfoldable pub unit_chunks : Config → List Json → Option (List (List Json))
unit_chunks config units =
    let size = λ (part : Json). count (printed (part ∷ [])) in
    Option.map (pack size (λ len part. ltb config.max_chars_per_segment (len + size part)))
      (extend_from (λ _ unit. split_oversized_unit config unit) 0 units)

abbrev pub chunk_block : Config → Block → Fields → String → List String → ℕ → List Json → Block
chunk_block config block payload units_key warnings index chunk =
    record (part_block block warnings index (printed chunk)) {
      payload = some (set_field units_key (array (to_items chunk)) payload);
    }

-- `_split_oversized_payload_block`, for a block with a payload.
unfoldable pub split_oversized_payload_block :
    Config → Block → Fields → String → Option (List Block)
unfolding session_units unit_chunks
split_oversized_payload_block config block payload warning =
    let kept = record block { warnings = append block.warnings (warning ∷ []) } in
    elim (session_units payload) [
      | none ↦ some (kept ∷ [])
      | some (units_key, []) ↦ some (kept ∷ [])
      | some (units_key, unit ∷ units) ↦
          Option.map
            (enumerate_from
              (chunk_block config block payload units_key
                (warning ∷ ("oversized_turn_group:" ++ block.title) ∷ []))
              0)
            (unit_chunks config (unit ∷ units))
    ]

abbrev shown_index : Option ℕ → String
shown_index none = "None"
shown_index (some n) = decimal n

-- The block of a group of turns, before it is cut.
abbrev pub turn_block : Fields → String → List Json → Block
turn_block payload units_key group =
    let raw_indexes = enumerate_from (λ index unit. session_unit_raw_index unit index) 0 group in
    record {
      title =
          "turns "
          ++ (shown_index (min_of raw_indexes) ++ ("-" ++ shown_index (max_of raw_indexes)));
      text = printed group;
      from_index = min_of raw_indexes;
      to_index = max_of raw_indexes;
      payload = some (set_field units_key (array (to_items group)) payload);
      sections = [];
      warnings = [];
    }

-- `_split_oversized_block` for the block of a group.
unfoldable pub split_turn_block : Config → Fields → String → List Json → Option (List Block)
unfolding split_oversized_payload_block
split_turn_block config payload units_key group =
    let block = turn_block payload units_key group in
    if leb (count block.text) config.max_chars_per_segment
    then some (block ∷ [])
    else split_oversized_payload_block config block
        (set_field units_key (array (to_items group)) payload) (hard_split_warning turns block)

-- `_turn_blocks`; `loaded` is what `json.loads` gives for the text, `none` when it raises.
unfoldable pub turn_blocks : (Json → String) → Config → Option Json → String → Option (List Block)
unfolding turn_groups split_turn_block
turn_blocks repr config (some (object payload)) source = elim (session_units payload) [
  | none ↦ paragraph_blocks config source
  | some (units_key, []) ↦ paragraph_blocks config source
  | some (units_key, unit ∷ units) ↦
      extend_from (λ _ group. split_turn_block config payload units_key group) 0
        (turn_groups repr (unit ∷ units))
]
turn_blocks repr config _ source = paragraph_blocks config source
