-- ===== src/Sources/Turns/Grouped.antt =====
-- pipelines/source_segmentation.py: the messages that the blocks of a chat hold.
use Prim.Native.String.{String, count, ◌++◌ as str_append}
use mathlib.Core.Path.{subst}
use mathlib.Core.List.{append_assoc, append-nil}
use knoarbor.Prelude.{
  ℕ, ◌+◌, ◌≡◌, refl, sym, ap, ◌∙◌, true, false, Option, none, some, List, [], ◌∷◌, ◌++◌,
  if◌then◌else◌, leb, ltb, str_eq, eq_iff, eq_refl, arith, Bool-cases, Option-cases, inl, inr,
  Every, Every-split,
}
use knoarbor.Json.{Json, Fields, array, object, end, field, get, set_field}
use knoarbor.Sources.Packing.{pack, concat, concat-pack, pack-filled, is_nil}
use knoarbor.Sources.Blocks.{Config, Block, turns, enumerate_from, extend_from, hard_split_warning}
use knoarbor.Sources.Turns.{
  items_of, to_items, list_at, session_units, turn_groups, printed, split_oversized_unit,
  unit_chunks, chunk_block, split_oversized_payload_block, turn_block, split_turn_block,
  turn_blocks,
}

items_of-to_items : (vs : List Json) → items_of (to_items vs) ≡ vs
unfolding items_of to_items
items_of-to_items [] = refl
items_of-to_items (v ∷ vs) = ap (◌∷◌ v) (items_of-to_items vs)

get-set_field :
    (j k : String) (v : Json) (fs : Fields)
    → get j (set_field k v fs) ≡ (if str_eq k j then v else get j fs)
unfolding get set_field
get-set_field j k v end = refl
get-set_field j k v (field i w fs) =
    ground (arith, eq_iff i j, eq_iff i k, eq_iff k j, get-set_field j k v fs)

list_at-set_field :
    (k : String) (vs : List Json) (fs : Fields)
    → list_at k (set_field k (array (to_items vs)) fs) ≡ some vs
unfolding list_at
list_at-set_field k vs fs =
    rw (list_at, get-set_field k k (array (to_items vs)) fs, eq_refl k)
      (ap some (items_of-to_items vs))

list_at-set_turns :
    (v : Json) (fs : Fields) → list_at "messages" (set_field "turns" v fs) ≡ list_at "messages" fs
unfolding list_at
list_at-set_turns v fs = rw (list_at, get-set_field "messages" "turns" v fs) refl

session_units-set_field :
    (payload : Fields) (key : String) (units vs : List Json)
    → session_units payload ≡ some (key, units)
    → session_units (set_field key (array (to_items vs)) payload) ≡ some (key, vs)
unfolding session_units
session_units-set_field payload key units vs h = elim (Option-cases (list_at "messages" payload)) [
  | inr (found, e) ↦
      let shown : ◌≡◌ {A = Option (String × List Json)} (some ("messages", found))
          (some (key, units)) =
        rw (e, session_units) at h in
      let key_is : "messages" ≡ key = cc in
      subst (λ k. session_units (set_field k (array (to_items vs)) payload) ≡ some (k, vs)) key_is
        (rw (session_units, list_at-set_field "messages" vs payload) refl)
  | inl no_messages ↦ elim (Option-cases (list_at "turns" payload)) [
    | inl no_turns ↦ cc (rw (no_messages, no_turns, session_units) at h)
    | inr (found, e) ↦
        let shown : ◌≡◌ {A = Option (String × List Json)} (some ("turns", found))
            (some (key, units)) =
          rw (no_messages, e, session_units) at h in
        let key_is : "turns" ≡ key = cc in
        subst (λ k. session_units (set_field k (array (to_items vs)) payload) ≡ some (k, vs)) key_is
          (rw
            (
              session_units,
              list_at-set_turns (array (to_items vs)) payload,
              no_messages,
              list_at-set_field "turns" vs payload,
            )
            refl)
  ]
]

-- The messages under a key of the payload of a block.
unfoldable pub units_at : String → Block → List Json
unfolding list_at
units_at key block = elim block.payload [
  | none ↦ []
  | some payload ↦ elim (list_at key payload) [ none ↦ [] | some units ↦ units ]
]

-- The messages of all blocks, in order.
unfoldable pub units_in : String → List Block → List Json
units_in key [] = []
units_in key (b ∷ bs) = units_at key b ++ units_in key bs

units_at-payload :
    (key : String) (vs : List Json) (payload : Fields) (b : Block)
    → b.payload ≡ some (set_field key (array (to_items vs)) payload)
    → units_at key b ≡ vs
unfolding units_at
units_at-payload key vs payload b h =
    rw (units_at, h) (rw (units_at, list_at-set_field key vs payload) refl)

pub units_in-append :
    (key : String) (bs cs : List Block)
    → units_in key (bs ++ cs) ≡ units_in key bs ++ units_in key cs
unfolding units_in
units_in-append key [] cs = refl
units_in-append key (b ∷ bs) cs =
    ap (◌++◌ (units_at key b)) (units_in-append key bs cs)
    ∙ sym (append_assoc (units_at key b) (units_in key bs) (units_in key cs))

module _ (config : Config) where
  -- A message that fits in a segment with the JSON around it.
  abbrev pub IsSmall : Json → Type 0
  IsSmall unit = leb (count (printed (unit ∷ []))) config.max_chars_per_segment ≡ true

  units-small :
      (index : ℕ) (units : List Json)
      → Every IsSmall units
      → extend_from (λ _ unit. split_oversized_unit config unit) index units ≡ some units
  unfolding extend_from split_oversized_unit
  units-small index [] small = refl
  units-small index (u ∷ us) small = rw (small.0, units-small (index + 1) us small.1) refl

  chunk_blocks-units :
      (block : Block) (payload : Fields) (key : String) (warnings : List String) (index : ℕ)
      (chunks : List (List Json))
      → units_in key (enumerate_from (chunk_block config block payload key warnings) index chunks)
        ≡ concat chunks
  unfolding units_in concat enumerate_from
  chunk_blocks-units block payload key warnings index [] = refl
  chunk_blocks-units block payload key warnings index (chunk ∷ chunks) =
      rw
        (
          units_at-payload key chunk payload
              (chunk_block config block payload key warnings index chunk) refl,
          chunk_blocks-units block payload key warnings (index + 1) chunks,
        )
        refl

  split_payload-units :
      (block : Block) (payload : Fields) (key warning : String) (unit : Json) (units : List Json)
      → session_units payload ≡ some (key, unit ∷ units)
      → Every IsSmall (unit ∷ units)
      → (blocks : List Block) × (split_oversized_payload_block config block payload warning
          ≡ some blocks)
        × (units_in key blocks ≡ unit ∷ units)
  unfolding split_oversized_payload_block unit_chunks
  split_payload-units block payload key warning unit units h small =
      let warnings : List String =
        warning ∷ (str_append "oversized_turn_group:" block.title) ∷ [] in
      let size = λ (part : Json). count (printed (part ∷ [])) in
      let chunks =
        pack size (λ (len : ℕ) part. ltb config.max_chars_per_segment (len + size part))
          (unit ∷ units) in
      (
        enumerate_from (chunk_block config block payload key warnings) 0 chunks,
        rw (split_oversized_payload_block, h) (rw (units-small 0 (unit ∷ units) small) refl),
        chunk_blocks-units block payload key warnings 0 chunks ∙ concat-pack _ _ (unit ∷ units),
      )

  -- A call that returns blocks with these messages.
  abbrev pub Holds : String → List Json → Option (List Block) → Type 0
  Holds key units result =
      (blocks : List Block) × (result ≡ some blocks) × (units_in key blocks ≡ units)

  split_turn_block-units :
      (payload : Fields) (key : String) (units : List Json) (unit : Json) (group : List Json)
      → session_units payload ≡ some (key, units)
      → Every IsSmall (unit ∷ group)
      → Holds key (unit ∷ group) (split_turn_block config payload key (unit ∷ group))
  unfolding split_turn_block units_in
  split_turn_block-units payload key units unit group h small =
      let block = turn_block payload key (unit ∷ group) in
      elim (Bool-cases (leb (count block.text) config.max_chars_per_segment)) [
        | inl short ↦ (
          block ∷ [],
          rw short refl,
          append-nil (units_at key block) ∙ units_at-payload key (unit ∷ group) payload block refl,
        )
        | inr long ↦ rw long (
            split_payload-units block (set_field key (array (to_items (unit ∷ group))) payload) key
              (hard_split_warning turns block) unit group
              (session_units-set_field payload key units (unit ∷ group) h) small)
      ]

  groups-units :
      (payload : Fields) (key : String) (units : List Json) (index : ℕ) (groups : List (List Json))
      → session_units payload ≡ some (key, units)
      → Every (λ g. is_nil g ≡ false) groups
      → Every IsSmall (concat groups)
      → Holds key
          (concat groups)
          (extend_from (λ _ group. split_turn_block config payload key group) index groups)
  unfolding extend_from concat units_in
  groups-units payload key units index [] h filled small = ([], refl, refl)
  groups-units payload key units index ([] ∷ gs) h filled small = cc (filled.0)
  groups-units payload key units index ((u ∷ us) ∷ gs) h filled small =
      let (small_here, small_later) = Every-split IsSmall (u ∷ us) (concat gs) small in
      let (blocks, e, held) = split_turn_block-units payload key units u us h small_here in
      let (later, e', held') =
        groups-units payload key units (index + 1) gs h filled.1 small_later in
      (blocks ++ later, rw (e, e') refl, units_in-append key blocks later ∙ rw (held, held') refl)

  -- The blocks of a chat none of whose messages is too long for a segment hold its messages, each
  -- once, unchanged and in order.
  pub turn_blocks-units :
      (repr : Json → String) (payload : Fields) (source key : String) (unit : Json)
      (units : List Json)
      → session_units payload ≡ some (key, unit ∷ units)
      → Every IsSmall (unit ∷ units)
      → Holds key (unit ∷ units) (turn_blocks repr config (some (object payload)) source)
  unfolding turn_blocks turn_groups
  turn_blocks-units repr payload source key unit units h small =
      let groups = turn_groups repr (unit ∷ units) in
      let same : concat groups ≡ unit ∷ units = concat-pack _ _ (unit ∷ units) in
      let held =
        groups-units payload key (unit ∷ units) 0 groups h (pack-filled _ _ (unit ∷ units))
          (subst (Every IsSmall) (sym same) small) in
      rw (turn_blocks, h)
        (subst
          (λ us.
            Holds key us
              (extend_from (λ _ group. split_turn_block config payload key group) 0 groups))
          same held)
