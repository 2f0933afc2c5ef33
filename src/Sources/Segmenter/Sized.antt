-- ===== src/Sources/Segmenter/Sized.antt =====
-- pipelines/source_segmentation.py: how `_pack_blocks` fills the segments, and how long one can get.
use Prim.Native.String.{◌++◌, count}
use knoarbor.Prelude.{ℕ, ◌+◌, ◌*◌, ◌≤◌, ◌≡◌, false, List, [], ◌∷◌, arith, map, Every, length}
use knoarbor.Text.{join, count-append, count-strip}
use knoarbor.Sources.Packing.{
  total, pack, concat, concat-pack, is_nil, pack-filled, pack-sized, Forced, pack-Forced,
}
use knoarbor.Sources.Blocks.{Config, Block}
use knoarbor.Sources.Outlines.{block_size, is_full, pack_blocks, content_of}

-- The contract of the packing. The gaps that joining puts between two blocks are not counted.
pub record IsPacking (config : Config) (blocks : List Block) (packed : List (List Block))
    : Type 0 where
  pub kept : concat packed ≡ blocks
  pub filled : Every (λ g. is_nil g ≡ false) packed
  pub sized : Every (λ g. total block_size g ≤ config.max_chars_per_segment) packed
  pub content :
      Every (λ g. count (content_of g) + 2 ≤ config.max_chars_per_segment + 2 * length g) packed
  pub forced : Forced block_size (is_full config) packed

-- What is left of room below the limit of characters.
has_room :
    (config : Config) (current_len : ℕ) (block : Block)
    → is_full config current_len block ≡ false
    → current_len + block_size block ≤ config.max_chars_per_segment
has_room config current_len block h = ground (arith, h)

count-join :
    (b : Block) (bs : List Block)
    → count (join "\n\n" (map (λ (x : Block). x.text) (b ∷ bs))) + 2
      ≡ total block_size (b ∷ bs) + 2 * length (b ∷ bs)
unfolding join total
count-join b [] = omega arith
count-join b (c ∷ cs) =
    let rest = join "\n\n" (map (λ (x : Block). x.text) (c ∷ cs)) in
    omega (arith, count-append b.text ("\n\n" ++ rest), count-append "\n\n" rest, count-join c cs)

content-le :
    (config : Config) (groups : List (List Block))
    → Every (λ g. is_nil g ≡ false) groups
    → Every (λ g. total block_size g ≤ config.max_chars_per_segment) groups
    → Every (λ g. count (content_of g) + 2 ≤ config.max_chars_per_segment + 2 * length g) groups
unfolding content_of
content-le config [] filled sized = tt
content-le config ([] ∷ gs) filled sized = cc (filled.0)
content-le config ((b ∷ bs) ∷ gs) filled sized = (
  omega (
    arith,
    count-join b bs,
    sized.0,
    count-strip (join "\n\n" (map (λ (x : Block). x.text) (b ∷ bs))),
  ),
  content-le config gs filled.1 sized.1,
)

-- Blocks that are not too long are packed so that nothing is lost or moved, no segment is empty, the
-- sizes of its blocks keep within the limit, a segment is closed only before a block that found it
-- full, and its content is longer than the limit by at most two characters for each gap between blocks.
pub pack_blocks-IsPacking :
    (config : Config) (blocks : List Block)
    → Every (λ b. count b.text ≤ config.max_chars_per_segment) blocks
    → IsPacking config blocks (pack_blocks config blocks).0
unfolding pack_blocks
pack_blocks-IsPacking config blocks small =
    let filled = pack-filled block_size (is_full config) blocks in
    let sized =
      pack-sized block_size (is_full config) config.max_chars_per_segment (has_room config) blocks
        small in
    record {
      kept = concat-pack block_size (is_full config) blocks;
      filled = filled;
      sized = sized;
      content = content-le config (pack block_size (is_full config) blocks) filled sized;
      forced = pack-Forced block_size (is_full config) blocks;
    }
