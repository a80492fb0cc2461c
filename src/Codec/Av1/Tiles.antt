-- ===== src/Codec/Av1/Tiles.antt =====
-- src/codec/av1_obu.cc: the tile layout.
pub mod Logs
use qualcomm_iris_vaapi.Base.{
  ℕ, zero, suc, ◌+◌, ◌-◌, ◌*◌, ◌/◌, ◌%◌, ◌^◌, min, max, Bool, ◌&&◌, List, ltb, leb, if◌then◌else◌,
  get_or,
}
use qualcomm_iris_vaapi.Codec.Writer.{BitWriter}
use qualcomm_iris_vaapi.Codec.Syntax.{Write, ◌>>◌, on, bit, bits, ns, skip, when}
use qualcomm_iris_vaapi.Codec.Av1.Picture.{
  Picture, Outcome, built, ◌>>=◌, require, tile_columns, tile_rows_count,
}
use qualcomm_iris_vaapi.Codec.Av1.Sequence.{ceil_log2}

-- The rounds of `while ((blk_size << k) < target) ++k`, on fuel.
unfoldable pub tile_log2_fuel : ℕ → ℕ → ℕ → ℕ → ℕ
tile_log2_fuel zero k blk_size target = k
tile_log2_fuel (suc f) k blk_size target =
    let next = tile_log2_fuel f (k + 1) blk_size target in
    if ltb (blk_size * 2 ^ k % 2 ^ 32) target then next else k

unfoldable pub tile_log2 : ℕ → ℕ → ℕ
unfolding tile_log2_fuel
tile_log2 blk_size target = tile_log2_fuel 32 0 blk_size target

abbrev pub superblocks : Picture → ℕ → ℕ
superblocks p mi = if on p.seq.use_128x128_superblock then (mi + 31) / 32 else (mi + 15) / 16

abbrev pub sb_size : Picture → ℕ
sb_size p = if on p.seq.use_128x128_superblock then 7 else 6

abbrev pub max_tile_width_sb : Picture → ℕ
max_tile_width_sb p = 4096 / 2 ^ sb_size p

abbrev pub max_tile_area_sb : Picture → ℕ
max_tile_area_sb p = 4096 * 2304 / 2 ^ (2 * sb_size p)

-- `rounds` bits at most, from `i` on: a one for each step below `log2`, and a zero at it.
unfoldable pub increments : ℕ → ℕ → ℕ → Write
increments zero i log2 = skip
increments (suc rounds) i log2 =
    let rest = increments rounds (i + 1) log2 in if ltb i log2 then bit 1 >> rest else bit 0

-- The tiles of one axis, `left` of them at most, each at most `limit` wide.
unfoldable pub tile_sizes : ℕ → ℕ → ℕ → ℕ → ℕ → List ℕ → Write
tile_sizes zero i start_sb sbs limit sizes = skip
tile_sizes (suc left) i start_sb sbs limit sizes =
    let size = get_or sizes i 0 in
    let rest = tile_sizes left (i + 1) (start_sb + size + 1) sbs limit sizes in
    if ltb start_sb sbs then ns size (min (sbs - start_sb) limit) >> rest else skip

abbrev pub within : ℕ → ℕ → ℕ → Bool
within low value high = leb low value && leb value high

abbrev pub min_log2_cols : Picture → ℕ → ℕ
min_log2_cols p sb_cols = tile_log2 (max_tile_width_sb p) sb_cols

abbrev pub min_log2_rows : Picture → ℕ → ℕ → ℕ
min_log2_rows p sb_cols sb_rows =
    max (min_log2_cols p sb_cols) (tile_log2 (max_tile_area_sb p) (sb_rows * sb_cols))
    - ceil_log2 p.tile_cols

-- The branch of uniform spacing.
unfoldable pub uniform_tiles : Picture → ℕ → ℕ → BitWriter → Outcome BitWriter
unfolding increments
uniform_tiles p sb_cols sb_rows w = do
  ok ←
      require
        (within (min_log2_cols p sb_cols) (ceil_log2 p.tile_cols) (tile_log2 1 (min sb_cols 64)))
        tile_columns
  let low = min_log2_cols p sb_cols
  let w' = increments (tile_log2 1 (min sb_cols 64) - low) low (ceil_log2 p.tile_cols) w
  let low' = min_log2_rows p sb_cols sb_rows
  let high' = tile_log2 1 (min sb_rows 64)
  ok ← require (within low' (ceil_log2 p.tile_rows) high') tile_rows_count
  built (increments (high' - low') low' (ceil_log2 p.tile_rows) w')

unfoldable pub explicit_tiles : Picture → ℕ → ℕ → Write
unfolding tile_sizes
explicit_tiles p sb_cols sb_rows = do
  tile_sizes p.tile_cols 0 0 sb_cols (max_tile_width_sb p) p.width_in_sbs_minus_1
  tile_sizes p.tile_rows 0 0 sb_rows sb_rows p.height_in_sbs_minus_1

-- The tile that updates the contexts, and four-byte tile sizes.
unfoldable pub tile_context : Picture → Write
tile_context p =
    let total = ceil_log2 p.tile_rows + ceil_log2 p.tile_cols in
    when (ltb 0 total) (bits p.context_update_tile_id total >> bits 3 2)

unfoldable pub write_tile_info : Picture → ℕ → ℕ → BitWriter → Outcome BitWriter
unfolding uniform_tiles explicit_tiles tile_context
write_tile_info p mi_cols mi_rows w = do
  let sb_cols = superblocks p mi_cols
  let sb_rows = superblocks p mi_rows
  let w' = bit p.pic.uniform_tile_spacing_flag w
  w'' ←
      if on p.pic.uniform_tile_spacing_flag
      then uniform_tiles p sb_cols sb_rows w'
      else built (explicit_tiles p sb_cols sb_rows w')
  built (tile_context p w'')
