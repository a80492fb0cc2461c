-- ===== src/Codec/Av1/Unit/TileSizes.antt =====
-- The tile group of src/codec/av1_obu.cc against a reader that goes by the tile sizes in it.
use qualcomm_iris_vaapi.Base.{
  ℕ, zero, suc, ◌+◌, ◌-◌, ◌*◌, ◌^◌, ◌≤◌, ◌<◌, ◌≡◌, refl, ap, List, [], ◌∷◌, ◌++◌, map, arith,
  length, length-drop, drop, All,
}
use qualcomm_iris_vaapi.Codec.Av1.Picture.{TileEntry}
use qualcomm_iris_vaapi.Codec.Av1.Motion.{sub_u32}
use qualcomm_iris_vaapi.Codec.Av1.Unit.{take, tile_bytes, le32, tile_payload}
use qualcomm_iris_vaapi.Codec.Av1.Unit.Framing.{take-append, drop-append}

-- Four bytes, the lowest first.
abbrev pub read_le32 : List ℕ → ℕ
read_le32 (a ∷ b ∷ c ∷ d ∷ rest) = a + 256 * (b + 256 * (c + 256 * d))
read_le32 _ = 0

-- As many tiles as are asked for; the last one is what is left.
abbrev pub read_tiles : ℕ → List ℕ → List (List ℕ)
read_tiles zero bs = []
read_tiles (suc zero) bs = bs ∷ []
read_tiles (suc (suc n)) bs =
    let size = read_le32 bs + 1 in
    take size (drop 4 bs) ∷ read_tiles (suc n) (drop size (drop 4 bs))

-- The tile is not empty, its size has 32 bits, and it lies in the data.
pub record InData (tile_data : List ℕ) (tile : TileEntry) : Type 0 where
  pub some_bytes : 0 < tile.size
  pub fits : tile.size < 2 ^ 32
  pub inside : tile.offset + tile.size ≤ length tile_data

length-take : (n : ℕ) (bs : List ℕ) → n ≤ length bs → length (take n bs) ≡ n
length-take zero bs h = refl
length-take (suc n) [] h = absurd (omega arith)
length-take (suc n) (b ∷ bs) h = ap suc (length-take n bs (omega arith))

length-tile_bytes :
    (tile_data : List ℕ) (tile : TileEntry)
    → InData tile_data tile
    → length (tile_bytes tile_data tile) ≡ tile.size
length-tile_bytes tile_data tile h =
    length-take tile.size (drop tile.offset tile_data)
      (omega (arith, h.inside, length-drop tile.offset tile_data))

read_le32-le32 : (n : ℕ) (rest : List ℕ) → n < 2 ^ 32 → read_le32 (le32 n ++ rest) ≡ n
read_le32-le32 n rest h = omega arith

-- The sizes in front of all tiles but the last lead a reader, which knows the number of tiles, to the bytes of each tile, where every tile is not empty, has a size of 32 bits and lies in the data.
pub read_tiles-tile_payload :
    (tile_data : List ℕ) (tiles : List TileEntry)
    → All (InData tile_data) tiles
    → read_tiles (length tiles) (tile_payload tile_data tiles) ≡ map (tile_bytes tile_data) tiles
unfolding tile_payload
read_tiles-tile_payload tile_data [] h = refl
read_tiles-tile_payload tile_data (tile ∷ []) h = refl
read_tiles-tile_payload tile_data (tile ∷ next ∷ tiles) (first, rest) =
    let less : sub_u32 tile.size 1 ≡ tile.size - 1 = omega (arith, first.fits, first.some_bytes) in
    let bytes = tile_bytes tile_data tile in
    let after = tile_payload tile_data (next ∷ tiles) in
    let size : read_le32 (le32 (tile.size - 1) ++ (bytes ++ after)) + 1 ≡ length bytes = omega (
      arith,
      read_le32-le32 (tile.size - 1) (bytes ++ after) (omega (arith, first.fits)),
      first.some_bytes,
      length-tile_bytes tile_data tile first,
    ) in
    rw (less, size, take-append bytes after, drop-append bytes after)
      (ap (λ t. bytes ∷ t) (read_tiles-tile_payload tile_data (next ∷ tiles) rest))
