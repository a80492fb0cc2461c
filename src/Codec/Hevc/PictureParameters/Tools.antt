-- ===== src/Codec/Hevc/PictureParameters/Tools.antt =====
-- The tools and the tiles of the picture parameter set of src/codec/hevc.cc.
use qualcomm_iris_vaapi.Base.{
  ℕ, zero, suc, ◌+◌, ◌%◌, ◌^◌, ◌<◌, ◌≡◌, refl, not, min, List, [], ◌∷◌, arith, if◌then◌else◌,
  get_or,
}
use qualcomm_iris_vaapi.Codec.Syntax.{on}
use qualcomm_iris_vaapi.Codec.Syntax.Codes.{
  Codes, Reads, read_bit, read_then, read_pure, then-Codes, mapped-Codes, bit-Codes, skip-Codes,
}
use qualcomm_iris_vaapi.Codec.Syntax.Unsigned.{read_ue, ue-Codes}
use qualcomm_iris_vaapi.Codec.Hevc.{HevcPicture}
use qualcomm_iris_vaapi.Codec.Hevc.ParameterSets.{tile_lengths, pps_tiles}
use qualcomm_iris_vaapi.Codec.Syntax.Signed.{flag-Codes, read_if, if-Codes}
use qualcomm_iris_vaapi.Codec.Hevc.PictureParameters.Flags.{InRange}

-- As many lengths as `n` tells.
abbrev pub read_lengths : ℕ → Reads (List ℕ)
read_lengths zero = read_pure []
read_lengths (suc n) =
    read_then read_ue
      (λ length. read_then (read_lengths n) (λ lengths. read_pure (length ∷ lengths)))

-- The lengths from `i` on, `left` of them.
abbrev pub lengths_from : ℕ → ℕ → List ℕ → List ℕ
lengths_from zero i lengths = []
lengths_from (suc left) i lengths = get_or lengths i 0 ∷ lengths_from left (i + 1) lengths

lengths-Codes :
    (left i : ℕ) (lengths : List ℕ)
    → ((j : ℕ) → get_or lengths j 0 < 2 ^ 16)
    → Codes (read_lengths left) (tile_lengths left i lengths) (lengths_from left i lengths)
unfolding tile_lengths
lengths-Codes zero i lengths h = skip-Codes []
lengths-Codes (suc left) i lengths h =
    then-Codes _ (ue-Codes (get_or lengths i 0) (omega (arith, h i)))
      (mapped-Codes _ _ (lengths-Codes left (i + 1) lengths h) refl)

-- The tiles, by the sizes of all columns and rows but the last.
pub record PpsTiles : Type 0 where
  pub uniform : ℕ
  pub columns : List ℕ
  pub rows : List ℕ
  pub loop_filter_across : ℕ

abbrev pub one_tile : PpsTiles
one_tile = record { uniform = 1; columns = []; rows = []; loop_filter_across = 1 }

-- The tiles of equal size have no lengths.
abbrev pub read_tile_grid : Reads PpsTiles
read_tile_grid = read_then read_ue (λ columns. read_then read_ue (λ rows.
    read_then read_bit (λ uniform.
      read_then (read_if (not (on uniform)) [] (read_lengths columns)) (λ widths.
        read_then (read_if (not (on uniform)) [] (read_lengths rows)) (λ heights.
          read_then read_bit (λ across. read_pure (record {
            uniform = uniform;
            columns = widths;
            rows = heights;
            loop_filter_across = across;
          })))))))

pub record PpsTools : Type 0 where
  pub slice_chroma_qp_offsets_present : ℕ
  pub weighted_pred : ℕ
  pub weighted_bipred : ℕ
  pub transquant_bypass : ℕ
  pub tiles_enabled : ℕ
  pub entropy_coding_sync : ℕ
  pub tiles : PpsTiles

abbrev pub read_tools : Reads PpsTools
read_tools = read_then read_bit (λ chroma. read_then read_bit (λ pred. read_then read_bit (λ bipred.
    read_then read_bit (λ bypass. read_then read_bit (λ tiled. read_then read_bit (λ sync.
      read_then (read_if (on tiled) one_tile read_tile_grid) (λ tiles. read_pure (record {
        slice_chroma_qp_offsets_present = chroma;
        weighted_pred = pred;
        weighted_bipred = bipred;
        transquant_bypass = bypass;
        tiles_enabled = tiled;
        entropy_coding_sync = sync;
        tiles = tiles;
      }))))))))

abbrev pub grid_of : HevcPicture → PpsTiles
grid_of p = record {
  uniform = 0;
  columns = lengths_from p.num_tile_columns_minus1 0 p.column_width_minus1;
  rows = lengths_from p.num_tile_rows_minus1 0 p.row_height_minus1;
  loop_filter_across = p.pic.loop_filter_across_tiles_enabled_flag % 2;
}

abbrev pub tools_of : HevcPicture → PpsTools
tools_of p = record {
  slice_chroma_qp_offsets_present = p.slice.pps_slice_chroma_qp_offsets_present_flag % 2;
  weighted_pred = p.pic.weighted_pred_flag % 2;
  weighted_bipred = p.pic.weighted_bipred_flag % 2;
  transquant_bypass = p.pic.transquant_bypass_enabled_flag % 2;
  tiles_enabled = p.pic.tiles_enabled_flag;
  entropy_coding_sync = p.pic.entropy_coding_sync_enabled_flag % 2;
  tiles = if on p.pic.tiles_enabled_flag then grid_of p else one_tile;
}

pub tools-Codes : (p : HevcPicture) → InRange p → Codes read_tools (pps_tiles p) (tools_of p)
unfolding pps_tiles
tools-Codes p h =
    let columns : min p.num_tile_columns_minus1 19 ≡ p.num_tile_columns_minus1 =
      omega (arith, h.columns) in
    let rows : min p.num_tile_rows_minus1 21 ≡ p.num_tile_rows_minus1 = omega (arith, h.rows) in
    then-Codes _ (bit-Codes p.slice.pps_slice_chroma_qp_offsets_present_flag) (
      then-Codes _ (bit-Codes p.pic.weighted_pred_flag) (
        then-Codes _ (bit-Codes p.pic.weighted_bipred_flag) (
          then-Codes _ (bit-Codes p.pic.transquant_bypass_enabled_flag) (
            then-Codes _ (flag-Codes p.pic.tiles_enabled_flag h.tiles) (
              then-Codes _ (bit-Codes p.pic.entropy_coding_sync_enabled_flag) (
                mapped-Codes _ _
                  (if-Codes (on p.pic.tiles_enabled_flag) one_tile {a = grid_of p} (
                    rw (columns, rows)
                      (then-Codes _ (ue-Codes p.num_tile_columns_minus1 (omega (arith, h.columns)))
                        (then-Codes _ (ue-Codes p.num_tile_rows_minus1 (omega (arith, h.rows))) (
                          then-Codes _ (bit-Codes 0) (
                            then-Codes _ (lengths-Codes _ 0 p.column_width_minus1 h.widths) (
                              then-Codes _ (lengths-Codes _ 0 p.row_height_minus1 h.heights) (
                                mapped-Codes _ _
                                  (bit-Codes p.pic.loop_filter_across_tiles_enabled_flag)
                                  refl))))))))
                  refl))))))
