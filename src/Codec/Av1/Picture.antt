-- ===== src/Codec/Av1/Picture.antt =====
-- src/codec/av1_obu.h, and the fields of VADecPictureParameterBufferAV1 that are read.
use qualcomm_iris_vaapi.Base.{ℕ, Bool, true, false, List}
use qualcomm_iris_vaapi.Base.Int.{ℤ}

pub record SequenceFields : Type 0 where
  pub still_picture : ℕ
  pub use_128x128_superblock : ℕ
  pub enable_filter_intra : ℕ
  pub enable_intra_edge_filter : ℕ
  pub enable_interintra_compound : ℕ
  pub enable_masked_compound : ℕ
  pub enable_dual_filter : ℕ
  pub enable_order_hint : ℕ
  pub enable_jnt_comp : ℕ
  pub enable_cdef : ℕ
  pub mono_chrome : ℕ
  pub color_range : ℕ
  pub subsampling_x : ℕ
  pub subsampling_y : ℕ
  pub film_grain_params_present : ℕ

pub record PictureFields : Type 0 where
  pub frame_type : ℕ
  pub show_frame : ℕ
  pub showable_frame : ℕ
  pub error_resilient_mode : ℕ
  pub disable_cdf_update : ℕ
  pub allow_screen_content_tools : ℕ
  pub force_integer_mv : ℕ
  pub allow_intrabc : ℕ
  pub use_superres : ℕ
  pub allow_high_precision_mv : ℕ
  pub is_motion_mode_switchable : ℕ
  pub use_ref_frame_mvs : ℕ
  pub disable_frame_end_update_cdf : ℕ
  pub uniform_tile_spacing_flag : ℕ
  pub allow_warped_motion : ℕ
  pub large_scale_tile : ℕ

pub record ModeControl : Type 0 where
  pub delta_q_present_flag : ℕ
  pub log2_delta_q_res : ℕ
  pub delta_lf_present_flag : ℕ
  pub log2_delta_lf_res : ℕ
  pub delta_lf_multi : ℕ
  pub tx_mode : ℕ
  pub reference_select : ℕ
  pub reduced_tx_set_used : ℕ
  pub skip_mode_present : ℕ

pub record SegmentInfo : Type 0 where
  pub enabled : ℕ
  pub update_map : ℕ
  pub temporal_update : ℕ
  pub update_data : ℕ
  pub feature_mask : List ℕ
  pub feature_data : List (List ℤ)

pub record QuantizerMatrix : Type 0 where
  pub using_qmatrix : ℕ
  pub qm_y : ℕ
  pub qm_u : ℕ
  pub qm_v : ℕ

pub record LoopFilter : Type 0 where
  pub sharpness_level : ℕ
  pub mode_ref_delta_enabled : ℕ
  pub mode_ref_delta_update : ℕ

pub record LoopRestoration : Type 0 where
  pub yframe_restoration_type : ℕ
  pub cbframe_restoration_type : ℕ
  pub crframe_restoration_type : ℕ
  pub lr_unit_shift : ℕ
  pub lr_uv_shift : ℕ

pub record WarpedMotion : Type 0 where
  pub wmtype : ℕ
  pub wmmat : List ℤ

-- A `uint8_t` or `uint16_t` is its number; the arrays are lists of their fixed length.
pub record Picture : Type 0 where
  pub profile : ℕ
  pub order_hint_bits_minus_1 : ℕ
  pub bit_depth_idx : ℕ
  pub seq : SequenceFields
  pub pic : PictureFields
  pub current_frame : ℕ
  pub frame_width_minus1 : ℕ
  pub frame_height_minus1 : ℕ
  pub ref_frame_map : List ℕ
  pub ref_frame_idx : List ℕ
  pub primary_ref_frame : ℕ
  pub order_hint : ℕ
  pub apply_grain : ℕ
  pub tile_cols : ℕ
  pub tile_rows : ℕ
  pub width_in_sbs_minus_1 : List ℕ
  pub height_in_sbs_minus_1 : List ℕ
  pub context_update_tile_id : ℕ
  pub interp_filter : ℕ
  pub filter_level : List ℕ
  pub filter_level_u : ℕ
  pub filter_level_v : ℕ
  pub loop_filter : LoopFilter
  pub ref_deltas : List ℤ
  pub mode_deltas : List ℤ
  pub base_qindex : ℕ
  pub y_dc_delta_q : ℤ
  pub u_dc_delta_q : ℤ
  pub u_ac_delta_q : ℤ
  pub v_dc_delta_q : ℤ
  pub v_ac_delta_q : ℤ
  pub qmatrix : QuantizerMatrix
  pub mode : ModeControl
  pub seg : SegmentInfo
  pub cdef_damping_minus_3 : ℕ
  pub cdef_bits : ℕ
  pub cdef_y_strengths : List ℕ
  pub cdef_uv_strengths : List ℕ
  pub superres_scale_denominator : ℕ
  pub lr : LoopRestoration
  pub wm : List WarpedMotion

-- AV1ReferenceState: for each slot the order hint, and the motion parameters of each reference.
pub record ReferenceState : Type 0 where
  pub order_hint : List ℕ
  pub gm_params : List (List (List ℤ))
  pub gm_valid : List Bool

-- AV1SequenceState
pub record SequenceState : Type 0 where
  pub max_frame_width : ℕ
  pub max_frame_height : ℕ
  pub frame_width_bits : ℕ
  pub frame_height_bits : ℕ
  pub seq_level_idx : ℕ
  pub separate_uv_delta_q : Bool
  pub valid : Bool

-- AV1TileEntry
pub record TileEntry : Type 0 where
  pub offset : ℕ
  pub size : ℕ

-- The reasons for which a frame is rejected, in the order of the source.
pub data Reject : Type 0 where
  tile_columns tile_rows_count cdef_strength motion_type no_sequence other_profile film_grain :
      Reject
  large_scale switch_size superres_denominator tile_payloads : Reject

pub data Outcome (A : Type 0) : Type 0 where
  built : A → Outcome A
  rejected : Reject → Outcome A

infixl 5 ◌>>=◌
unfoldable pub ◌>>=◌ : {A B : Type 0} → Outcome A → (A → Outcome B) → Outcome B
built a >>= f = f a
rejected r >>= f = rejected r

unfoldable pub require : Bool → Reject → Outcome (Unit {0})
require true r = built tt
require false r = rejected r
