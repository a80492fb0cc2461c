-- ===== src/Codec/Av1/Examples.antt =====
-- A small AV1 stream on which the theorems are applied.
use qualcomm_iris_vaapi.Base.{
  ℕ, ◌<◌, flag, ◌≡◌, refl, true, false, List, [], ◌∷◌, some, replicate, arith, map,
}
use qualcomm_iris_vaapi.Base.Int.{pos, negsuc}
use qualcomm_iris_vaapi.Codec.Av1.Picture.{
  SequenceFields, PictureFields, Picture, ReferenceState, TileEntry, built,
}
use qualcomm_iris_vaapi.Codec.Av1.Motion.{default_gm_params}
use qualcomm_iris_vaapi.Codec.Av1.Sequence.{av1_sequence_state}
use qualcomm_iris_vaapi.Codec.Av1.Unit.{av1_build_temporal_unit}
use qualcomm_iris_vaapi.Codec.Reader.Stream.{stream}
use qualcomm_iris_vaapi.Codec.Syntax.Codes.{Codes}
use qualcomm_iris_vaapi.Codec.Av1.Sequence.{ceil_log2, build_sequence_header, write_color_config}
use qualcomm_iris_vaapi.Codec.Av1.Sequence.Colors.{
  Colors, colors_of, read_colors_bit, read_sequence_header, sequence_of,
  read_sequence_header-build_sequence_header, write_color_config-monochrome,
}
use qualcomm_iris_vaapi.Codec.Av1.Sequence.RoundTrip.{Sized}
use qualcomm_iris_vaapi.Codec.Av1.Sequence.Bounds.{av1_sequence_state-Sized}
use qualcomm_iris_vaapi.Codec.Av1.Tiles.{tile_log2}
use qualcomm_iris_vaapi.Codec.Av1.Tiles.Logs.{Least, tile_log2-Least, tile_log2-ceil_log2}
use qualcomm_iris_vaapi.Codec.Av1.Motion.{refreshes, write_signed_subexp_with_ref}
use qualcomm_iris_vaapi.Codec.Av1.Motion.Subexp.{read_signed, write_signed_subexp_with_ref-Codes}
use qualcomm_iris_vaapi.Codec.Av1.Unit.{tile_payload, tile_bytes}
use qualcomm_iris_vaapi.Codec.Av1.Unit.TileSizes.{read_tiles, read_tiles-tile_payload}
use qualcomm_iris_vaapi.Codec.Av1.Unit.Rebuilt.{Rebuilt, av1_build_temporal_unit-Rebuilt}
use qualcomm_iris_vaapi.Codec.Av1.Translation.{
  Submission, AccessUnit, Held, Translator, previous_refresh, translate,
}
use qualcomm_iris_vaapi.Codec.Av1.Translation.Order.{Delivered, play, play-Delivered}
use qualcomm_iris_vaapi.Codec.Av1.Translation.Slots.{holds, refreshes-previous_refresh}
use qualcomm_iris_vaapi.Codec.Av1.Translation.Units.{LetsGo, sequence_behind, translate-LetsGo}
use qualcomm_iris_vaapi.Codec.Writer
use qualcomm_iris_vaapi.Codec.Syntax
use qualcomm_iris_vaapi.Codec.Av1.Picture
use qualcomm_iris_vaapi.Codec.Av1.Sequence
use qualcomm_iris_vaapi.Codec.Av1.Tiles
use qualcomm_iris_vaapi.Codec.Av1.Quantization
use qualcomm_iris_vaapi.Codec.Av1.Motion
use qualcomm_iris_vaapi.Codec.Av1.Header
use qualcomm_iris_vaapi.Codec.Av1.Header.SkipMode
use qualcomm_iris_vaapi.Codec.Av1.Unit

abbrev fields : SequenceFields
fields = record {
  still_picture = 0;
  use_128x128_superblock = 0;
  enable_filter_intra = 1;
  enable_intra_edge_filter = 1;
  enable_interintra_compound = 0;
  enable_masked_compound = 0;
  enable_dual_filter = 1;
  enable_order_hint = 1;
  enable_jnt_comp = 1;
  enable_cdef = 1;
  mono_chrome = 0;
  color_range = 0;
  subsampling_x = 1;
  subsampling_y = 1;
  film_grain_params_present = 0;
}

abbrev key_fields : PictureFields
key_fields = record {
  frame_type = 0;
  show_frame = 1;
  showable_frame = 0;
  error_resilient_mode = 1;
  disable_cdf_update = 0;
  allow_screen_content_tools = 0;
  force_integer_mv = 0;
  allow_intrabc = 0;
  use_superres = 0;
  allow_high_precision_mv = 0;
  is_motion_mode_switchable = 0;
  use_ref_frame_mvs = 0;
  disable_frame_end_update_cdf = 0;
  uniform_tile_spacing_flag = 1;
  allow_warped_motion = 0;
  large_scale_tile = 0;
}

-- A key frame of 128 by 64 pixels on the surface 7.
abbrev key_frame : Picture
key_frame = record {
  profile = 0;
  order_hint_bits_minus_1 = 6;
  bit_depth_idx = 0;
  seq = fields;
  pic = key_fields;
  current_frame = 7;
  frame_width_minus1 = 127;
  frame_height_minus1 = 63;
  ref_frame_map = replicate 8 0xffffffff;
  ref_frame_idx = replicate 7 0;
  primary_ref_frame = 7;
  order_hint = 0;
  apply_grain = 0;
  tile_cols = 1;
  tile_rows = 1;
  width_in_sbs_minus_1 = [];
  height_in_sbs_minus_1 = [];
  context_update_tile_id = 0;
  interp_filter = 0;
  filter_level = 8 ∷ 8 ∷ [];
  filter_level_u = 4;
  filter_level_v = 4;
  loop_filter = record {
    sharpness_level = 0;
    mode_ref_delta_enabled = 0;
    mode_ref_delta_update = 0;
  };
  ref_deltas = replicate 8 (pos 0);
  mode_deltas = replicate 2 (pos 0);
  base_qindex = 100;
  y_dc_delta_q = negsuc 2;
  u_dc_delta_q = pos 0;
  u_ac_delta_q = pos 0;
  v_dc_delta_q = pos 0;
  v_ac_delta_q = pos 0;
  qmatrix = record { using_qmatrix = 0; qm_y = 0; qm_u = 0; qm_v = 0 };
  mode = record {
    delta_q_present_flag = 0;
    log2_delta_q_res = 0;
    delta_lf_present_flag = 0;
    log2_delta_lf_res = 0;
    delta_lf_multi = 0;
    tx_mode = 2;
    reference_select = 0;
    reduced_tx_set_used = 0;
    skip_mode_present = 0;
  };
  seg = record {
    enabled = 0;
    update_map = 0;
    temporal_update = 0;
    update_data = 0;
    feature_mask = replicate 8 0;
    feature_data = replicate 8 (replicate 8 (pos 0));
  };
  cdef_damping_minus_3 = 1;
  cdef_bits = 0;
  cdef_y_strengths = 9 ∷ [];
  cdef_uv_strengths = 5 ∷ [];
  superres_scale_denominator = 8;
  lr = record {
    yframe_restoration_type = 0;
    cbframe_restoration_type = 0;
    crframe_restoration_type = 0;
    lr_unit_shift = 0;
    lr_uv_shift = 0;
  };
  wm = replicate 7 (record { wmtype = 0; wmmat = default_gm_params });
}

abbrev no_references : ReferenceState
no_references = record {
  order_hint = replicate 8 0;
  gm_params = replicate 8 (replicate 8 (replicate 6 (pos 0)));
  gm_valid = replicate 8 false;
}

abbrev one_tile : List TileEntry
one_tile = record { offset = 0; size = 3 } ∷ []

abbrev tile_data : List ℕ
tile_data = 0xaa ∷ 0xbb ∷ 0xcc ∷ []

-- An inter frame behind it that finds the key frame's surface in the slots 0 and 2.
abbrev inter_frame : Picture
inter_frame = record key_frame {
  pic = record key_fields { frame_type = 1 };
  current_frame = 9;
  ref_frame_map = 7 ∷ 3 ∷ 7 ∷ 3 ∷ 3 ∷ 3 ∷ 3 ∷ 3 ∷ [];
  order_hint = 1;
}

abbrev gray_frame : Picture
gray_frame = record key_frame { seq = record fields { mono_chrome = 1 } }

abbrev submission : Picture → ℕ → Submission
submission p surface = record {
  parameters = some p;
  slice_parameters = one_tile;
  slice_data = tile_data ∷ [];
  surface_id = surface;
}

abbrev held_key : Held
held_key = record {
  surface = 7;
  picture = key_frame;
  tiles = one_tile;
  tile_data = tile_data;
  emits_sequence_header = true;
  sequence_start = true;
}

abbrev begun : Translator
begun = record {
  sequence = av1_sequence_state key_frame;
  references = no_references;
  seen_sequence = true;
  emit_sequence_header = false;
  held = some held_key;
}

abbrev no_unit : AccessUnit
no_unit = record {
  bytes = [];
  sequence_start = false;
  deferred = false;
  released_surface = 0xffffffff;
}

abbrev two_tiles : List TileEntry
two_tiles = record { offset = 0; size = 2 } ∷ record { offset = 2; size = 1 } ∷ []

tile_log2-Least_example : Least 64 100 (tile_log2 64 100)
tile_log2-Least_example = tile_log2-Least 64 100 (omega arith) (omega arith) (omega arith)

tile_log2-ceil_log2_example : tile_log2 1 5 ≡ ceil_log2 5
tile_log2-ceil_log2_example = tile_log2-ceil_log2 5 (omega arith) (omega arith)

write_signed_subexp_with_ref-Codes_example :
    Codes
      (read_signed 4096 (pos 17))
      (write_signed_subexp_with_ref 4096 (pos 17) (negsuc 99))
      (negsuc 99)
write_signed_subexp_with_ref-Codes_example =
    write_signed_subexp_with_ref-Codes 4096 (pos 17) (negsuc 99) (omega arith) (omega arith)
      (omega arith)

read_sequence_header-build_sequence_header_example :
    (k : ℕ) × (k < 8)
    × (read_sequence_header
          (stream (build_sequence_header key_frame (av1_sequence_state key_frame)))
        ≡ (sequence_of key_frame (av1_sequence_state key_frame), 1 ∷ replicate k 0))
read_sequence_header-build_sequence_header_example =
    read_sequence_header-build_sequence_header key_frame (av1_sequence_state key_frame)
      (av1_sequence_state-Sized key_frame (omega arith) (omega arith)) (omega arith)
      (record { mono = refl; horizontal = refl; vertical = refl })

write_color_config-monochrome_example :
    Codes {A = Colors × ℕ} read_colors_bit
      (write_color_config gray_frame true)
      (colors_of gray_frame 0, flag true)
write_color_config-monochrome_example = write_color_config-monochrome gray_frame true refl

av1_sequence_state-Sized_example : Sized (av1_sequence_state key_frame)
av1_sequence_state-Sized_example = av1_sequence_state-Sized key_frame (omega arith) (omega arith)

read_tiles-tile_payload_example :
    read_tiles 2 (tile_payload tile_data two_tiles) ≡ map (tile_bytes tile_data) two_tiles
read_tiles-tile_payload_example = read_tiles-tile_payload tile_data two_tiles (
  record { some_bytes = omega arith; fits = omega arith; inside = omega arith },
  (record { some_bytes = omega arith; fits = omega arith; inside = omega arith }, tt),
)

refreshes-previous_refresh_example :
    refreshes (previous_refresh inter_frame held_key) 2 ≡ holds inter_frame.ref_frame_map 7 2
refreshes-previous_refresh_example = refreshes-previous_refresh inter_frame held_key 2 (omega arith)

translate-LetsGo_example :
    LetsGo held_key
      (sequence_behind begun inter_frame)
      no_references
      (previous_refresh inter_frame held_key)
      (translate begun (submission inter_frame 9) no_unit)
translate-LetsGo_example =
    translate-LetsGo begun held_key (submission inter_frame 9) inter_frame no_unit refl refl

play-Delivered_example :
    Delivered
      (play (submission inter_frame 9 ∷ submission key_frame 7 ∷ []) begun no_unit)
      (7 ∷ 9 ∷ 7 ∷ [])
play-Delivered_example =
    play-Delivered (submission inter_frame 9 ∷ submission key_frame 7 ∷ []) begun no_unit
      ((inter_frame, refl), ((key_frame, refl), tt))

abbrev key_unit : List ℕ
key_unit =
    18 ∷ 0 ∷ 10 ∷ 10 ∷ 0 ∷ 0 ∷ 0 ∷ 3 ∷ 47 ∷ 255 ∷ 204 ∷ 255 ∷ 184 ∷ 4 ∷ 50 ∷ 15 ∷ 16 ∷ 0 ∷ 76 ∷ 159
    ∷ 160 ∷ 32 ∷ 129 ∷ 4 ∷ 4 ∷ 36 ∷ 80 ∷ 32 ∷ 170 ∷ 187 ∷ 204 ∷ []

key_unit-built :
    av1_build_temporal_unit [] key_frame
      (av1_sequence_state key_frame)
      no_references
      true
      0xff
      tile_data
      one_tile
    ≡ built key_unit
unfolding Writer.bit Writer.bits Writer.bit_width_fuel Writer.zeros Writer.ue Writer.se Writer.su
    Writer.ns Writer.le Writer.leb128_fuel Writer.leb128 Writer.pad_fuel Writer.byte_align
    Writer.trailing_bits Writer.bytes Writer.written Syntax.◌>>◌ Syntax.bit Syntax.bits Syntax.bool
    Syntax.su Syntax.ns Syntax.skip Syntax.when Syntax.either Picture.◌>>=◌ Picture.require
    Sequence.ceil_log2_fuel Sequence.ceil_log2 Sequence.size_loop Sequence.level_for_size
    Sequence.av1_sequence_state Sequence.obu_header Sequence.write_obu Sequence.write_color_config
    Sequence.sequence_sizes Sequence.sequence_tools Sequence.sequence_fields
    Sequence.build_sequence_header Tiles.tile_log2_fuel Tiles.tile_log2 Tiles.increments
    Tiles.tile_sizes Tiles.uniform_tiles Tiles.explicit_tiles Tiles.tile_context
    Tiles.write_tile_info Quantization.write_delta_q Quantization.write_chroma_q
    Quantization.write_quantization_params Quantization.write_feature Quantization.write_features
    Quantization.write_segments Quantization.write_segmentation_params Quantization.write_deltas
    Quantization.write_loop_filter_params Quantization.cdef_loop Quantization.write_cdef_params
    Quantization.write_lr_params Motion.recenter_forward Motion.subexp_loop Motion.write_subexp
    Motion.write_unsigned_subexp_with_ref Motion.write_signed_subexp_with_ref
    Motion.write_global_param Motion.write_motion Motion.motion_loop
    Motion.write_global_motion_params Motion.refreshed_params Motion.refresh_slots
    Motion.av1_update_reference_gm Header.header_start Header.write_order_hints Header.header_order
    Header.write_frame_size Header.intra_header Header.write_refs Header.inter_header
    Header.header_front Header.write_deltas_present Header.segment_offset Header.coded_lossless
    Header.write_filters Header.write_modes Header.quantizer_part Header.frame_header
    SkipMode.relative_dist SkipMode.nearest SkipMode.second_forward SkipMode.skip_possible
    SkipMode.skip_mode_allowed Unit.tile_payload Unit.frame_payload Unit.supported Unit.leading_obus
    Unit.av1_build_temporal_unit
key_unit-built = refl

av1_build_temporal_unit-Rebuilt_example :
    Rebuilt key_frame
      (av1_sequence_state key_frame)
      no_references
      true
      0xff
      tile_data
      one_tile
      key_unit
av1_build_temporal_unit-Rebuilt_example =
    av1_build_temporal_unit-Rebuilt key_frame (av1_sequence_state key_frame) no_references true 0xff
      tile_data one_tile key_unit key_unit-built (omega arith)
