-- ===== src/Codec/Vp9/Examples.antt =====
-- Frames on which the theorems about VP9 are applied.
use qualcomm_iris_vaapi.Base.{ℕ, ◌≡◌, refl, List, [], ◌∷◌, some, false, arith}
use qualcomm_iris_vaapi.Codec.Vp9.{
  FrameParameters, Scanned, scanned, VisibleUnit, show_byte, superframe, translate,
}
use qualcomm_iris_vaapi.Codec.Vp9.Superframe.{read_superframe, read_superframe-superframe}
use qualcomm_iris_vaapi.Codec.Vp9

-- An invisible frame that refreshes the slot 2.
abbrev hidden_frame : List ℕ
hidden_frame = 0x84 ∷ 0 ∷ 0x80 ∷ 0x11 ∷ []

abbrev hidden : FrameParameters
hidden = record {
  profile = 0;
  bit_depth = 8;
  subsampling_x = 1;
  subsampling_y = 1;
  frame_type = 1;
  show_frame = 0;
  error_resilient_mode = 0;
  frame_header_length_in_bytes = 3;
  first_partition_size = 1;
}

abbrev hidden_unit : VisibleUnit
hidden_unit = record {
  bytes = 0x84 ∷ 0 ∷ 0x80 ∷ 0x11 ∷ 0x8a ∷ 0xc1 ∷ 4 ∷ 1 ∷ 0xc1 ∷ [];
  sequence_start = false;
}

hidden_frame-translated : translate 0 (some hidden) (hidden_frame ∷ []) ≡ scanned hidden_unit 19
unfolding Vp9.◌>>=◌ Vp9.pure Vp9.require Vp9.bit Vp9.bits_from Vp9.bits Vp9.scan_header
    Vp9.scan_color Vp9.scan_intra Vp9.scan_coded_refresh Vp9.scan_refresh Vp9.lowest_slot
    Vp9.magnitude_from Vp9.size_bytes Vp9.superframe Vp9.visible_unit Vp9.shown_unit
    Vp9.invisible_unit Vp9.scan_unit Vp9.has_headers Vp9.acceptable Vp9.translate_frame
    Vp9.translate
hidden_frame-translated = refl

read_superframe-superframe_example :
    read_superframe (superframe hidden_frame 0 2) ≡ hidden_frame ∷ (show_byte 0 2 ∷ []) ∷ []
read_superframe-superframe_example = read_superframe-superframe hidden_frame 0 2 (omega arith)
