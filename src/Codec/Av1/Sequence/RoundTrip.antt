-- ===== src/Codec/Av1/Sequence/RoundTrip.antt =====
-- The sequence header of src/codec/av1_obu.cc against the sequence header syntax of AV1.
use qualcomm_iris_vaapi.Base.{
  ℕ, ◌+◌, ◌-◌, ◌*◌, ◌/◌, ◌%◌, ◌^◌, ◌≤◌, ◌<◌, ◌≡◌, refl, Bool, true, false, [], arith, ltb,
  if◌then◌else◌,
}
use native.Mathlib.Nat.{mod-eq_of_lt}
use qualcomm_iris_vaapi.Codec.Writer.Contents.{Appends-nil}
use qualcomm_iris_vaapi.Codec.Syntax.{Write, on, bit, bits, when}
use qualcomm_iris_vaapi.Codec.Syntax.Codes.{
  Codes, Reads, read_bit, read_bits, read_then, read_pure, then-Codes, mapped-Codes, bit-Codes,
  bits-Codes,
}
use qualcomm_iris_vaapi.Codec.Av1.Picture.{Picture, SequenceState}
use qualcomm_iris_vaapi.Codec.Av1.Sequence.{sequence_sizes, sequence_tools}

-- An element that is there if `c` is.
abbrev pub read_when : Bool → Reads ℕ → Reads ℕ
read_when c m = if c then m else read_pure 0

-- What the decoder keeps of the header's first part.
pub record Sizes : Type 0 where
  pub profile : ℕ
  pub still_picture : ℕ
  pub reduced_still_picture_header : ℕ
  pub timing_info : ℕ
  pub display_delay : ℕ
  pub operating_points : ℕ
  pub operating_point_idc : ℕ
  pub tier : ℕ
  pub level : ℕ
  pub width_bits : ℕ
  pub height_bits : ℕ
  pub max_width : ℕ
  pub max_height : ℕ

abbrev pub read_sizes : Reads Sizes
read_sizes = read_then (read_bits 3) (λ profile. read_then read_bit (λ still.
    read_then read_bit (λ reduced. read_then read_bit (λ timing. read_then read_bit (λ delay.
      read_then (read_bits 5) (λ points. read_then (read_bits 12) (λ idc.
        read_then (read_bits 5) (λ level. read_then (read_when (ltb 7 level) read_bit) (λ tier.
          read_then (read_bits 4) (λ width. read_then (read_bits 4) (λ height.
            read_then (read_bits (width + 1)) (λ max_width.
              read_then (read_bits (height + 1)) (λ max_height. read_pure (record {
                profile = profile;
                still_picture = still;
                reduced_still_picture_header = reduced;
                timing_info = timing;
                display_delay = delay;
                operating_points = points + 1;
                operating_point_idc = idc;
                tier = tier;
                level = level;
                width_bits = width + 1;
                height_bits = height + 1;
                max_width = max_width + 1;
                max_height = max_height + 1;
              }))))))))))))))

-- The values fit their fields.
pub record Sized (s : SequenceState) : Type 0 where
  pub level : s.seq_level_idx < 32
  pub width : (0 < s.frame_width_bits) × (s.frame_width_bits ≤ 16)
  pub height : (0 < s.frame_height_bits) × (s.frame_height_bits ≤ 16)
  pub max_width : (0 < s.max_frame_width) × (s.max_frame_width ≤ 2 ^ s.frame_width_bits)
  pub max_height : (0 < s.max_frame_height) × (s.max_frame_height ≤ 2 ^ s.frame_height_bits)

-- One operating point of the main tier, no timing information and the long header.
abbrev pub sizes_of : Picture → SequenceState → Sizes
sizes_of p s = record {
  profile = p.profile % 2 ^ 3;
  still_picture = p.seq.still_picture % 2;
  reduced_still_picture_header = 0;
  timing_info = 0;
  display_delay = 0;
  operating_points = 1;
  operating_point_idc = 0;
  tier = 0;
  level = s.seq_level_idx;
  width_bits = s.frame_width_bits;
  height_bits = s.frame_height_bits;
  max_width = s.max_frame_width;
  max_height = s.max_frame_height;
}

-- Reading by a known value.
number-Codes : (v n : ℕ) → v < 2 ^ n → Codes (read_bits n) (bits v n) v
number-Codes v n h = rw (mod-eq_of_lt h) at (bits-Codes v n)

when-Codes :
    (c : Bool) {m : Reads ℕ} {f : Write} {a : ℕ}
    → Codes m f a
    → Codes (read_when c m) (when c f) (if c then a else 0)
unfolding when
when-Codes true c = c
when-Codes false c = record { bits = []; appends = λ w h. Appends-nil h; reads = λ rest. refl }

main_tier : (c : Bool) (n : ℕ) → (if c then n else n) ≡ n
main_tier true n = refl
main_tier false n = refl

pub sizes-Codes :
    (p : Picture) (s : SequenceState)
    → Sized s
    → Codes read_sizes (sequence_sizes p s) (sizes_of p s)
unfolding sequence_sizes
sizes-Codes p s h =
    let w : s.frame_width_bits - 1 + 1 ≡ s.frame_width_bits = omega (arith, h.width.0) in
    let v : s.frame_height_bits - 1 + 1 ≡ s.frame_height_bits = omega (arith, h.height.0) in
    let mw : s.max_frame_width - 1 + 1 ≡ s.max_frame_width = omega (arith, h.max_width.0) in
    let mh : s.max_frame_height - 1 + 1 ≡ s.max_frame_height = omega (arith, h.max_height.0) in
    then-Codes _ (bits-Codes p.profile 3) (
      then-Codes _ (bit-Codes p.seq.still_picture) (
        then-Codes _ (bit-Codes 0) (
          then-Codes _ (bit-Codes 0) (
            then-Codes _ (bit-Codes 0) (
              then-Codes _ (bits-Codes 0 5) (
                then-Codes _ (bits-Codes 0 12) (
                  then-Codes _ (number-Codes s.seq_level_idx 5 h.level) (
                    then-Codes _ (when-Codes (ltb 7 s.seq_level_idx) (bit-Codes 0)) (
                      then-Codes _
                        (number-Codes (s.frame_width_bits - 1) 4 (omega (arith, h.width)))
                        (then-Codes _
                          (number-Codes (s.frame_height_bits - 1) 4 (omega (arith, h.height)))
                          (rw (w, v)
                            (then-Codes _
                              (number-Codes (s.max_frame_width - 1) s.frame_width_bits
                                (omega (arith, h.max_width)))
                              (mapped-Codes _ _
                                (number-Codes (s.max_frame_height - 1) s.frame_height_bits
                                  (omega (arith, h.max_height)))
                                (rw (mw, mh, main_tier (ltb 7 s.seq_level_idx) 0) refl))))))))))))))

-- What the decoder keeps of the tools.
pub record Tools : Type 0 where
  pub large_superblock : ℕ
  pub filter_intra : ℕ
  pub intra_edge_filter : ℕ
  pub interintra : ℕ
  pub masked : ℕ
  pub frame_id : ℕ
  pub warped : ℕ
  pub choose_screen_content : ℕ
  pub choose_integer_mv : ℕ
  pub superres : ℕ
  pub restoration : ℕ
  pub dual_filter : ℕ
  pub order_hint : ℕ
  pub jnt_comp : ℕ
  pub ref_frame_mvs : ℕ
  pub order_hint_bits : ℕ
  pub cdef : ℕ

-- The pair of flags that depends on the order hints, as a number of two bits.
abbrev read_compound : Reads ℕ
read_compound = read_then read_bit (λ jnt. read_then read_bit (λ mvs. read_pure (jnt * 2 + mvs)))

abbrev pub read_tools : Reads Tools
read_tools = read_then read_bit (λ frame_id. read_then read_bit (λ large.
    read_then read_bit (λ filter. read_then read_bit (λ edge. read_then read_bit (λ interintra.
      read_then read_bit (λ masked. read_then read_bit (λ warped. read_then read_bit (λ dual.
        read_then read_bit (λ hint. read_then (read_when (on hint) read_compound) (λ compound.
          read_then read_bit (λ screen. read_then read_bit (λ integer.
            read_then (read_when (on hint) (read_bits 3)) (λ hint_bits.
              read_then read_bit (λ superres. read_then read_bit (λ cdef.
                read_then read_bit (λ restoration. read_pure (record {
                  large_superblock = large;
                  filter_intra = filter;
                  intra_edge_filter = edge;
                  interintra = interintra;
                  masked = masked;
                  frame_id = frame_id;
                  warped = warped;
                  choose_screen_content = screen;
                  choose_integer_mv = integer;
                  superres = superres;
                  restoration = restoration;
                  dual_filter = dual;
                  order_hint = hint;
                  jnt_comp = compound / 2;
                  ref_frame_mvs = compound % 2;
                  order_hint_bits = if on hint then hint_bits + 1 else 0;
                  cdef = cdef;
                })))))))))))))))))

abbrev pub tools_of : Picture → Tools
tools_of p = record {
  large_superblock = p.seq.use_128x128_superblock % 2;
  filter_intra = p.seq.enable_filter_intra % 2;
  intra_edge_filter = p.seq.enable_intra_edge_filter % 2;
  interintra = p.seq.enable_interintra_compound % 2;
  masked = p.seq.enable_masked_compound % 2;
  frame_id = 0;
  warped = 1;
  choose_screen_content = 1;
  choose_integer_mv = 1;
  superres = 1;
  restoration = 1;
  dual_filter = p.seq.enable_dual_filter % 2;
  order_hint = p.seq.enable_order_hint;
  jnt_comp = (if on p.seq.enable_order_hint then p.seq.enable_jnt_comp % 2 * 2 + 1 else 0) / 2;
  ref_frame_mvs = (if on p.seq.enable_order_hint then p.seq.enable_jnt_comp % 2 * 2 + 1 else 0) % 2;
  order_hint_bits = if on p.seq.enable_order_hint then p.order_hint_bits_minus_1 % 2 ^ 3 + 1 else 0;
  cdef = p.seq.enable_cdef % 2;
}

pub flag-Codes : (v : ℕ) → v < 2 → Codes read_bit (bit v) v
flag-Codes v h = rw (mod-eq_of_lt h) at (bit-Codes v)

if-if : (c : Bool) (a : ℕ) → (if c then (if c then a else 0) + 1 else 0) ≡ (if c then a + 1 else 0)
if-if true a = refl
if-if false a = refl

pub tools-Codes :
    (p : Picture) → p.seq.enable_order_hint < 2 → Codes read_tools (sequence_tools p) (tools_of p)
unfolding sequence_tools
tools-Codes p h =
    let hinted = on p.seq.enable_order_hint in
    then-Codes _ (bit-Codes 0) (
      then-Codes _ (bit-Codes p.seq.use_128x128_superblock) (
        then-Codes _ (bit-Codes p.seq.enable_filter_intra) (
          then-Codes _ (bit-Codes p.seq.enable_intra_edge_filter) (
            then-Codes _ (bit-Codes p.seq.enable_interintra_compound) (
              then-Codes _ (bit-Codes p.seq.enable_masked_compound) (
                then-Codes _ (bit-Codes 1) (
                  then-Codes _ (bit-Codes p.seq.enable_dual_filter) (
                    then-Codes _ (flag-Codes p.seq.enable_order_hint h) (
                      then-Codes _
                        (when-Codes hinted (
                          then-Codes _ (bit-Codes p.seq.enable_jnt_comp) (
                            mapped-Codes (λ x. p.seq.enable_jnt_comp % 2 * 2 + x) _ (bit-Codes 1)
                              refl)))
                        (then-Codes _ (bit-Codes 1) (
                          then-Codes _ (bit-Codes 1) (
                            then-Codes _
                              (when-Codes hinted (bits-Codes p.order_hint_bits_minus_1 3))
                              (then-Codes _ (bit-Codes 1) (
                                then-Codes _ (bit-Codes p.seq.enable_cdef) (
                                  mapped-Codes _ _ (bit-Codes 1) (
                                    rw (if-if hinted (p.order_hint_bits_minus_1 % 2 ^ 3))
                                      refl))))))))))))))))
