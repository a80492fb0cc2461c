-- ===== src/Codec/Av1/Sequence/Colors.antt =====
-- The end of the sequence header of src/codec/av1_obu.cc, and the header as a whole.
use qualcomm_iris_vaapi.Base.{
  ℕ, ◌%◌, ◌<◌, ◌≡◌, refl, ap, ◌∙◌, Bool, true, false, ◌&&◌, ◌∷◌, ◌++◌, if◌then◌else◌, flag,
  replicate,
}
use qualcomm_iris_vaapi.Codec.Writer.{empty, written, trailing_bits}
use qualcomm_iris_vaapi.Codec.Writer.Contents.{empty-IsValid, contents}
use qualcomm_iris_vaapi.Codec.Reader.Stream.{stream}
use qualcomm_iris_vaapi.Codec.Nal.Padding.{stream-written, trailing_bits-Padded}
use qualcomm_iris_vaapi.Codec.Syntax.{on, bool, skip, when}
use qualcomm_iris_vaapi.Codec.Syntax.Codes.{
  Codes, Reads, read_bit, read_bits, read_then, read_pure, then-Codes, mapped-Codes, bit-Codes,
  bits-Codes, skip-Codes,
}
use qualcomm_iris_vaapi.Codec.Av1.Picture.{Picture, SequenceState}
use qualcomm_iris_vaapi.Codec.Av1.Sequence.{
  write_color_config, sequence_fields, build_sequence_header,
}
use qualcomm_iris_vaapi.Codec.Av1.Sequence.RoundTrip.{
  Sizes, sizes_of, read_sizes, Sized, sizes-Codes, Tools, tools_of, read_tools, tools-Codes,
}

-- color_config, for the profile 0, whose pictures are monochrome or subsampled in both directions.
pub record Colors : Type 0 where
  pub high_bitdepth : ℕ
  pub mono_chrome : ℕ
  pub color_range : ℕ
  pub color_description : ℕ
  pub chroma_sample_position : ℕ
  pub separate_uv_delta_q : ℕ

abbrev pub read_chroma : ℕ → ℕ → ℕ → ℕ → Reads Colors
read_chroma high mono description range =
    if on mono
    then read_pure (record {
      high_bitdepth = high;
      mono_chrome = mono;
      color_range = range;
      color_description = description;
      chroma_sample_position = 0;
      separate_uv_delta_q = 0;
    })
    else read_then (read_bits 2) (λ position. read_then read_bit (λ separate. read_pure (record {
      high_bitdepth = high;
      mono_chrome = mono;
      color_range = range;
      color_description = description;
      chroma_sample_position = position;
      separate_uv_delta_q = separate;
    })))

abbrev pub read_colors : Reads Colors
read_colors = read_then read_bit (λ high. read_then read_bit (λ mono.
    read_then read_bit
      (λ description. read_then read_bit (λ range. read_chroma high mono description range))))

abbrev pub colors_of : Picture → ℕ → Colors
colors_of p separate = record {
  high_bitdepth = flag (on p.bit_depth_idx);
  mono_chrome = p.seq.mono_chrome;
  color_range = p.seq.color_range % 2;
  color_description = 0;
  chroma_sample_position = 0;
  separate_uv_delta_q = separate;
}

-- A picture that is not monochrome, subsampled in both directions.
pub record IsColor (p : Picture) : Type 0 where
  pub mono : p.seq.mono_chrome ≡ 0
  pub horizontal : on p.seq.subsampling_x ≡ true
  pub vertical : on p.seq.subsampling_y ≡ true

flag_bit : (b : Bool) → flag b % 2 ≡ flag b
flag_bit true = refl
flag_bit false = refl

bool-Codes : (b : Bool) → Codes read_bit (bool b) (flag b)
unfolding bool
bool-Codes b = rw (flag_bit b) at (bit-Codes (flag b))

colors-Codes :
    (p : Picture) (separate : Bool)
    → IsColor p
    → Codes read_colors (write_color_config p separate) (colors_of p (flag separate))
unfolding write_color_config when
colors-Codes p separate h =
    let sampled : (true && on p.seq.subsampling_x && on p.seq.subsampling_y) ≡ true =
      rw (h.horizontal, h.vertical) refl in
    rw (h.mono, h.horizontal, h.vertical)
      (then-Codes _ (bool-Codes (on p.bit_depth_idx)) (
        then-Codes _ (bit-Codes 0) (
          then-Codes _ (bit-Codes 0) (
            then-Codes _ (bit-Codes p.seq.color_range)
              (then-Codes _ (bits-Codes 0 2) (mapped-Codes _ _ (bool-Codes separate) refl))))))

-- The sequence header as the decoder keeps it.
pub record Sequence : Type 0 where
  pub sizes : Sizes
  pub tools : Tools
  pub colors : Colors
  pub film_grain : ℕ

abbrev pub read_sequence_header : Reads Sequence
read_sequence_header = read_then read_sizes (λ sizes. read_then read_tools (λ tools.
    read_then read_colors (λ colors. read_then read_bit (λ grain.
      read_pure (record { sizes = sizes; tools = tools; colors = colors; film_grain = grain })))))

abbrev pub sequence_of : Picture → SequenceState → Sequence
sequence_of p s = record {
  sizes = sizes_of p s;
  tools = tools_of p;
  colors = colors_of p (flag s.separate_uv_delta_q);
  film_grain = p.seq.film_grain_params_present % 2;
}

sequence-Codes :
    (p : Picture) (s : SequenceState)
    → Sized s
    → p.seq.enable_order_hint < 2
    → IsColor p
    → Codes read_sequence_header (sequence_fields p s) (sequence_of p s)
unfolding sequence_fields
sequence-Codes p s sized hint color = then-Codes _ (sizes-Codes p s sized) (
    then-Codes _ (tools-Codes p hint) (
      then-Codes _ (colors-Codes p s.separate_uv_delta_q color)
        (mapped-Codes _ _ (bit-Codes p.seq.film_grain_params_present) refl)))

-- For a color picture of one-bit fields and a sequence state whose sizes fit their fields, a reader of the sequence header syntax with the long header, one operating point and no timing information, frame ids or color description reads from the payload just these choices, and the sizes, the tools, the colors and the film grain flag that were meant, and leaves a one and fewer than eight zeros.
pub read_sequence_header-build_sequence_header :
    (p : Picture) (s : SequenceState)
    → Sized s
    → p.seq.enable_order_hint < 2
    → IsColor p
    → (k : ℕ) × (k < 8)
      × (read_sequence_header (stream (build_sequence_header p s))
          ≡ (sequence_of p s, 1 ∷ replicate k 0))
unfolding build_sequence_header contents
read_sequence_header-build_sequence_header p s sized hint color =
    let coded = sequence-Codes p s sized hint color in
    let fields = coded.appends empty empty-IsValid in
    let (k, short, ends, aligned) = trailing_bits-Padded _ fields.valid in
    let whole : stream (written (trailing_bits (sequence_fields p s empty)))
        ≡ coded.bits ++ (1 ∷ replicate k 0) =
      stream-written _ aligned ∙ ends.grown ∙ ap (λ t. t ++ (1 ∷ replicate k 0)) fields.grown in
    (k, short, ap read_sequence_header whole ∙ coded.reads (1 ∷ replicate k 0))

-- The colors, and one bit more.
abbrev pub read_colors_bit : Reads (Colors × ℕ)
read_colors_bit =
    read_then read_colors (λ colors. read_then read_bit (λ extra. read_pure (colors, extra)))

abbrev gray : Picture → Colors
gray p = record {
  high_bitdepth = flag (on p.bit_depth_idx);
  mono_chrome = 1;
  color_range = p.seq.color_range % 2;
  color_description = 0;
  chroma_sample_position = 0;
  separate_uv_delta_q = 0;
}

monochrome :
    (p : Picture) (separate : Bool)
    → p.seq.mono_chrome ≡ 1
    → Codes {A = Colors × ℕ}
        (read_then read_bit (λ high. read_then read_bit (λ mono. read_then read_bit (λ description.
          read_then read_bit (λ range.
            read_then
              (read_chroma high mono description range)
              (λ colors. read_then read_bit (λ extra. read_pure (colors, extra))))))))
        (write_color_config p separate)
        (colors_of p 0, flag separate)
unfolding write_color_config when skip
monochrome p separate h = rw h (
    then-Codes _ (bool-Codes (on p.bit_depth_idx)) (
      then-Codes _ (bit-Codes 1) (
        then-Codes _ (bit-Codes 0) (
          then-Codes _ (bit-Codes p.seq.color_range) (
            then-Codes _ (skip-Codes (gray p))
              (mapped-Codes (λ extra. (gray p, extra)) _ (bool-Codes separate) refl))))))

-- For a monochrome picture the source writes one bit more than the syntax has: the decoder reads the colors without it, and meets the flag of separate chroma quantizers where the film grain flag should be.
pub write_color_config-monochrome :
    (p : Picture) (separate : Bool)
    → p.seq.mono_chrome ≡ 1
    → Codes {A = Colors × ℕ} read_colors_bit
        (write_color_config p separate)
        (colors_of p 0, flag separate)
unfolding read_then
write_color_config-monochrome p separate h = monochrome p separate h
