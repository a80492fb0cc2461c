-- ===== src/Codec/Hevc/Slices/Parts.antt =====
-- src/codec/hevc.cc, rewrite_slice: the parts of a slice header in their order.
use qualcomm_iris_vaapi.Base.{
  ℕ, zero, suc, ◌+◌, ◌-◌, ◌*◌, ◌/◌, ◌%◌, ◌^◌, Bool, true, false, not, ◌&&◌, List, [], ◌∷◌, Option,
  none, some, ltb, leb, ◌==◌, if◌then◌else◌, length, get_or,
}
use qualcomm_iris_vaapi.Codec.Nal.{nal_ceil_log2}
use qualcomm_iris_vaapi.Codec.Syntax.{on, bit, bits, ue}
use qualcomm_iris_vaapi.Codec.Hevc.{HevcPicture}
use qualcomm_iris_vaapi.Codec.Hevc.References.{References, write_rps, initial_list}
use qualcomm_iris_vaapi.Codec.Hevc.Slices.{
  SliceContext, HevcSlice, address_mismatch, type_mismatch, no_sps_rps, no_rps_bits, rps_size,
  long_term_rps, no_references, active_count, not_in_rps, Step, ◌>>=◌, pure, require, read_flag,
  read_number, read_code, skip_bits, seek_to, position, put_bits, resume_copy, copy_to, when_step,
  drop_value, times, of_checked,
}

abbrev pub within : ℕ → ℕ → ℕ → Bool
within low n high = leb low n && leb n high

-- The first flag and the parameter set, which becomes 0.
unfoldable pub scan_first : ℕ → Step ℕ
scan_first type = do
  first ← read_flag
  ok ← put_bits (bit first)
  ok ← when_step (within 16 type 23) (drop_value read_flag >>= λ ok. put_bits (bit 0))
  ok ← drop_value read_code
  ok ← put_bits (ue 0)
  ok ← resume_copy
  pure first

abbrev pub block_count : HevcPicture → ℕ
block_count p =
    let ctb =
      2
      ^ (p.log2_min_luma_coding_block_size_minus3 + 3
          + p.log2_diff_max_min_luma_coding_block_size) in
    (p.pic_width_in_luma_samples + ctb - 1) / ctb * ((p.pic_height_in_luma_samples + ctb - 1) / ctb)

-- Whether the segment is a dependent one.
unfoldable pub scan_address : SliceContext → HevcSlice → Step Bool
scan_address x slice = do
  dependent ← if on x.picture.slice.dependent_slice_segments_enabled_flag then read_flag else pure 0
  address ← read_number (nal_ceil_log2 (block_count x.picture))
  ok ← require (address == slice.slice_segment_address) address_mismatch
  pure (on dependent)

unfoldable pub scan_slice_type : SliceContext → HevcSlice → Step ℕ
scan_slice_type x slice = do
  ok ← skip_bits x.picture.num_extra_slice_header_bits
  type ← read_code
  ok ← require (leb type 2 && type == slice.slice_type) type_mismatch
  ok ← when_step (on x.picture.slice.output_flag_present_flag) (
      position >>= λ here.
      copy_to here >>= λ ok. drop_value read_flag >>= λ ok. put_bits (bit 1) >>= λ ok. resume_copy)
  ok ← when_step (on x.picture.pic.separate_colour_plane_flag) (drop_value (read_number 2))
  pure type

-- The original short-term set, where it is spelled out.
unfoldable pub scan_explicit : SliceContext → Step (Unit {0})
scan_explicit x = do
  negative ← read_code
  positive ← read_code
  ok ← require (leb ((negative + positive) % 2 ^ 32) 16) rps_size
  times ((negative + positive) % 2 ^ 32) (drop_value read_code >>= λ ok. drop_value read_flag)

unfoldable pub scan_predicted : SliceContext → ℕ → Step (Unit {0})
scan_predicted x start = do
  ok ← require (ltb 0 x.st_rps_bits) no_rps_bits
  ok ← seek_to start
  skip_bits x.st_rps_bits

unfoldable pub scan_own_rps : SliceContext → Step (Unit {0})
unfolding scan_explicit scan_predicted
scan_own_rps x = do
  start ← position
  predicted ← if on x.num_short_term_ref_pic_sets then read_flag else pure 0
  if on predicted then scan_predicted x start else scan_explicit x

unfoldable pub scan_sps_rps : SliceContext → Step (Unit {0})
scan_sps_rps x = do
  ok ← require (ltb 0 x.num_short_term_ref_pic_sets) no_sps_rps
  drop_value (read_number (nal_ceil_log2 x.num_short_term_ref_pic_sets))

abbrev pub lsb_bits : SliceContext → ℕ
lsb_bits x = x.picture.log2_max_pic_order_cnt_lsb_minus4 + 4

-- One original long-term reference, of the sequence's or of the slice's own.
unfoldable pub scan_long_term_entry : SliceContext → Bool → Step (Unit {0})
scan_long_term_entry x from_sps = do
  ok ←
      if from_sps
      then drop_value (read_number (nal_ceil_log2 x.num_long_term_ref_pic_sps))
      else drop_value (read_number (lsb_bits x) >>= λ lsb. read_flag)
  msb ← read_flag
  when_step (on msb) (drop_value read_code)

unfoldable pub scan_long_term_loop : ℕ → ℕ → ℕ → SliceContext → Step (Unit {0})
unfolding scan_long_term_entry
scan_long_term_loop zero i ns x = pure tt
scan_long_term_loop (suc left) i ns x =
    scan_long_term_entry x (ltb i ns) >>= λ ok. scan_long_term_loop left (i + 1) ns x

unfoldable pub scan_long_term : SliceContext → Step (Unit {0})
unfolding scan_long_term_loop
scan_long_term x = do
  ns ← if on x.num_long_term_ref_pic_sps then read_code else pure 0
  np ← read_code
  ok ← require (leb ns x.num_long_term_ref_pic_sps && leb ((ns + np) % 2 ^ 32) 16) long_term_rps
  scan_long_term_loop ((ns + np) % 2 ^ 32) 0 ns x

unfoldable pub put_rps : SliceContext → References → Step (Unit {0})
put_rps x refs c = of_checked c (
    write_rps x.poc
      (record {
        present = on x.picture.slice.long_term_ref_pics_present_flag;
        log2_max_pic_order_cnt_lsb = lsb_bits x;
      })
      refs c.writer)

-- The reference picture set of a picture that is not an IDR picture.
unfoldable pub scan_rps : SliceContext → References → Step (Unit {0})
unfolding scan_own_rps scan_sps_rps scan_long_term put_rps
scan_rps x refs = do
  lsb ← read_number (lsb_bits x)
  here ← position
  ok ← copy_to here
  from_sps ← read_flag
  ok ← if on from_sps then scan_sps_rps x else scan_own_rps x
  ok ← when_step (on x.picture.slice.long_term_ref_pics_present_flag) (scan_long_term x)
  ok ← resume_copy
  ok ← put_rps x refs
  when_step (on x.picture.slice.sps_temporal_mvp_enabled_flag) (drop_value read_flag)

-- The place of a frame in a list, counted from `i`.
abbrev pub place : ℕ → ℕ → List ℕ → Option ℕ
place i index [] = none
place i index (f ∷ fs) = if f == index then some i else place (i + 1) index fs

abbrev pub put_place : ℕ → Option ℕ → Step (Unit {0})
put_place total none = require false not_in_rps
put_place total (some n) = when_step (ltb 1 total) (put_bits (bits n (nal_ceil_log2 total)))

-- The active references from `j` on, `left` of them.
unfoldable pub put_entries : ℕ → ℕ → ℕ → List ℕ → List ℕ → Step (Unit {0})
put_entries zero j total wanted initial = pure tt
put_entries (suc left) j total wanted initial =
    put_place total (place 0 (get_or wanted j 0) initial) >>= λ ok.
    put_entries left (j + 1) total wanted initial

unfoldable pub put_list : SliceContext → ℕ → ℕ → List ℕ → List ℕ → Step (Unit {0})
unfolding put_entries
put_list x total count wanted initial = do
  ok ← require (leb count 15) active_count
  modified ← if on x.lists_modification_present_flag && ltb 1 total then read_flag else pure 0
  ok ← when_step (on modified) (skip_bits (count * nal_ceil_log2 total))
  ok ← when_step (ltb 1 total) (put_bits (bit 1))
  put_entries count 0 total wanted initial

abbrev pub wanted_list : HevcSlice → ℕ → List ℕ
wanted_list slice l = get_or slice.ref_pic_lists l []

-- The active counts, with the override if there is one.
unfoldable pub scan_counts : SliceContext → ℕ → Step (ℕ × ℕ)
scan_counts x type = do
  override ← read_flag
  first ←
      if on override
      then (read_code >>= λ n. pure ((n + 1) % 2 ^ 32))
      else pure (x.picture.num_ref_idx_l0_default_active_minus1 + 1)
  second ←
      if on override && type == 0
      then (read_code >>= λ n. pure ((n + 1) % 2 ^ 32))
      else pure (x.picture.num_ref_idx_l1_default_active_minus1 + 1)
  pure (first, second)

unfoldable pub scan_lists : SliceContext → HevcSlice → References → ℕ → Step (Unit {0})
unfolding scan_counts put_list
scan_lists x slice refs type = do
  counts ← scan_counts x type
  let total = length (initial_list refs false)
  ok ← require (within 1 total 16) no_references
  here ← position
  ok ← copy_to here
  ok ← put_list x total counts.0 (wanted_list slice 0) (initial_list refs false)
  ok ←
      when_step (type == 0)
        (put_list x total counts.1 (wanted_list slice 1) (initial_list refs true))
  resume_copy

-- The header of a segment that is not dependent.
unfoldable pub scan_independent : SliceContext → HevcSlice → References → ℕ → Step (Unit {0})
unfolding scan_slice_type scan_rps scan_lists
scan_independent x slice refs nal_type = do
  type ← scan_slice_type x slice
  ok ← when_step (not (nal_type == 19) && not (nal_type == 20)) (scan_rps x refs)
  ok ←
      when_step (on x.picture.slice.sample_adaptive_offset_enabled_flag)
        (drop_value read_flag >>= λ ok. drop_value read_flag)
  when_step (not (type == 2)) (scan_lists x slice refs type)
