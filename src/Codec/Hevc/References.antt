-- ===== src/Codec/Hevc/References.antt =====
-- src/codec/hevc.cc: the references of a picture, and the reference picture set of its slices.
pub mod ShortTerm
use qualcomm_iris_vaapi.Base.{
  ℕ, zero, suc, ◌+◌, ◌-◌, ◌/◌, ◌%◌, ◌^◌, Bool, true, false, not, ◌&&◌, ◌||◌, List, [], ◌∷◌, ◌++◌,
  ltb, leb, ◌==◌, if◌then◌else◌, length,
}
use qualcomm_iris_vaapi.Base.Int.{ℤ, pos, negsuc}
use qualcomm_iris_vaapi.Codec.Writer.{BitWriter, to_u32}
use qualcomm_iris_vaapi.Codec.Syntax.{Write, ◌>>◌, on, bit, bits, bool, ue}

-- VAPictureHEVC
pub record HevcReference : Type 0 where
  pub picture_id : ℕ
  pub pic_order_cnt : ℤ
  pub flags : ℕ

-- What a call throws, in the order of the source.
pub data Refusal : Type 0 where
  poc_collides delta_range cycle_unsupported long_term_without_flag : Refusal

pub data Checked (A : Type 0) : Type 0 where
  fine : A → Checked A
  refused : Refusal → Checked A

pub record Reference : Type 0 where
  pub index : ℕ
  pub poc : ℤ
  pub used : Bool

pub record References : Type 0 where
  pub before : List Reference
  pub after : List Reference
  pub long_term : List Reference

-- Comparison and difference of ints.
abbrev pub int_ltb : ℤ → ℤ → Bool
int_ltb (pos a) (pos b) = ltb a b
int_ltb (pos a) (negsuc b) = false
int_ltb (negsuc a) (pos b) = true
int_ltb (negsuc a) (negsuc b) = ltb b a

abbrev pub int_eq : ℤ → ℤ → Bool
int_eq a b = not (int_ltb a b) && not (int_ltb b a)

abbrev pub nat_diff : ℕ → ℕ → ℤ
nat_diff a b = if leb b a then pos (a - b) else negsuc (b - a - 1)

abbrev pub int_diff : ℤ → ℤ → ℤ
int_diff (pos a) (pos b) = nat_diff a b
int_diff (pos a) (negsuc b) = pos (a + b + 1)
int_diff (negsuc a) (pos b) = negsuc (a + b)
int_diff (negsuc a) (negsuc b) = nat_diff b a

abbrev pub is_valid : HevcReference → Bool
is_valid r = not (r.picture_id == 0xffffffff) && not (r.flags % 2 == 1)

abbrev pub is_long_term : HevcReference → Bool
is_long_term r = r.flags / 2 ^ 3 % 2 == 1

abbrev pub is_used : HevcReference → Bool
is_used r = on (r.flags / 2 ^ 4 % 8)

abbrev pub occurs : ℤ → List ℤ → Bool
occurs poc [] = false
occurs poc (p ∷ ps) = int_eq poc p || occurs poc ps

-- The reference goes behind the others of its kind.
abbrev pub put : ℤ → ℕ → HevcReference → References → References
put current i r refs =
    let entry = record { index = i; poc = r.pic_order_cnt; used = is_used r } ∷ [] in
    if is_long_term r
    then record refs { long_term = refs.long_term ++ entry }
    else if int_ltb r.pic_order_cnt current
    then record refs { before = refs.before ++ entry }
    else record refs { after = refs.after ++ entry }

-- The frames from the index `i` on; `pocs` are those of the references so far, and not one of them is the picture's own.
unfoldable pub collect : ℤ → ℕ → List HevcReference → List ℤ → References → Checked References
collect current i [] pocs refs = fine refs
collect current i (r ∷ rs) pocs refs =
    let passed = collect current (i + 1) rs pocs refs in
    let taken = collect current (i + 1) rs (r.pic_order_cnt ∷ pocs) (put current i r refs) in
    if not (is_valid r)
    then passed
    else if int_eq r.pic_order_cnt current || occurs r.pic_order_cnt pocs
    then refused poc_collides
    else taken

-- The order of the counts is strict, so sorting has one result.
abbrev pub insert_reference : (ℤ → ℤ → Bool) → Reference → List Reference → List Reference
insert_reference first r [] = r ∷ []
insert_reference first r (q ∷ qs) =
    if first q.poc r.poc then q ∷ insert_reference first r qs else r ∷ q ∷ qs

unfoldable pub sorted : (ℤ → ℤ → Bool) → List Reference → List Reference
sorted first [] = []
sorted first (r ∷ rs) = insert_reference first r (sorted first rs)

abbrev pub above : ℤ → ℤ → Bool
above a b = int_ltb b a

unfoldable pub sort_references : References → References
unfolding sorted
sort_references refs = record {
  before = sorted above refs.before;
  after = sorted int_ltb refs.after;
  long_term = sorted above refs.long_term;
}

abbrev pub sort_checked : Checked References → Checked References
unfolding sort_references
sort_checked (fine refs) = fine (sort_references refs)
sort_checked (refused f) = refused f

unfoldable pub collect_references : ℤ → List HevcReference → Checked References
unfolding collect sort_checked
collect_references current frames =
    sort_checked (collect current 0 frames [] (record { before = []; after = []; long_term = [] }))

-- The frames of the references that are used.
abbrev pub used_frames : List Reference → List ℕ
used_frames [] = []
used_frames (r ∷ rs) = if r.used then r.index ∷ used_frames rs else used_frames rs

-- The initial lists 0 and 1.
unfoldable pub initial_list : References → Bool → List ℕ
initial_list refs second =
    let before = used_frames refs.before in
    let after = used_frames refs.after in
    (if second then after else before)
    ++ ((if second then before else after) ++ used_frames refs.long_term)

-- How far a reference is from the one before it, towards the past or the future.
abbrev pub poc_delta : Bool → ℤ → ℤ → ℤ
poc_delta future previous poc = if future then int_diff poc previous else int_diff previous poc

abbrev pub in_range : ℤ → Bool
in_range (pos d) = ltb 0 d && leb d 32768
in_range (negsuc d) = false

-- An int64_t less one, as a uint32_t.
abbrev pub less_one : ℤ → ℕ
less_one (pos d) = (d + 2 ^ 32 - 1) % 2 ^ 32
less_one (negsuc d) = to_u32 (negsuc (d + 1))

unfoldable pub write_short_term : Bool → ℤ → List Reference → BitWriter → Checked BitWriter
write_short_term future previous [] w = fine w
write_short_term future previous (r ∷ rs) w =
    let delta = poc_delta future previous r.poc in
    let rest = write_short_term future r.poc rs ((ue (less_one delta) >> bool r.used) w) in
    if in_range delta then rest else refused delta_range

abbrev pub then_checked : Checked BitWriter → (BitWriter → Checked BitWriter) → Checked BitWriter
then_checked (fine w) f = f w
then_checked (refused r) f = refused r

-- What the parameters say of long-term references.
pub record LongTerm : Type 0 where
  pub present : Bool
  pub log2_max_pic_order_cnt_lsb : ℕ

abbrev pub lsb_of : ℕ → ℤ → ℕ
lsb_of n poc = to_u32 poc % 2 ^ n

abbrev pub neg_of : ℕ → ℤ
neg_of zero = pos 0
neg_of (suc k) = negsuc k

-- The division of C++, towards zero.
abbrev pub divided : ℤ → ℕ → ℤ
divided (pos a) n = pos (a / 2 ^ n)
divided (negsuc a) n = neg_of ((a + 1) / 2 ^ n)

abbrev pub msb_of : ℕ → ℤ → ℤ
msb_of n poc = int_diff poc (pos (lsb_of n poc))

abbrev pub msb_cycle : ℕ → ℤ → ℤ → ℤ
msb_cycle n current poc = divided (int_diff (msb_of n current) (msb_of n poc)) n

abbrev pub cycle_fits : ℕ → ℤ → Bool
cycle_fits previous_cycle (pos c) = leb previous_cycle c && ltb c 0x7fffffff
cycle_fits previous_cycle (negsuc c) = false

abbrev pub magnitude : ℤ → ℕ
magnitude (pos c) = c
magnitude (negsuc c) = c + 1

unfoldable pub long_term_entry : ℕ → ℕ → Reference → Write
long_term_entry n cycles r = do bits (lsb_of n r.poc) n; bool r.used; bit 1; ue cycles

unfoldable pub write_long_term : ℕ → ℤ → ℕ → List Reference → BitWriter → Checked BitWriter
unfolding long_term_entry
write_long_term n current previous_cycle [] w = fine w
write_long_term n current previous_cycle (r ∷ rs) w =
    let cycle = msb_cycle n current r.poc in
    let rest =
      write_long_term n current (magnitude cycle) rs
        (long_term_entry n (magnitude cycle - previous_cycle) r w) in
    if cycle_fits previous_cycle cycle then rest else refused cycle_unsupported

abbrev pub is_empty : List Reference → Bool
is_empty [] = true
is_empty (r ∷ rs) = false

unfoldable pub write_rps : ℤ → LongTerm → References → BitWriter → Checked BitWriter
unfolding write_short_term write_long_term
write_rps current lt refs w =
    let started = (bit 0 >> ue (length refs.before) >> ue (length refs.after)) w in
    let n = lt.log2_max_pic_order_cnt_lsb in
    let short =
      then_checked (write_short_term false current refs.before started)
        (λ w'. write_short_term true current refs.after w') in
    then_checked short (λ w'.
      if lt.present
      then write_long_term n current 0 refs.long_term (ue (length refs.long_term) w')
      else if is_empty refs.long_term
      then fine w'
      else refused long_term_without_flag)
