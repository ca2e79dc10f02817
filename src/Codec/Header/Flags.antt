-- ===== src/Codec/Header/Flags.antt =====
-- The flags byte: setting one group of bits reads back, and leaves the others alone.
use aura_epics.Prelude.{
  ℕ, ◌<◌, ◌≡◌, refl, Bool, true, ◌&&◌, bit_and, bit_or, ◌==◌, arith, if◌then◌else◌,
}
use aura_epics.Prelude.Bits.{all_below, all_below_sound}
use aura_epics.Codec.ByteOrder.{
  ByteOrder, little_endian, big_endian, to_bits, big_endian_flag, from_flags,
}
use aura_epics.Codec.Header.{
  segmentation_from_bits, segmentation_from_flags, Segmentation, unsegmented, first, last, middle,
  segmentation_to_bits, not_u8, control_flag, seg_mask, from_server_flag, with_byte_order,
  with_segmentation, byte_order, segmentation, is_control, is_from_server, segmentation_from_flags,
  PvaHeader,
}

abbrev set_bits : (mask bits f : ℕ) → ℕ
set_bits mask bits f = bit_or (bit_and f (not_u8 mask)) bits

-- What the group `m` of the flags holds after the group `mask` is set to `bits`.
abbrev group_after : (mask bits f m : ℕ) → ℕ
group_after mask bits f m = if m == mask then bits else bit_and f m

group_right : (mask bits f m : ℕ) → Bool
group_right mask bits f m = bit_and (set_bits mask bits f) m == group_after mask bits f m

groups_right : (mask bits f : ℕ) → Bool
unfolding group_right
groups_right mask bits f =
    group_right mask bits f big_endian_flag
    && (group_right mask bits f seg_mask
        && (group_right mask bits f control_flag && group_right mask bits f from_server_flag))

record AreSet (mask bits f : ℕ) : Type 0 where
  order : bit_and (set_bits mask bits f) big_endian_flag ≡ group_after mask bits f big_endian_flag
  seg : bit_and (set_bits mask bits f) seg_mask ≡ group_after mask bits f seg_mask
  control : bit_and (set_bits mask bits f) control_flag ≡ group_after mask bits f control_flag
  server :
      bit_and (set_bits mask bits f) from_server_flag ≡ group_after mask bits f from_server_flag

groups_right→AreSet : (mask bits f : ℕ) → groups_right mask bits f ≡ true → AreSet mask bits f
unfolding groups_right
groups_right→AreSet mask bits f h = record {
  order = ground arith;
  seg = ground arith;
  control = ground arith;
  server = ground arith;
}

by_table :
    (mask bits : ℕ)
    → all_below 256 (groups_right mask bits) ≡ true
    → (f : ℕ) → f < 256
    → AreSet mask bits f
by_table mask bits table f h =
    groups_right→AreSet mask bits f (all_below_sound 256 (groups_right mask bits) table f h)

order_set : (o : ByteOrder) (f : ℕ) → f < 256 → AreSet big_endian_flag (to_bits o) f
unfolding all_below groups_right to_bits
order_set little_endian f h = by_table _ _ refl f h
order_set big_endian f h = by_table _ _ refl f h

segmentation_set : (s : Segmentation) (f : ℕ) → f < 256 → AreSet seg_mask (segmentation_to_bits s) f
unfolding all_below groups_right segmentation_to_bits
segmentation_set unsegmented f h = by_table _ _ refl f h
segmentation_set first f h = by_table _ _ refl f h
segmentation_set last f h = by_table _ _ refl f h
segmentation_set middle f h = by_table _ _ refl f h

-- On a flags byte, setting the byte order is read back, and the segmentation, the category and
-- the direction stay as they were.
pub with_byte_order_lem :
    (h : PvaHeader) (o : ByteOrder)
    → h.flags < 256
    → (byte_order (with_byte_order h o) ≡ o)
      × (segmentation (with_byte_order h o) ≡ segmentation h)
      × (is_control (with_byte_order h o) ≡ is_control h)
      × (is_from_server (with_byte_order h o) ≡ is_from_server h)
unfolding with_byte_order byte_order segmentation is_control is_from_server from_flags
    segmentation_from_flags
with_byte_order_lem h o fits =
    let s = order_set o h.flags fits in
    (rw s.order (order_read o), rw s.seg, rw s.control, rw s.server)
  where
    order_read : (o : ByteOrder) → (if to_bits o == 0 then little_endian else big_endian) ≡ o
    order_read little_endian = unfold to_bits in refl
    order_read big_endian = unfold to_bits in refl

-- On a flags byte, setting the segmentation is read back, and the byte order, the category and
-- the direction stay as they were.
pub with_segmentation_lem :
    (h : PvaHeader) (s : Segmentation)
    → h.flags < 256
    → (segmentation (with_segmentation h s) ≡ s)
      × (byte_order (with_segmentation h s) ≡ byte_order h)
      × (is_control (with_segmentation h s) ≡ is_control h)
      × (is_from_server (with_segmentation h s) ≡ is_from_server h)
unfolding with_segmentation byte_order segmentation is_control is_from_server from_flags
    segmentation_from_flags segmentation_to_bits
with_segmentation_lem h s fits =
    let e = segmentation_set s h.flags fits in
    (rw e.seg (seg_read s), rw e.order, rw e.control, rw e.server)
  where
    seg_read : (s : Segmentation) → segmentation_from_bits (segmentation_to_bits s) ≡ s
    seg_read unsegmented = refl
    seg_read first = refl
    seg_read last = refl
    seg_read middle = refl
