-- ===== src/Codec/BitSet/Tests.antt =====
-- Runs of the set of changed fields.
use aura_epics.Prelude.{
  ℕ, arith, List, [], ◌∷◌, true, false, ◌≡◌, refl, ltb, map, length, ok, ◌==◌, arith,
}
use aura_epics.Codec.BitSet.{
  PvaBitSet, new, is_set, set_bit, toggle, clear_bit, bitor_assign, or_words, grown, all_set,
  decode, get_word,
}
use aura_epics.Codec.BitSet.Steps.{
  BitOp, set_op, clear_op, toggle_op, or_op, run, apply, run_on_indices, run-refines,
}
use aura_epics.Codec.ByteOrder.{little_endian}
use aura_epics.Codec.PvData.Writer.{PvaWriter, write_byte_array, write_u8, write_size}
use aura_epics.Codec.PvData.Inverse.{reading}
use aura_epics.Codec.BitSet.Bytes.{bit_at}
use aura_epics.Codec.BitSet.Decode.{decode-write_byte_array}
use aura_epics.Codec.BitSet.Encode.{
  encode, last_nonzero, bytes_in_last, leading_zeros, write_words, write_bytes_of,
}
use aura_epics.Codec.BitSet.Inverse.{bit_set-decode-encode}
use aura_epics.Codec.BitSet.Full.{is_set-all_set}

abbrev other_set : PvaBitSet
other_set = set_bit 130 (set_bit 3 new)

abbrev some_ops : List BitOp
some_ops =
    set_op 200
    ∷ set_op 5
    ∷ toggle_op 130
    ∷ or_op other_set
    ∷ clear_op 200
    ∷ clear_op 900
    ∷ toggle_op 5
    ∷ set_op 63
    ∷ []

run-refines_example : is_set (run some_ops new) 130 ≡ run_on_indices some_ops (is_set new) 130
unfolding new set_bit
run-refines_example =
    run-refines some_ops new refl (tt, (tt, (tt, (refl, (tt, (tt, (tt, (tt, tt)))))))) 130

members :
    map (is_set (run some_ops new)) (130 ∷ 3 ∷ 5 ∷ 63 ∷ 200 ∷ [])
    ≡ true ∷ true ∷ false ∷ true ∷ false ∷ []
unfolding run is_set apply set_bit toggle clear_bit bitor_assign or_words grown new
members = refl

is_set-all_set_example : is_set (all_set 131) 130 ≡ ltb 130 131
is_set-all_set_example = is_set-all_set 131 130

-- bits 0, 1, 2, 4 and 15
abbrev raw : List ℕ
raw = 0x17 ∷ 0x80 ∷ []

abbrev begun : PvaWriter
begun = record { buf = 9 ∷ []; order = little_endian }

decode-write_byte_array_example :
    (bs : PvaBitSet) × ((decode (reading (write_byte_array raw begun) 1 (7 ∷ [])) ≡ (
      ok bs,
      reading (write_byte_array raw begun) (length (write_byte_array raw begun).buf) (7 ∷ []),
    ))
      × ((i : ℕ) → is_set bs i ≡ (bit_at raw i == 1)))
decode-write_byte_array_example =
    decode-write_byte_array raw begun (7 ∷ []) (omega arith) (omega arith, (omega arith, tt))

abbrev wide_set : PvaBitSet
wide_set = record { inline = 0x8001 ∷ 0 ∷ []; overflow = 0 ∷ 0x100 ∷ 0 ∷ []; bit_count = 320 }

bit_set-decode-encode_example :
    (back : PvaBitSet) × ((decode (reading (encode wide_set begun) 1 (7 ∷ []))
        ≡ (ok back, reading (encode wide_set begun) (length (encode wide_set begun).buf) (7 ∷ [])))
      × ((i : ℕ) → is_set back i ≡ is_set wide_set i))
bit_set-decode-encode_example =
    bit_set-decode-encode wide_set begun (7 ∷ []) (omega arith, (omega arith, tt))
      (omega arith, (omega arith, (omega arith, tt))) (omega arith)

-- Bit 200 is in the second byte of word 3.
bytes_of_wide_set : length (encode wide_set begun).buf ≡ 28
unfolding encode last_nonzero get_word bytes_in_last leading_zeros write_words write_bytes_of
    write_u8 write_size
bytes_of_wide_set = refl
