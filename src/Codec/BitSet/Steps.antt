-- ===== src/Codec/BitSet/Steps.antt =====
-- Sequences of operations, and the indices that they leave in the set.
use aura_epics.Prelude.{
  ℕ, ◌/◌, List, [], ◌∷◌, Bool, not, true, false, ◌&&◌, ◌||◌, ◌≡◌, refl, ◌∙◌, bit_and, bit_or,
  bit_xor, length, get_or, ltb, ◌==◌, if◌then◌else◌, arith, length-set, All, if_intro,
}
use aura_epics.Codec.BitSet.{
  PvaBitSet, inline_words, inline_bits, mask_of, is_set, update, not_word, set_bit, clear_bit,
  toggle, clear_all, bitor_assign, bitand,
}
use aura_epics.Codec.BitSet.Indices.{
  TwoInline, is_set-set_bit, is_set-toggle, is_set-clear_bit, is_set-clear_all, is_set-bitor_assign,
  is_set-bitand,
}
use aura_epics.Codec.BitSet.Words.{length-or_words, length-and_words}

-- the operations on a set, with the other set of a union or an intersection
pub data BitOp : Type 0 where
  set_op clear_op toggle_op : ℕ → BitOp
  clear_all_op : BitOp
  or_op and_op : PvaBitSet → BitOp

unfoldable pub apply : BitOp → PvaBitSet → PvaBitSet
apply (set_op i) bs = set_bit i bs
apply (clear_op i) bs = clear_bit i bs
apply (toggle_op i) bs = toggle i bs
apply clear_all_op bs = clear_all bs
apply (or_op rhs) bs = bitor_assign rhs bs
apply (and_op rhs) bs = bitand rhs bs

unfoldable pub run : List BitOp → PvaBitSet → PvaBitSet
run [] bs = bs
run (op ∷ ops) bs = run ops (apply op bs)

-- The abstract view: a set of indices, as a test. The other set of an operation is seen by its
-- own test.
unfoldable pub apply_to_indices : BitOp → (ℕ → Bool) → ℕ → Bool
apply_to_indices (set_op i) p j = if j == i then true else p j
apply_to_indices (clear_op i) p j = if j == i then false else p j
apply_to_indices (toggle_op i) p j = if j == i then not (p j) else p j
apply_to_indices clear_all_op p j = false
apply_to_indices (or_op rhs) p j = p j || is_set rhs j
apply_to_indices (and_op rhs) p j = p j && is_set rhs j

unfoldable pub run_on_indices : List BitOp → (ℕ → Bool) → ℕ → Bool
run_on_indices [] p = p
run_on_indices (op ∷ ops) p = run_on_indices ops (apply_to_indices op p)

abbrev pub OtherTwoInline : BitOp → Type 0
OtherTwoInline (or_op rhs) = TwoInline rhs
OtherTwoInline (and_op rhs) = TwoInline rhs
OtherTwoInline _ = Unit {0}

apply-indices :
    (op : BitOp) (bs : PvaBitSet)
    → TwoInline bs
    → OtherTwoInline op
    → (j : ℕ) → is_set (apply op bs) j ≡ apply_to_indices op (is_set bs) j
unfolding apply apply_to_indices
apply-indices (set_op i) bs two other = is_set-set_bit i bs two
apply-indices (clear_op i) bs two other = is_set-clear_bit i bs two
apply-indices (toggle_op i) bs two other = is_set-toggle i bs two
apply-indices clear_all_op bs two other = is_set-clear_all bs
apply-indices (or_op rhs) bs two other = is_set-bitor_assign rhs bs two other
apply-indices (and_op rhs) bs two other = is_set-bitand rhs bs two other

update-TwoInline :
    (f : ℕ → ℕ) (i : ℕ) (ws : List ℕ)
    → length ws ≡ inline_words
    → length (update f i ws) ≡ inline_words
update-TwoInline f i ws h = length-set ws i (f (get_or ws i 0)) ∙ h

apply-TwoInline :
    (op : BitOp) (bs : PvaBitSet) → TwoInline bs → OtherTwoInline op → TwoInline (apply op bs)
unfolding apply set_bit clear_bit toggle clear_all bitor_assign bitand
apply-TwoInline (set_op i) bs two other =
    if_intro TwoInline (ltb i inline_bits) _ _
      (λ here. update-TwoInline (λ w. bit_or w (mask_of i)) (i / 64) bs.inline two) (λ there. two)
apply-TwoInline (clear_op i) bs two other =
    if_intro TwoInline (ltb i inline_bits) _ _
      (λ here. update-TwoInline (λ w. bit_and w (not_word (mask_of i))) (i / 64) bs.inline two)
      (λ there. two)
apply-TwoInline (toggle_op i) bs two other =
    if_intro TwoInline (ltb i inline_bits) _ _
      (λ here. update-TwoInline (λ w. bit_xor w (mask_of i)) (i / 64) bs.inline two) (λ there. two)
apply-TwoInline clear_all_op bs two other = refl
apply-TwoInline (or_op rhs) bs two other = length-or_words bs.inline rhs.inline ∙ two
apply-TwoInline (and_op rhs) bs two other =
    omega (arith, length-and_words bs.inline rhs.inline, two, other)

-- The same operations lead from the same indices to the same indices.
run_on_indices_same :
    (ops : List BitOp) (p q : ℕ → Bool)
    → ((j : ℕ) → p j ≡ q j)
    → (j : ℕ) → run_on_indices ops p j ≡ run_on_indices ops q j
unfolding run_on_indices apply_to_indices
run_on_indices_same [] p q h = h
run_on_indices_same (set_op i ∷ ops) p q h = run_on_indices_same ops _ _ (λ j. rw (h j) refl)
run_on_indices_same (clear_op i ∷ ops) p q h = run_on_indices_same ops _ _ (λ j. rw (h j) refl)
run_on_indices_same (toggle_op i ∷ ops) p q h = run_on_indices_same ops _ _ (λ j. rw (h j) refl)
run_on_indices_same (clear_all_op ∷ ops) p q h = run_on_indices_same ops _ _ (λ j. refl)
run_on_indices_same (or_op rhs ∷ ops) p q h = run_on_indices_same ops _ _ (λ j. rw (h j) refl)
run_on_indices_same (and_op rhs ∷ ops) p q h = run_on_indices_same ops _ _ (λ j. rw (h j) refl)

-- A set of two inline words follows its indices: after any sequence of set, clear, toggle,
-- clear_all, union and intersection, with other sets of two inline words, is_set answers for every
-- index, within the object or in the vector, what the same operations make of the indices that it
-- answered for before.
pub run-refines :
    (ops : List BitOp) (bs : PvaBitSet)
    → TwoInline bs
    → All OtherTwoInline ops
    → (j : ℕ) → is_set (run ops bs) j ≡ run_on_indices ops (is_set bs) j
unfolding run run_on_indices
run-refines [] bs two others j = refl
run-refines (op ∷ ops) bs two (other, others) j =
    run-refines ops (apply op bs) (apply-TwoInline op bs two other) others j
    ∙ run_on_indices_same ops (is_set (apply op bs)) (apply_to_indices op (is_set bs))
        (apply-indices op bs two other) j
