-- ===== src/Store/SharedBuffer/Steps.antt =====
-- Runs of the buffer: any sequence of calls by the ingest threads and the store loop.
use aura_epics.Prelude.{
  ℕ, ◌+◌, ◌≤◌, ◌%◌, ◌^◌, ◌≡◌, ap, sym, ◌∙◌, List, [], ◌∷◌, ◌++◌, append_assoc, append-nil, Bool,
  true, false, Bool-cases, inl, inr, length, length-append, ltb, arith,
}
use aura_epics.Store.SharedBuffer.{SharedBuffer, push_scalar, push_other, take_scalars, take_others}

pub data Call (S W : Type 0) : Type 0 where
  scalar : S → Call S W
  other : W → Call S W
  drain_scalars drain_others : Call S W

-- What the callers have seen: the rows that the store loop took, in its order, the rows that a push
-- accepted, and the number of pushes that were refused.
pub record Seen (S W : Type 0) : Type 0 where
  pub taken : List S
  pub taken_others : List W
  pub accepted : List S
  pub accepted_others : List W
  pub refused : ℕ

module _ {S W : Type 0} where
  abbrev count_scalar : S → Bool → Seen S W → Seen S W
  count_scalar row true s = record s { accepted = s.accepted ++ (row ∷ []) }
  count_scalar row false s = record s { refused = s.refused + 1 }

  abbrev count_other : W → Bool → Seen S W → Seen S W
  count_other row true s = record s { accepted_others = s.accepted_others ++ (row ∷ []) }
  count_other row false s = record s { refused = s.refused + 1 }

  abbrev pub step : Call S W → Seen S W × SharedBuffer S W → Seen S W × SharedBuffer S W
  step (scalar row) (s, b) =
      let (accepted, b') = push_scalar row b in (count_scalar row accepted s, b')
  step (other row) (s, b) =
      let (accepted, b') = push_other row b in (count_other row accepted s, b')
  step drain_scalars (s, b) =
      let (rows, b') = take_scalars b in (record s { taken = s.taken ++ rows }, b')
  step drain_others (s, b) =
      let (rows, b') = take_others b in (record s { taken_others = s.taken_others ++ rows }, b')

  abbrev pub run : List (Call S W) → Seen S W × SharedBuffer S W → Seen S W × SharedBuffer S W
  run [] x = x
  run (c ∷ cs) x = run cs (step c x)

  -- No row is lost, doubled or reordered, every refusal is counted, and no queue outgrows the
  -- limit.
  pub record Balanced (x : Seen S W × SharedBuffer S W) : Type 0 where
    pub scalars : x.0.accepted ≡ x.0.taken ++ x.1.scalars
    pub others : x.0.accepted_others ≡ x.0.taken_others ++ x.1.others
    pub refused : x.1.dropped ≡ x.0.refused % 2 ^ 64
    pub fits : length x.1.scalars ≤ x.1.max_len
    pub fits_others : length x.1.others ≤ x.1.max_len

  module _ (s : Seen S W) (b : SharedBuffer S W) (h : Balanced (s, b)) where
    refused_next : (b.dropped + 1) % 2 ^ 64 ≡ (s.refused + 1) % 2 ^ 64
    refused_next = omega (arith, h.refused)

    step_scalar : (row : S) → Balanced (step (scalar row) (s, b))
    unfolding push_scalar
    step_scalar row = elim (Bool-cases (ltb (length b.scalars) b.max_len)) [
      | inl room ↦ rw room (record {
        scalars = ap (λ l. l ++ (row ∷ [])) h.scalars ∙ append_assoc s.taken b.scalars (row ∷ []);
        others = h.others;
        refused = h.refused;
        fits = ground (arith, length-append b.scalars (row ∷ []));
        fits_others = h.fits_others;
      })
      | inr full ↦ rw full (record {
        scalars = h.scalars;
        others = h.others;
        refused = refused_next;
        fits = h.fits;
        fits_others = h.fits_others;
      })
    ]

    step_other : (row : W) → Balanced (step (other row) (s, b))
    unfolding push_other
    step_other row = elim (Bool-cases (ltb (length b.others) b.max_len)) [
      | inl room ↦ rw room (record {
        scalars = h.scalars;
        others =
            ap (λ l. l ++ (row ∷ [])) h.others ∙ append_assoc s.taken_others b.others (row ∷ []);
        refused = h.refused;
        fits = h.fits;
        fits_others = ground (arith, length-append b.others (row ∷ []));
      })
      | inr full ↦ rw full (record {
        scalars = h.scalars;
        others = h.others;
        refused = refused_next;
        fits = h.fits;
        fits_others = h.fits_others;
      })
    ]

    step_drain : Balanced (step drain_scalars (s, b))
    unfolding take_scalars
    step_drain = record {
      scalars = h.scalars ∙ sym (append-nil (s.taken ++ b.scalars));
      others = h.others;
      refused = h.refused;
      fits = omega arith;
      fits_others = h.fits_others;
    }

    step_drain_others : Balanced (step drain_others (s, b))
    unfolding take_others
    step_drain_others = record {
      scalars = h.scalars;
      others = h.others ∙ sym (append-nil (s.taken_others ++ b.others));
      refused = h.refused;
      fits = h.fits;
      fits_others = omega arith;
    }

  step-Balanced :
      (c : Call S W) (s : Seen S W) (b : SharedBuffer S W)
      → Balanced (s, b)
      → Balanced (step c (s, b))
  step-Balanced (scalar row) s b h = step_scalar s b h row
  step-Balanced (other row) s b h = step_other s b h row
  step-Balanced drain_scalars s b h = step_drain s b h
  step-Balanced drain_others s b h = step_drain_others s b h

  -- After any sequence of pushes and takes in any order of the threads, from a state where this
  -- holds: the rows taken and the rows still held are the accepted ones in their order, for each
  -- queue, the counter has every refused push modulo 2 ^ 64, and no queue is above the limit.
  pub run-Balanced :
      (cs : List (Call S W)) (x : Seen S W × SharedBuffer S W) → Balanced x → Balanced (run cs x)
  run-Balanced [] x h = h
  run-Balanced (c ∷ cs) (s, b) h = run-Balanced cs (step c (s, b)) (step-Balanced c s b h)
