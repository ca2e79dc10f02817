-- ===== src/Store/SharedBuffer.antt =====
-- crates/aura-store/src/writer/shared_buf.rs: the bounded buffer between ingest and the store loop.
-- A method changes the rows under a lock, so each is one step. A refused row is counted behind the
-- lock, by an atomic addition; it commutes with every change under the lock, and stands within the
-- step. The row types are parameters, and the capacity
-- of a vector is not modelled. The counter of dropped rows wraps at 2 ^ 64.
pub mod Steps
mod Tests
use aura_epics.Prelude.{
  ℕ, ◌+◌, ◌%◌, ◌^◌, ◌≡◌, List, [], ◌∷◌, ◌++◌, Bool, true, false, ◌&&◌, length, ltb, if◌then◌else◌,
}

module _ (ScalarRow WriterRow : Type 0) where
  -- `notified` counts the calls of `notify_one`.
  pub record SharedBuffer : Type 0 where
    pub scalars : List ScalarRow
    pub others : List WriterRow
    pub max_len : ℕ
    pub dropped : ℕ
    pub notified : ℕ

-- `buf.is_empty()`
abbrev pub no_rows {ℓ} : {A : Type ℓ} → List A → Bool
no_rows [] = true
no_rows (x ∷ xs) = false

-- `if was_empty { notify_one() }`
abbrev pub notify_if : Bool → ℕ → ℕ
notify_if true n = n + 1
notify_if false n = n

module _ {ScalarRow WriterRow : Type 0} where
  unfoldable pub new : ℕ → SharedBuffer ScalarRow WriterRow
  new max_len = record { scalars = []; others = []; max_len = max_len; dropped = 0; notified = 0 }

  -- `fetch_add(1)`
  abbrev pub drop_row : SharedBuffer ScalarRow WriterRow → SharedBuffer ScalarRow WriterRow
  drop_row b = record b { dropped = (b.dropped + 1) % 2 ^ 64 }

  unfoldable pub push_scalar :
      ScalarRow → SharedBuffer ScalarRow WriterRow → Bool × SharedBuffer ScalarRow WriterRow
  push_scalar row b =
      if ltb (length b.scalars) b.max_len
      then (
        true,
        record b {
          scalars = b.scalars ++ (row ∷ []);
          notified = notify_if (no_rows b.scalars) b.notified;
        },
      )
      else (false, drop_row b)

  unfoldable pub push_other :
      WriterRow → SharedBuffer ScalarRow WriterRow → Bool × SharedBuffer ScalarRow WriterRow
  push_other row b =
      if ltb (length b.others) b.max_len
      then (
        true,
        record b {
          others = b.others ++ (row ∷ []);
          notified = notify_if (no_rows b.others) b.notified;
        },
      )
      else (false, drop_row b)

  unfoldable pub take_scalars :
      SharedBuffer ScalarRow WriterRow → List ScalarRow × SharedBuffer ScalarRow WriterRow
  take_scalars b = (b.scalars, record b { scalars = [] })

  unfoldable pub take_others :
      SharedBuffer ScalarRow WriterRow → List WriterRow × SharedBuffer ScalarRow WriterRow
  take_others b = (b.others, record b { others = [] })

  unfoldable pub len : SharedBuffer ScalarRow WriterRow → ℕ
  len b = length b.scalars + length b.others

  unfoldable pub is_empty : SharedBuffer ScalarRow WriterRow → Bool
  is_empty b = no_rows b.scalars && no_rows b.others

  unfoldable pub total_dropped : SharedBuffer ScalarRow WriterRow → ℕ
  total_dropped b = b.dropped
