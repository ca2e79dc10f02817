-- ===== src/Store/SharedBuffer/Tests.antt =====
-- A run of a buffer for one row.
use aura_epics.Prelude.{ℕ, ◌≡◌, refl, List, [], ◌∷◌, arith}
use aura_epics.Store.SharedBuffer.{SharedBuffer, new, push_scalar, push_other, take_scalars}
use aura_epics.Store.SharedBuffer.Steps.{
  Call, scalar, other, drain_scalars, Seen, Balanced, run, run-Balanced,
}

abbrev nothing_seen : Seen ℕ ℕ
nothing_seen = record {
  taken = [];
  taken_others = [];
  accepted = [];
  accepted_others = [];
  refused = 0;
}

abbrev for_one : SharedBuffer ℕ ℕ
for_one = record { scalars = []; others = []; max_len = 1; dropped = 0; notified = 0 }

for_one-new : new 1 ≡ for_one
unfolding new
for_one-new = refl

abbrev calls : List (Call ℕ ℕ)
calls = scalar 4 ∷ scalar 5 ∷ drain_scalars ∷ other 6 ∷ scalar 7 ∷ []

run-calls : (run calls (nothing_seen, for_one)).0 ≡ record {
  taken = 4 ∷ [];
  taken_others = [];
  accepted = 4 ∷ 7 ∷ [];
  accepted_others = 6 ∷ [];
  refused = 1;
}
unfolding push_scalar push_other take_scalars
run-calls = refl

for_one-Balanced : Balanced (nothing_seen, for_one)
for_one-Balanced = record {
  scalars = refl;
  others = refl;
  refused = omega arith;
  fits = omega arith;
  fits_others = omega arith;
}

run-Balanced_example : Balanced (run calls (nothing_seen, for_one))
run-Balanced_example = run-Balanced calls (nothing_seen, for_one) for_one-Balanced
