-- ===== src/Seq/Order.antt =====
-- What the comparisons of sequence numbers mean: inside any half of the sequence space they are
-- the order of the offsets, wherever the space wraps.
use capybara_artifact.Base.{ℕ, ◌+◌, ◌-◌, ◌%◌, ◌^◌, ◌≤◌, ◌<◌, ◌≡◌, ◌⊎◌, ltb, leb, IsU32, arith}
use capybara_artifact.Seq.{SeqNumber, add, sub, lt, le, gt, ge}

-- Addition and subtraction undo one another, and stay below 2 ^ 32.
pub sub-add :
    (a b : SeqNumber)
    → IsU32 a
    → IsU32 b
    → (sub (add a b) b ≡ a) × (add (sub a b) b ≡ a) × IsU32 (add a b) × IsU32 (sub a b)
unfolding add sub
sub-add a b ha hb = omega arith

-- The distance from `s + i` to `s + j`, for an offset j that is not before i.
pub sub-add-add : (s i j : ℕ) → IsU32 s → i ≤ j → j < 2 ^ 32 → sub (add s j) (add s i) ≡ j - i
unfolding add sub
sub-add-add s i j hs hij hj = omega arith

pub sub_before :
    (s i j : ℕ) → IsU32 s → i < j → j < 2 ^ 32 → sub (add s i) (add s j) ≡ 2 ^ 32 + i - j
unfolding add sub
sub_before s i j hs hij hj = omega arith

-- The distance between two offsets, both ways round.
sub_cases :
    (s i j : ℕ)
    → IsU32 s
    → i < 2 ^ 31
    → j < 2 ^ 31
    → ((i ≤ j)
        × (sub (add s j) (add s i) ≡ j - i)
        × (sub (add s i) (add s j) ≡ (2 ^ 32 + i - j) % 2 ^ 32))
      ⊎ ((j < i) × (sub (add s j) (add s i) ≡ 2 ^ 32 + j - i) × (sub (add s i) (add s j) ≡ i - j))
unfolding add sub
sub_cases s i j hs hi hj = omega arith

-- Seen from any sequence number `s`, the four comparisons of `s + i` and `s + j` are those of the
-- offsets i and j, provided that these lie below 2 ^ 31. So they are right in every window of at
-- most 2 GiB, also where it runs over the end of the sequence space.
pub compare_window :
    (s i j : ℕ)
    → IsU32 s
    → i < 2 ^ 31
    → j < 2 ^ 31
    → (lt (add s i) (add s j) ≡ ltb i j)
      × (le (add s i) (add s j) ≡ leb i j)
      × (gt (add s i) (add s j) ≡ ltb j i)
      × (ge (add s i) (add s j) ≡ leb j i)
unfolding lt le gt ge
compare_window s i j hs hi hj = ground (arith, sub_cases s i j hs hi hj)
