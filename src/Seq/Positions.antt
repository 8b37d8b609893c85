-- ===== src/Seq/Positions.antt =====
-- Positions in a stream that begins at some sequence number, in a window of less than 2 ^ 31.
use capybara_artifact.Base.{ℕ, ◌+◌, ◌-◌, ◌^◌, ◌≤◌, ◌<◌, ◌≡◌, ◌==◌, ltb, leb, IsU32, arith}
use capybara_artifact.Seq.{add, sub, lt, le, ge}
use capybara_artifact.Seq.Order.{compare_window}

pub add_bound : (base p : ℕ) → IsU32 (add base p)
unfolding add
add_bound base p = omega arith

add_offset : (base lo x : ℕ) → lo ≤ x → add (add base lo) (x - lo) ≡ add base x
unfolding add
add_offset base lo x h = omega arith

-- Comparing sequence numbers of positions in a window.
pub compare :
    (base lo hi x y : ℕ)
    → lo ≤ x
    → x ≤ hi
    → lo ≤ y
    → y ≤ hi
    → hi < lo + 2 ^ 31
    → (lt (add base x) (add base y) ≡ ltb x y)
      × (le (add base x) (add base y) ≡ leb x y)
      × (ge (add base x) (add base y) ≡ leb y x)
compare base lo hi x y a b c d w =
    let (p, q, r, r') =
      compare_window (add base lo) (x - lo) (y - lo) (add_bound base lo) (omega arith)
        (omega arith) in
    let ex : add (add base lo) (x - lo) ≡ add base x = add_offset base lo x a in
    let ey : add (add base lo) (y - lo) ≡ add base y = add_offset base lo y c in
    let l : ltb (x - lo) (y - lo) ≡ ltb x y = ground arith in
    let m : leb (x - lo) (y - lo) ≡ leb x y = ground arith in
    let n : leb (y - lo) (x - lo) ≡ leb y x = ground arith in
    (rw (ex, ey, l) at p, rw (ex, ey, m) at q, rw (ex, ey, n) at r')

-- Subtracting them.
pub sub_positions : (base x y : ℕ) → x ≤ y → y < x + 2 ^ 32 → sub (add base y) (add base x) ≡ y - x
unfolding sub add
sub_positions base x y h w = omega arith

-- Equal sequence numbers are those of equal positions.
pub equal_positions :
    (base lo hi x y : ℕ)
    → lo ≤ x
    → x ≤ hi
    → lo ≤ y
    → y ≤ hi
    → hi < lo + 2 ^ 31
    → (add base x == add base y) ≡ (x == y)
unfolding add
equal_positions base lo hi x y a b c d w = ground arith

pub add_position : (base x n : ℕ) → add (add base x) n ≡ add base (x + n)
unfolding add
add_position base x n = omega arith

pub sub_back : (base x n : ℕ) → n ≤ x → n < 2 ^ 32 → sub (add base x) n ≡ add base (x - n)
unfolding sub add
sub_back base x n h w = omega arith
