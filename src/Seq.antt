-- ===== src/Seq.antt =====
-- inetstack/protocols/tcp/sequence_number.rs: TCP sequence numbers, unsigned 32-bit integers whose
-- arithmetic wraps and whose comparisons read the difference as a signed integer.
pub mod Order
pub mod Positions
use capybara_artifact.Base.{ℕ, ◌+◌, ◌-◌, ◌%◌, ◌^◌, ◌==◌, Bool, ◌&&◌, ◌||◌, not, leb}

-- `struct SeqNumber { value: u32 }`. Its range is a hypothesis where it matters.
abbrev pub SeqNumber : Type 0
SeqNumber = ℕ

-- `wrapping_add`
unfoldable pub add : SeqNumber → SeqNumber → SeqNumber
add a b = (a + b) % 2 ^ 32

-- `wrapping_sub`; `-` on ℕ stops at 0, so the modulus is added first.
unfoldable pub sub : SeqNumber → SeqNumber → SeqNumber
sub a b = (a + 2 ^ 32 - b) % 2 ^ 32

-- The sign of `w as i32`.
abbrev is_negative : ℕ → Bool
is_negative w = leb (2 ^ 31) w

unfoldable pub lt : SeqNumber → SeqNumber → Bool
unfolding sub
lt a b = is_negative (sub a b)

unfoldable pub le : SeqNumber → SeqNumber → Bool
unfolding sub
le a b = is_negative (sub a b) || sub a b == 0

unfoldable pub gt : SeqNumber → SeqNumber → Bool
unfolding sub
gt a b = not (is_negative (sub a b)) && not (sub a b == 0)

unfoldable pub ge : SeqNumber → SeqNumber → Bool
unfolding sub
ge a b = not (is_negative (sub a b))
