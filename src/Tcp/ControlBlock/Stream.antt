-- ===== src/Tcp/ControlBlock/Stream.antt =====
-- The peer's byte stream: what a segment says of it, by position, where sequence numbers wrap.
use capybara_artifact.Base.{
  ℕ, zero, suc, ◌+◌, ◌-◌, ◌%◌, ◌^◌, ◌≤◌, ◌<◌, ◌≡◌, refl, ap, sym, ◌∙◌, [], ◌∷◌, ◌++◌, length, take,
  drop, length-append, take-length_append, drop-length_append, arith,
}
use capybara_artifact.Seq.{SeqNumber, add}
use capybara_artifact.State.{Buffer}

-- `n` bytes of the stream from a position on.
abbrev pub slice : (ℕ → ℕ) → ℕ → ℕ → Buffer
slice f p zero = []
slice f p (suc n) = f p ∷ slice f (p + 1) n

pub length-slice : (f : ℕ → ℕ) (p n : ℕ) → length (slice f p n) ≡ n
length-slice f p zero = refl
length-slice f p (suc n) = ap suc (length-slice f (p + 1) n)

pub slice-append : (f : ℕ → ℕ) (p a b : ℕ) → slice f p a ++ slice f (p + a) b ≡ slice f p (a + b)
slice-append f p zero b =
    let z : p + 0 ≡ p = omega arith in let y : 0 + b ≡ b = omega arith in rw (z, y)
slice-append f p (suc a) b =
    let z : p + suc a ≡ p + 1 + a = omega arith in
    let y : suc a + b ≡ suc (a + b) = omega arith in
    rw (z, y) (ap (◌∷◌ (f p)) (slice-append f (p + 1) a b))

pub take-slice : (f : ℕ → ℕ) (p k n : ℕ) → k ≤ n → take k (slice f p n) ≡ slice f p k
take-slice f p zero n h = refl
take-slice f p (suc k) zero h = absurd (omega arith)
take-slice f p (suc k) (suc n) h = ap (◌∷◌ (f p)) (take-slice f (p + 1) k n (omega arith))

pub drop-slice : (f : ℕ → ℕ) (p k n : ℕ) → k ≤ n → drop k (slice f p n) ≡ slice f (p + k) (n - k)
drop-slice f p zero n h =
    let z : p + 0 ≡ p = omega arith in let y : n - 0 ≡ n = omega arith in rw (z, y)
drop-slice f p (suc k) zero h = absurd (omega arith)
drop-slice f p (suc k) (suc n) h =
    let z : p + suc k ≡ p + 1 + k = omega arith in
    let y : suc n - suc k ≡ n - k = omega arith in
    rw (z, y) (drop-slice f (p + 1) k n (omega arith))

-- Positions advance as sequence numbers do.
pub add-add : (base p k : ℕ) → add (add base p) (k % 2 ^ 32) ≡ add base (p + k)
unfolding add
add-add base p k = omega arith

-- Within a window of 2 ^ 32 positions, a sequence number names one position.
pub add-injective :
    (base p q lo hi : ℕ)
    → lo ≤ p
    → p ≤ hi
    → lo ≤ q
    → q ≤ hi
    → hi < lo + 2 ^ 32
    → add base p ≡ add base q
    → p ≡ q
unfolding add
add-injective base p q lo hi a b c d w e = omega arith

-- An entry of the store holds bytes of the stream, between two positions.
pub record StoredAt (f : ℕ → ℕ) (base lo hi : ℕ) (e : SeqNumber × Buffer) : Type 0 where
  pub pos : ℕ
  pub start : e.0 ≡ add base pos
  pub bytes : e.1 ≡ slice f pos (length (e.1))
  pub above : lo ≤ pos
  pub below : pos + length (e.1) ≤ hi

pub add_next : (base p n q x : ℕ) → x ≡ add base p → p + n ≡ q → add x (n % 2 ^ 32) ≡ add base q
unfolding add
add_next base p n q x e h = omega arith

-- The two parts of a slice that is a concatenation.
pub split-slice :
    (f : ℕ → ℕ) (p k : ℕ) (a b : Buffer)
    → a ++ b ≡ slice f p k
    → (length a ≤ k) × (a ≡ slice f p (length a)) × (b ≡ slice f (p + length a) (k - length a))
split-slice f p k a b e =
    let l : length a + length b ≡ k = sym (length-append a b) ∙ ap length e ∙ length-slice f p k in
    (
      omega arith,
      sym (take-length_append a b)
          ∙ ap (take (length a)) e
          ∙ take-slice f p (length a) k (omega arith),
      sym (drop-length_append a b)
          ∙ ap (drop (length a)) e
          ∙ drop-slice f p (length a) k (omega arith),
    )
