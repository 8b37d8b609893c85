-- ===== src/Tcp/Sender/Queues/Acknowledged.antt =====
-- The retransmission queue as the sequence space that it covers: its bytes, and the FIN, which is
-- an empty buffer at the end.
use capybara_artifact.Base.{
  ℕ, zero, suc, ◌+◌, ◌-◌, ◌≤◌, ◌<◌, ◌≡◌, refl, ap, sym, ◌∙◌, ◌==◌, false, lt→ltb, le→ltb, ◌⊎◌, inl,
  inr, Option, some, none, List, [], ◌∷◌, ◌++◌, length, drop, adjust-drop, length-append,
  length-drop, Bool-cases, ltb, ltb→lt, arith,
}
use mathlib.Core.List.{map}
use capybara_artifact.State.{Buffer, Instant, UnackedSegment}
use capybara_artifact.Tcp.Sender.{Sender}
use capybara_artifact.Tcp.Sender.Queues.{acknowledge, remove_acknowledged_data, rto_sample}

-- The places of one segment in the sequence space; `none` is the FIN.
abbrev pub places : Buffer → List (Option ℕ)
places [] = none ∷ []
places (b ∷ bytes) = some b ∷ map some bytes

abbrev pub space : List UnackedSegment → List (Option ℕ)
space [] = []
space (segment ∷ q) = places segment.bytes ++ space q

-- Only the last segment may be the FIN.
abbrev pub FinLast : List UnackedSegment → Type 0
FinLast [] = Unit
FinLast (segment ∷ q) = ((0 < length segment.bytes) ⊎ (q ≡ [])) × FinLast q

drop-places : (n : ℕ) (b : Buffer) → n < length b → drop n (places b) ≡ places (drop n b)
drop-places zero b h = refl
drop-places (suc n) [] h = absurd (omega arith)
drop-places (suc n) (x ∷ []) h = absurd (omega arith)
drop-places (suc n) (x ∷ y ∷ b) h = drop-places n (y ∷ b) (omega arith)

length-map : (b : Buffer) → length (map {B = Option ℕ} some b) ≡ length b
length-map [] = refl
length-map (x ∷ b) = ap suc (length-map b)

length-places : (b : Buffer) → 0 < length b → length (places b) ≡ length b
length-places [] h = absurd (omega arith)
length-places (x ∷ b) h = ap suc (length-map b)

module _ {ℓ} {A : Type ℓ} where
  drop-append_lt : (n : ℕ) (xs ys : List A) → n ≤ length xs → drop n (xs ++ ys) ≡ drop n xs ++ ys
  drop-append_lt zero xs ys h = refl
  drop-append_lt (suc n) [] ys h = absurd (omega arith)
  drop-append_lt (suc n) (x ∷ xs) ys h = drop-append_lt n xs ys (omega arith)

  drop-append_ge :
      (n : ℕ) (xs ys : List A) → length xs ≤ n → drop n (xs ++ ys) ≡ drop (n - length xs) ys
  drop-append_ge n [] ys h = ap (λ k. drop k ys) (omega arith)
  drop-append_ge zero (x ∷ xs) ys h = absurd (omega arith)
  drop-append_ge (suc n) (x ∷ xs) ys h =
      drop-append_ge n xs ys (omega arith) ∙ ap (λ k. drop k ys) (omega arith)

-- What the loop leaves when it is to remove `n` places.
pub record Removed (now : Instant) (n : ℕ) (q : List UnackedSegment) : Type 0 where
  pub left : List UnackedSegment
  pub samples : List ℕ
  pub removed : acknowledge now n q ≡ some (left, samples)
  pub rest : space left ≡ drop n (space q)
  pub fin_last : FinLast left

acknowledge-partial :
    (now : Instant) (n : ℕ) (seg : UnackedSegment) (q : List UnackedSegment)
    → FinLast q
    → 0 < n
    → n < length seg.bytes
    → Removed now n (seg ∷ q)
unfolding acknowledge
acknowledge-partial now n seg q f p h =
    let l = length-places (seg.bytes) (omega arith) in
    let a = drop-append_lt n (places seg.bytes) (space q) (omega arith) in
    let b = drop-places n seg.bytes h in
    let z : (n == 0) ≡ false = ground arith in
    let d = length-drop n seg.bytes in
    record {
      left = record { bytes = drop n seg.bytes; initial_tx = none } ∷ q;
      samples = rto_sample now seg.initial_tx;
      removed = rw (z, lt→ltb n (length seg.bytes) h, adjust-drop n seg.bytes (omega arith));
      rest = sym (ap (λ r. r ++ space q) b) ∙ sym a;
      fin_last = (inl (omega arith), f);
    }

acknowledge-whole :
    (now : Instant) (n : ℕ) (seg : UnackedSegment) (q : List UnackedSegment)
    → 0 < length seg.bytes
    → length seg.bytes ≤ n
    → Removed now (n - length seg.bytes) q
    → Removed now n (seg ∷ q)
unfolding acknowledge
acknowledge-whole now n seg q p h r =
    let l = length-places seg.bytes p in
    let a = drop-append_ge n (places seg.bytes) (space q) (omega arith) in
    let z : (n == 0) ≡ false = ground arith in
    let y : (length seg.bytes == 0) ≡ false = ground arith in
    record {
      left = r.left;
      samples = rto_sample now seg.initial_tx ++ r.samples;
      removed = rw (z, le→ltb n (length seg.bytes) h, y, r.removed);
      rest = r.rest ∙ sym (a ∙ ap (λ k. drop (n - k) (space q)) l);
      fin_last = r.fin_last;
    }

-- The FIN, which only the last acknowledged place can be.
acknowledge-fin :
    (now : Instant) (n : ℕ) (seg : UnackedSegment)
    → seg.bytes ≡ []
    → n ≡ 1
    → Removed now n (seg ∷ [])
unfolding acknowledge
acknowledge-fin now n seg e o = record {
  left = [];
  samples = rto_sample now seg.initial_tx;
  removed = rw (o, e);
  rest = rw (o, e);
  fin_last = tt;
}

acknowledge-zero : (now : Instant) (q : List UnackedSegment) → FinLast q → Removed now 0 q
unfolding acknowledge
acknowledge-zero now [] f = record {
  left = [];
  samples = [];
  removed = refl;
  rest = refl;
  fin_last = tt;
}
acknowledge-zero now (seg ∷ q) f = record {
  left = seg ∷ q;
  samples = [];
  removed = refl;
  rest = refl;
  fin_last = f;
}

nil_or_filled : (b : Buffer) → (b ≡ []) ⊎ (0 < length b)
nil_or_filled [] = inl refl
nil_or_filled (x ∷ b) = inr (omega arith)

length-space :
    (seg : UnackedSegment) (q : List UnackedSegment)
    → 0 < length seg.bytes
    → length (space (seg ∷ q)) ≡ length seg.bytes + length (space q)
length-space seg q p =
    length-append (places seg.bytes) (space q)
    ∙ ap (λ k. k + length (space q)) (length-places seg.bytes p)

acknowledge-filled :
    (now : Instant) (n : ℕ) (seg : UnackedSegment) (q : List UnackedSegment)
    → ((m : ℕ) → m ≤ length (space q) → Removed now m q)
    → FinLast q
    → 0 < length seg.bytes
    → 0 < n
    → n ≤ length (space (seg ∷ q))
    → Removed now n (seg ∷ q)
acknowledge-filled now n seg q ih f p z h =
    let l = length-space seg q p in
    elim (Bool-cases (ltb n (length seg.bytes))) [
      | inl e ↦ acknowledge-partial now n seg q f z (ltb→lt n (length seg.bytes) e)
      | inr e ↦
          let g : length seg.bytes ≤ n = ground arith in
          acknowledge-whole now n seg q p g (ih (n - length seg.bytes) (omega arith))
    ]

acknowledge-empty :
    (now : Instant) (n : ℕ) (seg : UnackedSegment) (q : List UnackedSegment)
    → q ≡ []
    → seg.bytes ≡ []
    → n < length (space (seg ∷ q))
    → Removed now (suc n) (seg ∷ q)
acknowledge-empty now n seg q e b h =
    let one : length (space (seg ∷ q)) ≡ 1 = rw (e, b) in
    rw e (acknowledge-fin now (suc n) seg b (omega arith))

acknowledge-Removed :
    (now : Instant) (n : ℕ) (q : List UnackedSegment)
    → FinLast q
    → n ≤ length (space q)
    → Removed now n q
acknowledge-Removed now zero q f h = acknowledge-zero now q f
acknowledge-Removed now (suc n) [] f h = absurd (omega arith)
acknowledge-Removed now (suc n) (seg ∷ q) (inl p, f) h =
    acknowledge-filled now (suc n) seg q (λ m k. acknowledge-Removed now m q f k) f p (omega arith)
      h
acknowledge-Removed now (suc n) (seg ∷ q) (inr e, f) h = elim (nil_or_filled seg.bytes) [
  | inl b ↦ acknowledge-empty now n seg q e b h
  | inr p ↦
      acknowledge-filled now (suc n) seg q (λ m k. acknowledge-Removed now m q f k) f p
        (omega arith) h
]

-- Where at most as many places of the sequence space are acknowledged as the retransmission queue
-- covers, and only its last segment may be the FIN, `remove_acknowledged_data` ends without a failed
-- assertion: exactly those places are gone from the front of the queue, in whatever way they lie
-- over the segments, only the last segment left may be the FIN, and nothing else of the sender
-- changes.
pub remove-space :
    (n : ℕ) (now : Instant) (s : Sender)
    → FinLast s.unacked_queue
    → n ≤ length (space s.unacked_queue)
    → (left : List UnackedSegment) × ((samples : List ℕ) × (((remove_acknowledged_data n now s
              ≡ some (record s { unacked_queue = left }, samples))
            × (space left ≡ drop n (space s.unacked_queue)))
          × FinLast left))
unfolding remove_acknowledged_data
remove-space n now s f h =
    let r = acknowledge-Removed now n s.unacked_queue f h in
    (r.left, (r.samples, ((rw r.removed, r.rest), r.fin_last)))
