-- ===== src/Tcp/ControlBlock/InOrder.antt =====
-- What the application reads of a connection is the peer's stream, in order and without a gap.
use capybara_artifact.Base.{
  ℕ, ◌+◌, ◌-◌, ◌^◌, ◌≤◌, ◌<◌, ◌==◌, ◌≡◌, refl, subst, false, ap, ap₂, sym, ◌∙◌, Bool-cases, inl,
  inr, some, List, [], ◌∷◌, ◌++◌, append-nil, append_assoc, >>=-some, length, All, arith,
}
use mathlib.Core.List.{flatten}
use capybara_artifact.Seq.{SeqNumber, add}
use capybara_artifact.State.{Buffer}
use capybara_artifact.Tcp.ControlBlock.{
  Receiver, ControlBlock, starts_at, len32, push, pop, pop_from, recover, receive_data, poll_recv,
}
use capybara_artifact.Tcp.ControlBlock.Stream.{
  slice, slice-append, split-slice, add_next, add-injective, StoredAt,
}

pub flatten-append : (xs : List Buffer) (b : Buffer) → flatten (xs ++ (b ∷ [])) ≡ flatten xs ++ b
unfolding flatten
flatten-append [] b = append-nil b
flatten-append (x ∷ xs) b = rw (flatten-append xs b) (sym (append_assoc x (flatten xs) b))

-- The receiver has read `m` bytes of the stream, and holds the next `k`.
pub record Receives (f : ℕ → ℕ) (base m k : ℕ) (r : Receiver) : Type 0 where
  pub reader : r.reader_next ≡ add base m
  pub next : r.receive_next ≡ add base (m + k)
  pub queue : flatten r.recv_queue ≡ slice f m k

-- The control block besides holds, in its store, bytes of the stream between `lo` and `hi`.
pub record Reads (f : ℕ → ℕ) (base lo hi m k : ℕ) (cb : ControlBlock) : Type 0 where
  pub receiver : Receives f base m k cb.receiver
  pub stored : All (StoredAt f base lo hi) cb.out_of_order
  pub low : lo ≤ m
  pub high : m + k ≤ hi

push-Receives :
    (f : ℕ → ℕ) (base m k : ℕ) (buf : Buffer) (r : Receiver)
    → Receives f base m k r
    → buf ≡ slice f (m + k) (length buf)
    → Receives f base m (k + length buf) (push buf r)
unfolding push
push-Receives f base m k buf r v e = record {
  reader = v.reader;
  next =
      add_next base (m + k) (length buf) (m + (k + length buf)) r.receive_next v.next (omega arith);
  queue = flatten-append r.recv_queue buf ∙ ap₂ ◌++◌ v.queue e ∙ slice-append f m k (length buf);
}

-- How many bytes there are in a part of the store.
unfoldable pub total : List (SeqNumber × Buffer) → ℕ
total [] = 0
total ((s, b) ∷ q) = length b + total q

-- The loop over the store moves entries from the front of `q`, the bytes of which follow the `k` that
-- are there, and stops before an entry that does not start where they end.
pub record Moves (q left : List (SeqNumber × Buffer)) (k held : ℕ) (next : SeqNumber) : Type 0 where
  pub moved : List (SeqNumber × Buffer)
  pub parts : q ≡ moved ++ left
  pub bytes : held ≡ k + total moved
  pub stops : starts_at next left ≡ false

-- What the loop leaves.
record Recovered (f : ℕ → ℕ) (base lo hi m k : ℕ) (q : List (SeqNumber × Buffer))
    (res : SeqNumber × (List (SeqNumber × Buffer) × Receiver)) : Type 0 where
  held : ℕ
  moves : Moves q (res.1.0) k held ((res.1.1).receive_next)
  high : m + held ≤ hi
  receiver : Receives f base m held (res.1.1)
  stored : All (StoredAt f base lo hi) (res.1.0)

first-Moves :
    (s : SeqNumber) (b : Buffer) (q left : List (SeqNumber × Buffer)) (k held : ℕ)
    (next : SeqNumber)
    → Moves q left (k + length b) held next
    → Moves ((s, b) ∷ q) left k held next
unfolding total
first-Moves s b q left k held next w = record {
  moved = (s, b) ∷ w.moved;
  parts = ap (λ l. (s, b) ∷ l) w.parts;
  bytes = omega (arith, w.bytes);
  stops = w.stops;
}

recover-Recovered :
    (f : ℕ → ℕ) (base lo hi m k next : ℕ) (q : List (SeqNumber × Buffer)) (r : Receiver)
    → next ≡ add base (m + k)
    → Receives f base m k r
    → All (StoredAt f base lo hi) q
    → lo ≤ m
    → m + k ≤ hi
    → hi < lo + 2 ^ 32
    → Recovered f base lo hi m k q (recover next q r)
unfolding recover total
recover-Recovered f base lo hi m k next [] r n v a l h w = record {
  held = k;
  moves = record { moved = []; parts = refl; bytes = omega arith; stops = refl };
  high = h;
  receiver = v;
  stored = tt;
}
recover-Recovered f base lo hi m k next ((s, b) ∷ q) r n v (e, a) l h w =
    elim (Bool-cases (s == next)) [
      | inl t ↦
          let same : s ≡ next = ground arith in
          let bound : e.pos + length b ≤ hi = e.below in
          let at : m + k ≡ e.pos =
            add-injective base (m + k) e.pos lo hi (omega arith) h e.above (omega arith) w
              (sym n ∙ sym same ∙ e.start) in
          let c : b ≡ slice f (m + k) (length b) = rw at e.bytes in
          let z : add next (len32 b) ≡ add base (m + (k + length b)) =
            add_next base (m + k) (length b) (m + (k + length b)) next n (omega arith) in
          let rest =
            recover-Recovered f base lo hi m (k + length b) (add next (len32 b)) q (push b r) z
              (push-Receives f base m k b r v c) a l (omega arith) w in
          rw t (record {
            held = rest.held;
            moves = first-Moves s b q _ k rest.held _ rest.moves;
            high = rest.high;
            receiver = rest.receiver;
            stored = rest.stored;
          })
      | inr t ↦
          let z : next ≡ r.receive_next = n ∙ sym v.next in
          rw t (record {
            held = k;
            moves = record {
              moved = [];
              parts = refl;
              bytes = omega arith;
              stops = subst (λ x. (s == x) ≡ false) z t;
            };
            high = h;
            receiver = v;
            stored = (e, a);
          })
    ]

-- A segment that starts at the next expected position, whose bytes are the stream's, is appended
-- to what can be read, and so is what it makes contiguous: the entries at the front of the store up
-- to the first that does not start where the received bytes then end. Afterwards the receive queue
-- is the stream from the read position on, longer by exactly the segment and these entries, and the
-- store has the other entries, which still hold stream bytes. Positions are within one window of
-- 2 ^ 32.
pub receive_data-Reads :
    (f : ℕ → ℕ) (base lo hi m k seg_start : ℕ) (buf : Buffer) (cb : ControlBlock)
    → Reads f base lo hi m k cb
    → buf ≡ slice f (m + k) (length buf)
    → m + k + length buf ≤ hi
    → hi < lo + 2 ^ 32
    → (k' : ℕ) × Moves cb.out_of_order
        (((receive_data seg_start buf cb).1).out_of_order)
        (k + length buf)
        k'
        ((((receive_data seg_start buf cb).1).receiver).receive_next)
      × Reads f base lo hi m k' ((receive_data seg_start buf cb).1)
unfolding receive_data
receive_data-Reads f base lo hi m k seg_start buf cb v e h w =
    let z : add cb.receiver.receive_next (len32 buf) ≡ add base (m + (k + length buf)) =
      add_next base (m + k) (length buf) (m + (k + length buf)) cb.receiver.receive_next
        v.receiver.next (omega arith) in
    let r =
      recover-Recovered f base lo hi m (k + length buf) (add cb.receiver.receive_next (len32 buf))
        cb.out_of_order (push buf cb.receiver) z
        (push-Receives f base m k buf cb.receiver v.receiver e) v.stored v.low (omega arith) w in
    (
      r.held,
      r.moves,
      record { receiver = r.receiver; stored = r.stored; low = v.low; high = r.high },
    )

pop_from-Receives :
    (f : ℕ → ℕ) (base m k : ℕ) (r : Receiver) (q : List Buffer) (buf : Buffer)
    → Receives f base m k r
    → r.recv_queue ≡ q
    → (pop_from r q).0 ≡ some buf
    → (length buf ≤ k)
      × (buf ≡ slice f m (length buf))
      × Receives f base (m + length buf) (k - length buf) ((pop_from r q).1)
unfolding pop_from flatten
pop_from-Receives f base m k r [] buf v e p = cc
pop_from-Receives f base m k r (b ∷ q) buf v e p =
    let z : b ≡ buf = cc in
    let (l, x, y) = split-slice f m k b (flatten q) (sym (ap flatten e) ∙ v.queue) in
    rw (sym z) (
      l,
      x,
      record {
        reader = add_next base m (length b) (m + length b) r.reader_next v.reader refl;
        next = v.next ∙ ap (add base) (omega arith);
        queue = y;
      },
    )

-- What `poll_recv` gives out are the stream's next bytes, and it moves the read position past them.
pub poll_recv-Reads :
    (f : ℕ → ℕ) (base lo hi m k : ℕ) (cb cb' : ControlBlock) (buf : Buffer)
    → Reads f base lo hi m k cb
    → poll_recv cb ≡ some (buf, cb')
    → (k' : ℕ) × (k ≡ length buf + k')
      × (buf ≡ slice f m (length buf))
      × Reads f base lo hi (m + length buf) k' cb'
unfolding poll_recv pop
poll_recv-Reads f base lo hi m k cb cb' buf v e =
    let (b, p, q) = >>=-some ((pop cb.receiver).0) _ _ e in
    let z : b ≡ buf = cc in
    let y : cb' ≡ record cb { receiver = (pop cb.receiver).1 } = cc in
    let (l, x, r) =
      pop_from-Receives f base m k cb.receiver cb.receiver.recv_queue buf v.receiver refl
        (p ∙ ap some z) in
    (
      k - length buf,
      omega arith,
      x,
      rw y (record {
        receiver = r;
        stored = v.stored;
        low = omega (arith, v.low);
        high = omega (arith, v.high);
      }),
    )
