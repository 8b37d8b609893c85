-- ===== src/Tcp/Sender/Queues/Unsent.antt =====
-- Taking data from the unsent queue.
use capybara_artifact.Base.{
  ℕ, ◌-◌, ◌≤◌, ◌<◌, ◌≡◌, refl, ap, sym, ◌∙◌, false, true, ltb, lt→ltb, ltb→lt, le→ltb, Bool-cases,
  inl, inr, Bool, some, List, ◌∷◌, ◌++◌, append_assoc, length, take, drop, adjust-drop,
  length-take_of_le, take-append-drop, arith,
}
use mathlib.Core.List.{flatten}
use capybara_artifact.State.{Buffer}
use capybara_artifact.Tcp.ControlBlock.{trim}
use capybara_artifact.Tcp.Sender.{Sender}
use capybara_artifact.Tcp.Sender.Queues.{split_unsent, pop_unsent, pop_one_unsent_byte}

-- The buffer that is cut in two.
trim-rest : (n : ℕ) (b : Buffer) → n ≤ length b → trim (length b - n) b ≡ some (take n b)
trim-rest n b h =
    let e : length b - (length b - n) ≡ n = omega arith in
    rw (le→ltb (length b) (length b - n) (omega arith), e)

-- What is taken from a buffer at the front of the queue.
record Split (max : ℕ) (buf : Buffer) (q : List Buffer) : Type 0 where
  sent : Buffer
  push : Bool
  left : List Buffer
  taken : split_unsent max buf q ≡ some ((sent, push), left)
  bounded : length sent ≤ max
  whole : sent ++ flatten left ≡ buf ++ flatten q

split : (max : ℕ) (buf : Buffer) (q : List Buffer) → Split max buf q
unfolding split_unsent flatten
split max buf q = elim (Bool-cases (ltb max (length buf))) [
  | inl e ↦
      let h = ltb→lt max (length buf) e in
      let l = length-take_of_le max buf (omega arith) in
      record {
        sent = take max buf;
        push = false;
        left = drop max buf ∷ q;
        taken = rw (e, adjust-drop max buf (omega arith), trim-rest max buf (omega arith));
        bounded = omega arith;
        whole =
            sym (append_assoc (take max buf) (drop max buf) (flatten q))
            ∙ ap (λ b. b ++ flatten q) (take-append-drop max buf);
      }
  | inr e ↦ record {
    sent = buf;
    push = true;
    left = q;
    taken = rw e;
    bounded = ground arith;
    whole = refl;
  }
]

-- From an unsent queue that is not empty `pop_unsent` takes at most `max_bytes` bytes without a
-- panic; they, followed by what stays in the queue, are the bytes that were in the queue, and
-- nothing else of the sender changes.
pub pop_unsent-bytes :
    (max_bytes : ℕ) (s : Sender) (buf : Buffer) (q : List Buffer)
    → s.unsent_queue ≡ buf ∷ q
    → (sent : Buffer) × ((push : Bool) × ((left : List Buffer) × (((pop_unsent max_bytes s
                ≡ some (some (sent, push), record s { unsent_queue = left }))
              × (length sent ≤ max_bytes))
            × (sent ++ flatten left ≡ flatten s.unsent_queue))))
unfolding pop_unsent flatten
pop_unsent-bytes max s buf q e =
    let r = split max buf q in
    (r.sent, (r.push, (r.left, ((rw (e, r.taken), r.bounded), rw e r.whole))))

-- From a buffer of more than one byte at the front, the byte that probes a closed window is the one
-- that `pop_unsent` takes when it may take a single byte, and the sender is left the same.
pub pop_one-pop_unsent :
    (s : Sender) (buf : Buffer) (q : List Buffer)
    → s.unsent_queue ≡ buf ∷ q
    → 1 < length buf
    → (sent : Buffer) × ((after : Sender) × ((pop_one_unsent_byte s ≡ some (some sent, after))
          × (pop_unsent 1 s ≡ some (some (sent, false), after))))
unfolding pop_one_unsent_byte pop_unsent split_unsent
pop_one-pop_unsent s buf q e h =
    let a = adjust-drop 1 buf (omega arith) in
    let t = trim-rest 1 buf (omega arith) in
    (
      take 1 buf,
      (
        record s { unsent_queue = drop 1 buf ∷ q },
        (rw (e, a, t), rw (e, lt→ltb 1 (length buf) h, a, t)),
      ),
    )
