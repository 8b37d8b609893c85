-- ===== src/Mig/Active/Send.antt =====
-- `send` of active.rs: the loop over the fragments ends, and what it transmits.
use capybara_artifact.Base.{
  ℕ, zero, suc, ◌⊎◌, ◌+◌, ◌-◌, ◌*◌, ◌/◌, ◌%◌, ◌^◌, ◌≤◌, ◌<◌, ◌==◌, ◌≡◌, ◌≢◌, refl, true, false, not,
  ◌&&◌, ltb, leb, Bool-cases, inl, inr, some, none, List, [], ◌∷◌, map, take, drop, length,
  length-drop, arith,
}
use capybara_artifact.State.{Buffer}
use capybara_artifact.Mig.Header.{TcpMigHeader}
use capybara_artifact.Mig.Segment.{
  TcpMigSegment, TcpMigFragmenter, max_fragment_size, cut, advance, fragments, next, collect,
}
use capybara_artifact.Mig.Segment.Order.{enumerate}
use capybara_artifact.Mig.Segment.Chunks.{
  chunks, full_chunks, segment_of, collect-fragments, collect-some, collect-none,
}
use capybara_artifact.Mig.Active.{ActiveMigration, segment_to_send, send}

next-finished :
    (f : TcpMigFragmenter) → length f.segment.payload ≡ 0 → f.current_fragment ≢ 0 → next f ≡ none
unfolding next
next-finished f e h =
    let q : (length f.segment.payload == 0 && not (f.current_fragment == 0)) ≡ true =
      ground arith in
    rw q

-- Every step but the last takes a fragment off the payload.
abbrev Shrinks : TcpMigFragmenter → TcpMigFragmenter → Type 0
Shrinks f g =
    (length g.segment.payload ≡ length f.segment.payload - max_fragment_size)
    × (g.current_fragment ≡ (f.current_fragment + 1) % 2 ^ 16)

next-Shrinks :
    (f : TcpMigFragmenter)
    → (next f ≡ none)
      ⊎ ((s : TcpMigSegment) × (g : TcpMigFragmenter) × (next f ≡ some (s, g)) × Shrinks f g)
unfolding next
next-Shrinks f =
    elim (Bool-cases (length f.segment.payload == 0 && not (f.current_fragment == 0))) [
      | inl e ↦ inl (rw e)
      | inr e ↦ elim (Bool-cases (leb (length f.segment.payload) max_fragment_size)) [
        | inl l ↦ inr (cut f false f.segment.payload, advance f [], rw (e, l), (ground arith, refl))
        | inr l ↦ inr (
          cut f true (take max_fragment_size f.segment.payload),
          advance f (drop max_fragment_size f.segment.payload),
          rw (e, l),
          (length-drop max_fragment_size f.segment.payload, refl),
        )
      ]
    ]

collect-finished :
    (fuel : ℕ) (f : TcpMigFragmenter)
    → length f.segment.payload ≡ 0
    → 2 ≤ fuel
    → (out : List TcpMigSegment) × (collect fuel f ≡ some out)
collect-finished zero f e h = absurd (omega arith)
collect-finished (suc zero) f e h = absurd (omega arith)
collect-finished (suc (suc fuel)) f e h = elim (Bool-cases (f.current_fragment == 0)) [
  | inr z ↦ ([], collect-none (suc fuel) f (next-finished f e (ground arith)))
  | inl z ↦ elim (next-Shrinks f) [
    | inl q ↦ ([], collect-none (suc fuel) f q)
    | inr (s, g, q, (l, c)) ↦
        let i : f.current_fragment ≡ 0 = ground arith in
        let j : g.current_fragment ≡ 1 = rw i at c in
        let k = collect-none fuel g (next-finished g (omega arith) (λ x. absurd (omega arith))) in
        (s ∷ [], rw (collect-some (suc fuel) f g s q, k))
  ]
]

collect-total :
    (k fuel : ℕ) (f : TcpMigFragmenter)
    → length f.segment.payload ≤ k * max_fragment_size
    → k + 2 ≤ fuel
    → (out : List TcpMigSegment) × (collect fuel f ≡ some out)
collect-total zero fuel f hi h = collect-finished fuel f (omega arith) (omega arith)
collect-total (suc k) zero f hi h = absurd (omega arith)
collect-total (suc k) (suc fuel) f hi h = elim (next-Shrinks f) [
  | inl q ↦ ([], collect-none fuel f q)
  | inr (s, g, q, (l, c)) ↦
      let (out, e) = collect-total k fuel g (omega arith) (omega arith) in
      (s ∷ out, rw (collect-some fuel f g s q, e))
]

-- `send` ends on every buffer that passes its test, whatever the counter of fragments does: it
-- transmits some list of segments and does not run on.
pub send-total :
    (a : ActiveMigration) (hdr : TcpMigHeader) (buf : Buffer)
    → length buf / max_fragment_size ≤ 65535
    → (out : List TcpMigSegment) × (send a hdr buf ≡ some out)
unfolding send fragments
send-total a hdr buf h =
    let l : ltb 65535 (length buf / max_fragment_size) ≡ false = ground arith in
    let (out, e) =
      collect-total (length buf / max_fragment_size + 1) (length buf / max_fragment_size + 4)
        (fragments (segment_to_send a hdr buf)) (omega arith) (omega arith) in
    (out, rw l e)

-- A buffer of fewer than 65535 full fragments is transmitted whole, as its chunks in order under
-- the given header, each with its number and the mark of whether another follows.
pub send-chunks :
    (a : ActiveMigration) (hdr : TcpMigHeader) (buf : Buffer)
    → length buf / max_fragment_size < 65535
    → send a hdr buf
      ≡ some (
          map
            (segment_of (segment_to_send a hdr buf) (suc (full_chunks buf)))
            (enumerate 0 (chunks (full_chunks buf) buf)))
unfolding send full_chunks
send-chunks a hdr buf h =
    let l : ltb 65535 (length buf / max_fragment_size) ≡ false = ground arith in
    rw l (
      collect-fragments (segment_to_send a hdr buf) (length buf / max_fragment_size + 4)
        (omega arith) (omega arith))

pub send-collect :
    (a : ActiveMigration) (hdr : TcpMigHeader) (buf : Buffer)
    → length buf / max_fragment_size ≤ 65535
    → send a hdr buf
      ≡ collect (length buf / max_fragment_size + 4) (fragments (segment_to_send a hdr buf))
unfolding send
send-collect a hdr buf h =
    let l : ltb 65535 (length buf / max_fragment_size) ≡ false = ground arith in rw l
