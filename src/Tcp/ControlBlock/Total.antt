-- ===== src/Tcp/ControlBlock/Total.antt =====
-- Storing a segment never panics and always ends, within a window that the comparisons of sequence
-- numbers can tell apart.
use capybara_artifact.Base.{
  ℕ, zero, suc, ◌+◌, ◌-◌, ◌%◌, ◌^◌, ◌≤◌, ◌<◌, ◌≡◌, refl, ap, ap₂, ◌∙◌, false, ltb, ltb→lt, leb,
  Bool-cases, inl, inr, some, List, [], ◌∷◌, length, take, drop, adjust, adjust-drop, length-append,
  length-drop, length-take_of_le, All, All-take, All-drop, All-append, arith,
}
use capybara_artifact.Seq.{SeqNumber, add, sub, lt, le}
use capybara_artifact.Seq.Positions.{compare, sub_positions}
use capybara_artifact.State.{Buffer}
use capybara_artifact.Tcp.ControlBlock.{
  ControlBlock, Pass, insert_at, dropped, remove_at, end_of, scan, insert_entry, remove_entry,
  store_passes, store_out_of_order_segment, max_out_of_order, len32,
}
use capybara_artifact.Tcp.ControlBlock.Stream.{StoredAt, add_next}
use capybara_artifact.Tcp.ControlBlock.Stored.{adjust-StoredAt, trim-StoredAt, sub_lt}

-- A segment to be stored, with the sequence number of its last byte.
pub record Fresh (f : ℕ → ℕ) (base lo hi : ℕ) (start end : SeqNumber) (buf : Buffer) : Type 0 where
  pub at : StoredAt f base lo hi (start, buf)
  pub filled : 0 < length buf
  pub last : end ≡ add base (at.pos + length buf - 1)

pub record Filled (f : ℕ → ℕ) (base lo hi : ℕ) (e : SeqNumber × Buffer) : Type 0 where
  pub at : StoredAt f base lo hi e
  pub filled : 0 < length (e.1)

-- The branch of `scan` that cuts the front of the segment.
scan-overlap :
    (len i : ℕ) (ss : SeqNumber) (sb : Buffer) (q : List (SeqNumber × Buffer))
    (start end : SeqNumber) (buf buf' : Buffer)
    → lt start ss ≡ false
    → le end (end_of ss sb) ≡ false
    → lt (end_of ss sb) start ≡ false
    → adjust (sub (end_of ss sb) start) buf ≡ some buf'
    → scan len i ((ss, sb) ∷ q) start end buf
      ≡ scan len (i + 1) q (add start (sub (end_of ss sb) start)) end buf'
unfolding scan
scan-overlap len i ss sb q start end buf buf' c1 c4 c5 a = rw (c1, c4, c5, a)

module _ (f : ℕ → ℕ) (base lo hi : ℕ) (w : hi < lo + 2 ^ 31) where
  end_of-position :
      (start : SeqNumber) (buf : Buffer) (v : Filled f base lo hi (start, buf))
      → end_of start buf ≡ add base (v.at.pos + length buf - 1)
  end_of-position start buf v =
      let b : v.at.pos + length buf ≤ hi = v.at.below in
      let a : lo ≤ v.at.pos = v.at.above in
      let g : 0 < length buf = v.filled in
      let z : (len32 buf + 2 ^ 32 - 1) % 2 ^ 32 ≡ (length buf - 1) % 2 ^ 32 = omega arith in
      rw z (
        add_next base v.at.pos (length buf - 1) (v.at.pos + length buf - 1) start v.at.start
          (omega arith))

  -- A pass that inserts has an entry that is not empty; one that goes on removes an entry of the
  -- store and keeps such a segment.
  abbrev Goes : ℕ → Pass → Type 0
  Goes n (insert_at i start buf) = Filled f base lo hi (start, buf)
  Goes n dropped = Unit {0}
  Goes n (remove_at i start end buf) = (i < n) × Fresh f base lo hi start end buf

  scan-total :
      (len i n : ℕ) (q : List (SeqNumber × Buffer)) (start end : SeqNumber) (buf : Buffer)
      → All (Filled f base lo hi) q
      → Fresh f base lo hi start end buf
      → i + length q ≤ n
      → (p : Pass) × (scan len i q start end buf ≡ some p) × Goes n p
  unfolding scan
  scan-total len i n [] start end buf a v h =
      (insert_at len start buf, refl, record { at = v.at; filled = v.filled })
  scan-total len i n ((ss, sb) ∷ q) start end buf (e, a) v h =
      let P = v.at.pos in
      let L = length buf in
      let Q = e.at.pos in
      let M = length sb in
      let r1 : lo ≤ P = v.at.above in
      let r2 : P + L ≤ hi = v.at.below in
      let r3 : 0 < L = v.filled in
      let r4 : lo ≤ Q = e.at.above in
      let r5 : Q + M ≤ hi = e.at.below in
      let r6 : 0 < M = e.filled in
      let last = end_of-position ss sb e in
      let c1 : lt start ss ≡ ltb P Q =
        ap₂ lt v.at.start e.at.start
        ∙ (compare base lo hi P Q r1 (omega arith) r4 (omega arith) w).0 in
      let c2 : lt end ss ≡ ltb (P + L - 1) Q =
        ap₂ lt v.last e.at.start
        ∙ (compare base lo hi (P + L - 1) Q (omega arith) (omega arith) r4 (omega arith) w).0 in
      let c3 : lt (end_of ss sb) end ≡ ltb (Q + M - 1) (P + L - 1) =
        ap₂ lt last v.last
        ∙ (compare base lo hi (Q + M - 1) (P + L - 1) (omega arith) (omega arith) (omega arith)
            (omega arith) w).0 in
      let c4 : le end (end_of ss sb) ≡ leb (P + L - 1) (Q + M - 1) =
        ap₂ le v.last last
        ∙ (compare base lo hi (P + L - 1) (Q + M - 1) (omega arith) (omega arith) (omega arith)
            (omega arith) w).1 in
      let c5 : lt (end_of ss sb) start ≡ ltb (Q + M - 1) P =
        ap₂ lt last v.at.start
        ∙ (compare base lo hi (Q + M - 1) P (omega arith) (omega arith) r1 (omega arith) w).0 in
      elim (Bool-cases (ltb P Q)) [
        | inl t ↦ elim (Bool-cases (ltb (P + L - 1) Q)) [
          | inl t' ↦
              (insert_at i start buf, rw (c1, t, c2, t'), record { at = v.at; filled = v.filled })
          | inr t' ↦ elim (Bool-cases (ltb (Q + M - 1) (P + L - 1))) [
            | inl t'' ↦ (remove_at i start end buf, rw (c1, t, c2, t', c3, t''), (omega arith, v))
            | inr t'' ↦
                let x : sub end ss + 1 ≡ P + L - Q =
                  ap (λ k. k + 1)
                    (ap₂ sub v.last e.at.start
                      ∙ sub_positions base Q (P + L - 1) (ground arith) (omega arith))
                  ∙ ground arith in
                let g : ltb L (P + L - Q) ≡ false = ground arith in
                (
                  insert_at len start (take (L - (P + L - Q)) buf),
                  rw (c1, t, c2, t', c3, t'', x, g),
                  record {
                    at =
                        trim-StoredAt f base lo hi (P + L - Q) start buf
                          (take (L - (P + L - Q)) buf) v.at (rw g);
                    filled = omega (
                      arith,
                      length-take_of_le (L - (P + L - Q)) buf (omega arith),
                      ltb→lt P Q t,
                    );
                  },
                )
          ]
        ]
        | inr t ↦ elim (Bool-cases (leb (P + L - 1) (Q + M - 1))) [
          | inl t' ↦ (dropped, rw (c1, t, c4, t'), tt)
          | inr t' ↦ elim (Bool-cases (ltb (Q + M - 1) P)) [
            | inl t'' ↦
                let (p, k, g) = scan-total len (i + 1) n q start end buf a v (omega arith) in
                (p, rw (c1, t, c4, t', c5, t'') k, g)
            | inr t'' ↦
                let d = sub (end_of ss sb) start in
                let x : d ≡ Q + M - 1 - P =
                  ap₂ sub last v.at.start
                  ∙ sub_positions base P (Q + M - 1) (ground arith) (omega arith) in
                let dl : d < L = rw x (ground arith) in
                let adj = adjust-drop d buf (omega arith) in
                let (at', ep) =
                  adjust-StoredAt f base lo hi d start buf (drop d buf)
                    (sub_lt (end_of ss sb) start) v.at adj in
                let v' : Fresh f base lo hi (add start d) end (drop d buf) = record {
                  at = at';
                  filled = omega (arith, length-drop d buf);
                  last = v.last ∙ ap (add base) (omega (arith, ep, length-drop d buf));
                } in
                let (p, k, g) =
                  scan-total len (i + 1) n q (add start d) end (drop d buf) a v' (omega arith) in
                (
                  p,
                  scan-overlap len i ss sb q start end buf (drop d buf) (c1 ∙ t) (c4 ∙ t')
                        (c5 ∙ t'') adj
                      ∙ k,
                  g,
                )
          ]
        ]
      ]

  passes-total :
      (fuel : ℕ) (q : List (SeqNumber × Buffer)) (start end : SeqNumber) (buf : Buffer)
      → All (Filled f base lo hi) q
      → Fresh f base lo hi start end buf
      → length q + 1 ≤ fuel
      → (q' : List (SeqNumber × Buffer)) × (store_passes fuel q start end buf ≡ some q')
        × All (Filled f base lo hi) q'
  unfolding store_passes
  passes-total zero q start end buf a v h = absurd (omega arith)
  passes-total (suc fuel) q start end buf a v h =
      let (p, k, g) = scan-total (length q) 0 (length q) q start end buf a v (omega arith) in
      go p k g (passes-total fuel)
    where
      go :
          (p : Pass)
          → scan (length q) 0 q start end buf ≡ some p
          → Goes (length q) p
          → ((q : List (SeqNumber × Buffer)) (start end : SeqNumber) (buf : Buffer)
              → All (Filled f base lo hi) q
              → Fresh f base lo hi start end buf
              → length q + 1 ≤ fuel
              → (q' : List (SeqNumber × Buffer)) × (store_passes fuel q start end buf ≡ some q')
                × All (Filled f base lo hi) q')
          → (q' : List (SeqNumber × Buffer)) × (store_passes (suc fuel) q start end buf ≡ some q')
            × All (Filled f base lo hi) q'
      go (insert_at i s b) k g rec = (
        take max_out_of_order (insert_entry i (s, b) q),
        rw k,
        All-take (Filled f base lo hi) max_out_of_order (insert_entry i (s, b) q) (
            All-append (Filled f base lo hi) (take i q) ((s, b) ∷ drop i q)
              (All-take (Filled f base lo hi) i q a) (g, All-drop (Filled f base lo hi) i q a)),
      )
      go dropped k g rec = (q, rw k, a)
      go (remove_at i s t b) k (lt, v') rec =
          let r =
            rec (remove_entry i q) s t b
              (All-append (Filled f base lo hi) (take i q) (drop (i + 1) q)
                (All-take (Filled f base lo hi) i q a) (All-drop (Filled f base lo hi) (i + 1) q a))
              v'
              (omega (
                arith,
                length-append (take i q) (drop (i + 1) q),
                length-take_of_le i q (omega arith),
                length-drop (i + 1) q,
              )) in
          (r.0, rw k (r.1), r.2)

pub store-total :
    (f : ℕ → ℕ) (base lo hi start end : ℕ) (buf : Buffer) (cb : ControlBlock)
    → hi < lo + 2 ^ 31
    → All (Filled f base lo hi) cb.out_of_order
    → Fresh f base lo hi start end buf
    → (q : List (SeqNumber × Buffer)) × (store_out_of_order_segment start end buf cb
        ≡ some (record cb { out_of_order = q }))
      × All (Filled f base lo hi) q
unfolding store_out_of_order_segment
store-total f base lo hi start end buf cb w a v =
    let (q, e, g) =
      passes-total f base lo hi w (length cb.out_of_order + 1) cb.out_of_order start end buf a v
        (omega arith) in
    (q, rw e, g)
