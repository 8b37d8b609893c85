-- ===== src/Tcp/ControlBlock/Stored.antt =====
-- Storing a segment that arrived out of order: what is stored stays true to the stream, however the
-- segments overlap, and storing does not panic or run on.
use capybara_artifact.Base.{
  ℕ, zero, suc, ◌+◌, ◌-◌, ◌%◌, ◌^◌, ◌<◌, ◌≡◌, refl, ap, sym, ◌∙◌, ltb, Bool-cases, inl, inr, some,
  List, [], ◌∷◌, >>=-some, length, take, drop, adjust, adjust-some, length-drop, length-take_of_le,
  All, All-take, All-drop, All-append, arith,
}
use capybara_artifact.Seq.{SeqNumber, add, sub, lt, le}
use capybara_artifact.State.{Buffer}
use capybara_artifact.Tcp.ControlBlock.{
  ControlBlock, Pass, insert_at, dropped, remove_at, trim, end_of, scan, insert_entry, remove_entry,
  store_passes, store_out_of_order_segment, max_out_of_order,
}
use capybara_artifact.Tcp.ControlBlock.Stream.{slice, take-slice, drop-slice, add_next, StoredAt}
use capybara_artifact.Tcp.ControlBlock.InOrder.{Reads}

pub sub_lt : (a b : ℕ) → sub a b < 2 ^ 32
unfolding sub
sub_lt a b = omega arith

module _ (f : ℕ → ℕ) (base lo hi : ℕ) where
  -- Cut at its end or its front, an entry still holds stream bytes.
  pub trim-StoredAt :
      (n start : ℕ) (buf buf' : Buffer)
      → StoredAt f base lo hi (start, buf)
      → trim n buf ≡ some buf'
      → StoredAt f base lo hi (start, buf')
  trim-StoredAt n start buf buf' v e = elim (Bool-cases (ltb (length buf) n)) [
    | inl t ↦ cc (rw t at e)
    | inr t ↦
        let z : take (length buf - n) buf ≡ buf' = cc (rw t at e) in
        let l : length buf' ≡ length buf - n =
          ap length (sym z) ∙ length-take_of_le (length buf - n) buf (omega arith) in
        record {
          pos = v.pos;
          start = v.start;
          bytes =
              sym z
              ∙ ap (take (length buf - n)) v.bytes
              ∙ take-slice f v.pos (length buf - n) (length buf) (omega arith)
              ∙ ap (slice f v.pos) (sym l);
          above = v.above;
          below = omega (arith, v.below);
        }
  ]

  pub adjust-StoredAt :
      (n start : ℕ) (buf buf' : Buffer)
      → n < 2 ^ 32
      → (v : StoredAt f base lo hi (start, buf)) → adjust n buf ≡ some buf'
      → (v' : StoredAt f base lo hi (add start n, buf')) × (v'.pos ≡ v.pos + n)
  adjust-StoredAt n start buf buf' w v e =
      let (h, z) = adjust-some n buf buf' e in
      let l : length buf' ≡ length buf - n = ap length (sym z) ∙ length-drop n buf in
      let m : n % 2 ^ 32 ≡ n = omega arith in
      (
        record {
          pos = v.pos + n;
          start = rw m at (add_next base v.pos n (v.pos + n) start v.start refl);
          bytes =
              sym z
              ∙ ap (drop n) v.bytes
              ∙ drop-slice f v.pos n (length buf) h
              ∙ ap (slice f (v.pos + n)) (sym l);
          above = omega (arith, v.above);
          below = omega (arith, v.below);
        },
        refl,
      )

  -- What a pass keeps for the next one, or inserts.
  abbrev PassStoredAt : Pass → Type 0
  PassStoredAt (insert_at i start buf) = StoredAt f base lo hi (start, buf)
  PassStoredAt dropped = Unit {0}
  PassStoredAt (remove_at i start end buf) = StoredAt f base lo hi (start, buf)

  scan-StoredAt :
      (len i : ℕ) (q : List (SeqNumber × Buffer)) (start end : SeqNumber) (buf : Buffer) (p : Pass)
      → StoredAt f base lo hi (start, buf)
      → scan len i q start end buf ≡ some p
      → PassStoredAt p
  unfolding scan
  scan-StoredAt len i [] start end buf p v e =
      let z : insert_at len start buf ≡ p = cc in rw (sym z) v
  scan-StoredAt len i ((stored_start, stored) ∷ q) start end buf p v e =
      let stored_end = end_of stored_start stored in
      elim (Bool-cases (lt start stored_start)) [
        | inl t ↦ elim (Bool-cases (lt end stored_start)) [
          | inl t' ↦ let z : insert_at i start buf ≡ p = cc (rw (t, t') at e) in rw (sym z) v
          | inr t' ↦ elim (Bool-cases (lt stored_end end)) [
            | inl t'' ↦
                let z : remove_at i start end buf ≡ p = cc (rw (t, t', t'') at e) in rw (sym z) v
            | inr t'' ↦
                let (buf', c, k) =
                  >>=-some (trim (sub end stored_start + 1) buf) _ _ (rw (t, t', t'') at e) in
                let z : insert_at len start buf' ≡ p = cc in
                rw (sym z) (trim-StoredAt (sub end stored_start + 1) start buf buf' v c)
          ]
        ]
        | inr t ↦ elim (Bool-cases (le end stored_end)) [
          | inl t' ↦ let z : dropped ≡ p = cc (rw (t, t') at e) in rw (sym z) tt
          | inr t' ↦ elim (Bool-cases (lt stored_end start)) [
            | inl t'' ↦ scan-StoredAt len (i + 1) q start end buf p v (rw (t, t', t'') at e)
            | inr t'' ↦
                let (buf', c, k) =
                  >>=-some (adjust (sub stored_end start) buf) _ _ (rw (t, t', t'') at e) in
                scan-StoredAt len (i + 1) q (add start (sub stored_end start)) end buf' p
                  ((adjust-StoredAt (sub stored_end start) start buf buf' (sub_lt stored_end start)
                    v c).0)
                  k
          ]
        ]
      ]

  passes-StoredAt :
      (fuel : ℕ) (q q' : List (SeqNumber × Buffer)) (start end : SeqNumber) (buf : Buffer)
      → All (StoredAt f base lo hi) q
      → StoredAt f base lo hi (start, buf)
      → store_passes fuel q start end buf ≡ some q'
      → All (StoredAt f base lo hi) q'
  unfolding store_passes
  passes-StoredAt zero q q' start end buf a v e = cc
  passes-StoredAt (suc fuel) q q' start end buf a v e =
      let (p, c, k) = >>=-some (scan (length q) 0 q start end buf) _ _ e in
      go p (scan-StoredAt (length q) 0 q start end buf p v c) k (passes-StoredAt fuel)
    where
      go :
          (p : Pass)
          → PassStoredAt p
          → (elim p [
            | insert_at i start' buf' ↦
                some (take max_out_of_order (insert_entry i (start', buf') q))
            | dropped ↦ some q
            | remove_at i start' end' buf' ↦ store_passes fuel (remove_entry i q) start' end' buf'
          ])
            ≡ some q'
          → ((q q' : List (SeqNumber × Buffer)) (start end : SeqNumber) (buf : Buffer)
              → All (StoredAt f base lo hi) q
              → StoredAt f base lo hi (start, buf)
              → store_passes fuel q start end buf ≡ some q'
              → All (StoredAt f base lo hi) q')
          → All (StoredAt f base lo hi) q'
      go (insert_at i s b) w k rec =
          let z : take max_out_of_order (insert_entry i (s, b) q) ≡ q' = cc in
          rw (sym z) (
            All-take (StoredAt f base lo hi) max_out_of_order (insert_entry i (s, b) q) (
              All-append (StoredAt f base lo hi) (take i q) ((s, b) ∷ drop i q)
                (All-take (StoredAt f base lo hi) i q a)
                (w, All-drop (StoredAt f base lo hi) i q a)))
      go dropped w k rec = let z : q ≡ q' = cc in rw (sym z) a
      go (remove_at i s t b) w k rec =
          rec (remove_entry i q) q' s t b
            (All-append (StoredAt f base lo hi) (take i q) (drop (i + 1) q)
              (All-take (StoredAt f base lo hi) i q a)
              (All-drop (StoredAt f base lo hi) (i + 1) q a))
            w k

-- Storing a segment of stream bytes, wherever it lies and whatever it overlaps, leaves a store of
-- stream bytes, and neither what was read nor what can be read.
pub store-Reads :
    (f : ℕ → ℕ) (base lo hi m k start end : ℕ) (buf : Buffer) (cb cb' : ControlBlock)
    → Reads f base lo hi m k cb
    → StoredAt f base lo hi (start, buf)
    → store_out_of_order_segment start end buf cb ≡ some cb'
    → Reads f base lo hi m k cb'
unfolding store_out_of_order_segment
store-Reads f base lo hi m k start end buf cb cb' v w e =
    let (q, c, d) =
      >>=-some (store_passes (length cb.out_of_order + 1) cb.out_of_order start end buf) _ _ e in
    let z : cb' ≡ record cb { out_of_order = q } = cc in
    let a =
      passes-StoredAt f base lo hi (length cb.out_of_order + 1) cb.out_of_order q start end buf
        v.stored w c in
    rw z (record { receiver = v.receiver; stored = a; low = v.low; high = v.high })
