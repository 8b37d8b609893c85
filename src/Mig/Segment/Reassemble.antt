-- ===== src/Mig/Segment/Reassemble.antt =====
-- The defragmenter on the fragments of one message, in whatever order they arrive.
use capybara_artifact.Base.{
  ℕ, ◌+◌, ◌-◌, ◌≤◌, ◌<◌, ◌==◌, ◌≡◌, refl, ap, ◌∙◌, Bool, true, false, ◌||◌, ltb, if◌then◌else◌,
  le→ltb, ==_refl, Bool-cases, inl, inr, some, none, List, [], ◌∷◌, ◌++◌, append-nil, map, length,
  length-append, replicate, get_elem?, get_elem?-some, set, arith,
}
use mathlib.Core.List.{
  Mem, Perm, Nodup-cons, mem-cons, not-mem-nil, flatten, mem-cons_self, mem-append_right,
  mem-cons_of_mem, perm_middle,
}
use mathlib.Core.List.Perm
use mathlib.Core.Logic.Or
use capybara_artifact.State.{Buffer}
use capybara_artifact.Mig.Header.{TcpMigHeader}
use capybara_artifact.Mig.Segment.{
  TcpMigDefragmenter, reset, store, complete, check_complete, defragment, receive_all,
}
use capybara_artifact.Mig.Segment.Store.{
  assemble_fits, get_elem?-append_left, get_elem?-set_self, get_elem?-set_ne, get_elem?-lt,
  eq_of_get_elem?, grow, lt-length-grow, length-set-grow_le,
}
use capybara_artifact.Mig.Segment.Order.{
  Piece, enumerate, total_length, Option_Buffer-set, total_length-perm, length-perm,
  total_length-enumerate, length-enumerate, enumerate-mem, mem-enumerate, enumerate-Nodup,
}

-- The header and the bytes of piece i of n.
abbrev pub fragment : TcpMigHeader → ℕ → Piece → TcpMigHeader × Buffer
fragment h n (i, c) = (record h { flag_next_fragment = ltb (i + 1) n; fragment_offset = i }, c)

-- Whether the last piece is among these.
seen : ℕ → List Piece → Bool
seen n [] = false
seen n ((i, c) ∷ ps) = i + 1 == n || seen n ps

seen-mem : (n i : ℕ) (c : Buffer) (ps : List Piece) → i + 1 ≡ n → Mem (i, c) ps → seen n ps ≡ true
unfolding seen
seen-mem n i c [] e m = absurd (not-mem-nil m)
seen-mem n i c ((j, d) ∷ ps) e m =
    Or.elim (hlevel) (mem-cons.0 m) (λ (q : (i, c) ≡ (j, d)). here (ap (λ (x : Piece). x.0) q))
      (λ m'. there (seen-mem n i c ps e m'))
  where
    here : i ≡ j → (j + 1 == n || seen n ps) ≡ true
    here q = ground arith

    there : seen n ps ≡ true → (j + 1 == n || seen n ps) ≡ true
    there q = ground arith

-- The defragmenter holds the pieces `ps` of n, in a buffer that counted `before` bytes too many.
record Holds (n before : ℕ) (ps : List Piece) (d : TcpMigDefragmenter) : Type 0 where
  bound : length d.fragments ≤ n
  stored : (i : ℕ) (c : Buffer) → Mem (i, c) ps → get_elem? d.fragments i ≡ some c
  count : d.current_fragments ≡ length ps
  size : d.current_size ≡ before + total_length ps
  total : d.total_fragments ≡ (if seen n ps then some n else none)

-- The state after piece i, which sets the total if it is the last one.
abbrev stored_piece : ℕ → Piece → TcpMigDefragmenter → TcpMigDefragmenter
stored_piece n (i, c) d = record (store i c d) {
  total_fragments = if i + 1 == n then some n else d.total_fragments;
}

module _ (h : TcpMigHeader) (n before : ℕ) (ps : List Piece) (d : TcpMigDefragmenter)
    (v : Holds n before ps d) (i : ℕ) (c : Buffer) (hi : i < n) (two : 2 ≤ n) where
  defragment-store :
      defragment d ((fragment h n (i, c)).0) c
      ≡ check_complete
          ((fragment h n (i, c)).0)
          (stored_piece n (i, c) d)
          ((stored_piece n (i, c) d).total_fragments)
  unfolding defragment store
  defragment-store = elim (Bool-cases (i + 1 == n)) [
    | inl e ↦
        let q : n ≡ i + 1 = ground arith in
        let z : (i == 0) ≡ false = ground arith in
        let b : length d.fragments ≤ n = v.bound in
        let l : ltb (i + 1) (length d.fragments) ≡ false = ground arith in
        rw (q, le→ltb (i + 1) (i + 1) (omega arith), ==_refl (i + 1), z, l)
    | inr e ↦ let l : ltb (i + 1) n ≡ true = ground arith in rw (l, e)
  ]

  store-Holds :
      ((c' : Buffer) → ¬ Mem (i, c') ps) → Holds n before ((i, c) ∷ ps) (stored_piece n (i, c) d)
  unfolding store seen total_length
  store-Holds fresh = record {
    bound = length-set-grow_le d.fragments i n [] c hi v.bound;
    stored =
        λ j e m. Or.elim (Option_Buffer-set _ _) (mem-cons.0 m) (new_piece j e) (old_piece j e);
    count = omega (arith, v.count);
    size = omega (arith, v.size);
    total = elim (Bool-cases (i + 1 == n)) [ inl e ↦ rw e | inr e ↦ rw (e, v.total) ];
  }
    where
      new_piece :
          (j : ℕ) (e : Buffer)
          → ◌≡◌ {A = Piece} (j, e) (i, c)
          → get_elem? (set (grow d.fragments i []) i c) j ≡ some e
      new_piece j e q =
          let qi : j ≡ i = ap (λ (x : Piece). x.0) q in
          let qc : e ≡ c = ap (λ (x : Piece). x.1) q in
          rw (qi, qc)
            (get_elem?-set_self (grow d.fragments i []) i c (lt-length-grow d.fragments i []))

      old_piece :
          (j : ℕ) (e : Buffer)
          → Mem (j, e) ps
          → get_elem? (set (grow d.fragments i []) i c) j ≡ some e
      old_piece j e m =
          get_elem?-set_ne (grow d.fragments i []) i j c (λ q. fresh e (rw q m))
          ∙ get_elem?-append_left d.fragments (replicate (i + 1 - length d.fragments) []) j e
              (v.stored j e m)

module _ (h : TcpMigHeader) (cs : List Buffer) (before : ℕ) (two : 2 ≤ length cs) where
  -- What comes out: the header of an unfragmented message, and the defragmenter's last state.
  abbrev whole : TcpMigHeader → TcpMigHeader
  whole hdr = record hdr { flag_next_fragment = false; fragment_offset = 0 }

  abbrev finished : TcpMigDefragmenter
  finished = record {
    fragments = [];
    total_fragments = none;
    current_fragments = 0;
    current_size = length (flatten cs) + before;
  }

  check-pending :
      (hdr : TcpMigHeader) (ps : List Piece) (d : TcpMigDefragmenter)
      → Holds (length cs) before ps d
      → length ps < length cs
      → check_complete hdr d d.total_fragments ≡ some (none, d)
  unfolding check_complete
  check-pending hdr ps d v lt = elim (Bool-cases (seen (length cs) ps)) [
    | inl e ↦
        let k : (length cs == d.current_fragments) ≡ false = ground (arith, v.count) in
        rw (v.total, e, k)
    | inr e ↦ rw (v.total, e)
  ]

  all-seen : (ps : List Piece) → Perm ps (enumerate 0 cs) → seen (length cs) ps ≡ true
  all-seen ps p =
      let (c, e) = get_elem?-some cs (length cs - 1) (omega arith) in
      seen-mem (length cs) (0 + (length cs - 1)) c ps (omega arith)
        ((Perm.mem_iff p).1 (mem-enumerate 0 cs (length cs - 1) c e))

  stored-eq :
      (ps : List Piece) (d : TcpMigDefragmenter)
      → Holds (length cs) before ps d
      → Perm ps (enumerate 0 cs)
      → d.fragments ≡ cs
  stored-eq ps d v p = eq_of_get_elem? d.fragments cs v.bound λ i y e.
      let z : 0 + i ≡ i = omega arith in
      v.stored i y (rw z at ((Perm.mem_iff p).1 (mem-enumerate 0 cs i y e)))

  check-full :
      (hdr : TcpMigHeader) (ps : List Piece) (d : TcpMigDefragmenter)
      → 0 < length (flatten cs)
      → Holds (length cs) before ps d
      → Perm ps (enumerate 0 cs)
      → check_complete hdr d d.total_fragments
        ≡ some (some (whole hdr, flatten cs ++ replicate before 0), finished)
  unfolding check_complete complete reset
  check-full hdr ps d pos v p =
      let k : d.current_fragments ≡ length cs = v.count ∙ length-perm p ∙ length-enumerate 0 cs in
      let z : d.current_size ≡ length (flatten cs) + before =
        omega (arith, v.size, total_length-perm p, total_length-enumerate 0 cs) in
      rw (
        v.total,
        all-seen ps p,
        k,
        ==_refl (length cs),
        stored-eq ps d v p,
        z,
        assemble_fits cs before pos,
      )

  -- The first of the pieces still to come is one of the message, at its place, and is new.
  next-piece :
      (i : ℕ) (c : Buffer) (ls ps : List Piece)
      → Perm ((i, c) ∷ (ls ++ ps)) (enumerate 0 cs)
      → (i < length cs) × ((c' : Buffer) → ¬ Mem (i, c') ps)
  next-piece i c ls ps p = (get_elem?-lt cs i c (at_place c mem-cons_self), fresh)
    where
      at_place : (b : Buffer) → Mem (i, b) ((i, c) ∷ (ls ++ ps)) → get_elem? cs i ≡ some b
      at_place b m =
          let z : i - 0 ≡ i = omega arith in
          rw z at ((enumerate-mem 0 cs i b ((Perm.mem_iff p).0 m)).1)

      fresh : (c' : Buffer) → ¬ Mem (i, c') ps
      fresh c' m =
          let later : Mem (i, c') (ls ++ ps) = mem-append_right ls m in
          let e = at_place c mem-cons_self in
          let e' = at_place c' (mem-cons_of_mem (i, c) later) in
          let q : c' ≡ c = cc in
          (Nodup-cons.0 (Perm.nodup (Perm.symm p) (enumerate-Nodup 0 cs))).0 (rw q at later)

  feed :
      (ls ps : List Piece) (d : TcpMigDefragmenter)
      → 0 < length (flatten cs)
      → Holds (length cs) before ps d
      → Perm (ls ++ ps) (enumerate 0 cs)
      → length ps < length cs
      → receive_all d (map (fragment h (length cs)) ls)
        ≡ some ((whole h, flatten cs ++ replicate before 0) ∷ [], finished)
  unfolding receive_all
  feed [] ps d pos v p lt = absurd (omega (arith, length-perm p, length-enumerate 0 cs))
  feed ((i, c) ∷ []) ps d pos v p lt =
      let (hi, fresh) = next-piece i c [] ps p in
      rw (
        defragment-store h (length cs) before ps d v i c hi two,
        check-full ((fragment h (length cs) (i, c)).0) ((i, c) ∷ ps)
            (stored_piece (length cs) (i, c) d) pos
            (store-Holds h (length cs) before ps d v i c hi two fresh) p,
      )
  feed ((i, c) ∷ (y ∷ ls)) ps d pos v p lt =
      let (hi, fresh) = next-piece i c (y ∷ ls) ps p in
      let v' = store-Holds h (length cs) before ps d v i c hi two fresh in
      let p' = Perm.trans (perm_middle (y ∷ ls) ps) p in
      let lt' : length ((i, c) ∷ ps) < length cs =
        omega (arith, length-perm p, length-enumerate 0 cs, length-append (y ∷ ls) ps) in
      rw (
        defragment-store h (length cs) before ps d v i c hi two,
        check-pending ((fragment h (length cs) (i, c)).0) ((i, c) ∷ ps)
            (stored_piece (length cs) (i, c) d) v' lt',
        feed (y ∷ ls) ((i, c) ∷ ps) (stored_piece (length cs) (i, c) d) pos v' p' lt',
      )

empty-Holds :
    (n before : ℕ)
    → Holds n before [] (record {
      fragments = [];
      total_fragments = none;
      current_fragments = 0;
      current_size = before;
    })
unfolding seen total_length
empty-Holds n before = record {
  bound = omega arith;
  stored = λ i c m. absurd (not-mem-nil m);
  count = refl;
  size = omega arith;
  total = refl;
}

-- The fragments of a message of two fragments or more, received in any order by a defragmenter
-- that holds none, give that message once, at the last of them, unfragmented, its bytes in order.
-- Where `before` bytes were left in `current_size`, as many zeros follow them.
pub receive_all-perm :
    (h : TcpMigHeader) (cs : List Buffer) (before : ℕ) (ls : List Piece)
    → 2 ≤ length cs
    → 0 < length (flatten cs)
    → Perm ls (enumerate 0 cs)
    → receive_all
        (record {
          fragments = [];
          total_fragments = none;
          current_fragments = 0;
          current_size = before;
        })
        (map (fragment h (length cs)) ls)
      ≡ some (
        (
          record h { flag_next_fragment = false; fragment_offset = 0 },
          flatten cs ++ replicate before 0,
        )
            ∷ [],
        record {
          fragments = [];
          total_fragments = none;
          current_fragments = 0;
          current_size = length (flatten cs) + before;
        },
      )
receive_all-perm h cs before ls two pos p =
    feed h cs before two ls []
      (record {
        fragments = [];
        total_fragments = none;
        current_fragments = 0;
        current_size = before;
      })
      pos (empty-Holds (length cs) before) (rw (append-nil ls) p) (omega arith)
