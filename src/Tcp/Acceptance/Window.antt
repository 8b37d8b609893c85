-- ===== src/Tcp/Acceptance/Window.antt =====
-- What is accepted of a segment: the places that lie in the receive window, and no others.
use capybara_artifact.Base.{
  ℕ, ◌+◌, ◌-◌, ◌%◌, ◌^◌, ◌≤◌, ◌<◌, ◌==◌, ◌≡◌, refl, ap, ap₂, sym, ◌∙◌, ◌⊎◌, inl, inr, Bool, true,
  false, ◌&&◌, ltb, leb, lt→ltb, le→ltb, le→leb, Bool-cases, if◌then◌else◌, some, adjust,
  adjust-drop, arith,
}
use capybara_artifact.Seq.{add, sub, lt, le, ge}
use capybara_artifact.Seq.Positions.{
  compare, sub_positions, equal_positions, add_position, sub_back,
}
use capybara_artifact.Tcp.Header.{TcpHeader}
use capybara_artifact.Tcp.ControlBlock.{trim}
use capybara_artifact.Tcp.ControlBlock.Stream.{slice, length-slice, take-slice, drop-slice}
use capybara_artifact.Tcp.Acceptance.{
  Segment, flag_len, end_from, segment_of, refused, accepted, cut_front, check_front, cut_back,
  check_back, check_segment,
}

-- A segment that carries `held` bytes of the stream from a position on, and no SYN.
pub record Carries (f : ℕ → ℕ) (base pos held : ℕ) (s : Segment) : Type 0 where
  pub start : s.start ≡ add base pos
  pub bytes : s.data_bytes ≡ slice f pos held
  pub len : s.len ≡ held + flag_len s.header.fin
  pub end : s.end ≡ add base (pos + (s.len - 1))
  pub syn : s.header.syn ≡ false

pub adjust-slice :
    (f : ℕ → ℕ) (p n k : ℕ) → k ≤ n → adjust k (slice f p n) ≡ some (slice f (p + k) (n - k))
adjust-slice f p n k h =
    let l = length-slice f p n in
    adjust-drop k (slice f p n) (omega arith) ∙ ap some (drop-slice f p k n h)

pub trim-slice : (f : ℕ → ℕ) (p n k : ℕ) → k ≤ n → trim k (slice f p n) ≡ some (slice f p (n - k))
trim-slice f p n k h =
    let l = length-slice f p n in
    rw (l, le→ltb n k h) (ap some (take-slice f p (n - k) n (omega arith)))

end_from_position : (base p len : ℕ) → end_from (add base p) len ≡ add base (p + (len - 1))
end_from_position base p len = elim (Bool-cases (len == 0)) [
  | inl e ↦ let z : p ≡ p + (len - 1) = ground arith in rw e (ap (add base) z)
  | inr e ↦ rw e (add_position base p (len - 1))
]

pub segment_of-Carries :
    (f : ℕ → ℕ) (base p n : ℕ) (header : TcpHeader)
    → header.seq_num ≡ add base p
    → header.syn ≡ false
    → n + 1 < 2 ^ 32
    → Carries f base p n (segment_of header (slice f p n))
unfolding segment_of
segment_of-Carries f base p n header e s h =
    let l = length-slice f p n in
    let m : (n % 2 ^ 32 + 0 + flag_len header.fin) % 2 ^ 32 ≡ n + flag_len header.fin =
      ground arith in
    record {
      start = e;
      bytes = refl;
      len = rw (l, s, m);
      end = rw (l, s, m, e) (end_from_position base p (n + flag_len header.fin));
      syn = s;
    }

flag_len_bound : (b : Bool) → flag_len b ≤ 1
flag_len_bound true = omega arith
flag_len_bound false = omega arith

no_syn : (h : TcpHeader) → h.syn ≡ false → record h { syn = false } ≡ h
no_syn h e = ap (λ b. record h { syn = b }) (sym e)

module _ (f : ℕ → ℕ) (base : ℕ) where
  -- Cut at the front.
  cut_front-Carries :
      (p n d : ℕ) (s : Segment)
      → Carries f base p n s
      → 0 < d
      → d < s.len
      → (s' : Segment) × (cut_front d s ≡ some s')
        × Carries f base (p + d) (n - d) s'
        × (s'.len + d ≡ s.len)
        × (s'.header ≡ s.header)
  unfolding cut_front
  cut_front-Carries p n d s c z h =
      let flag : flag_len s.header.fin ≤ 1 = flag_len_bound s.header.fin in
      let no : flag_len s.header.syn ≡ 0 = ap flag_len c.syn in
      let cut : d - flag_len s.header.syn ≡ d = omega arith in
      let k = adjust-slice f p n d (omega arith) in
      (
        record s {
          start = add s.start d;
          len = s.len - d;
          header = record (s.header) { syn = false };
          data_bytes = slice f (p + d) (n - d);
        },
        rw (le→ltb s.len d (omega arith), cut, c.bytes, k),
        record {
          start = rw c.start (add_position base p d);
          bytes = refl;
          len = omega arith;
          end = c.end ∙ ap (add base) (omega arith);
          syn = refl;
        },
        omega arith,
        no_syn s.header c.syn,
      )

  cut_back-Carries :
      (p n w : ℕ) (s : Segment)
      → Carries f base p n s
      → p < w
      → w < p + s.len
      → p + s.len < w + 2 ^ 31
      → (s' : Segment) × (cut_back (p + s.len - w) s ≡ some s')
        × Carries f base p (w - p) s'
        × (p + s'.len ≡ w)
        × (s'.header ≡ record (s.header) { fin = false })
  unfolding cut_back
  cut_back-Carries p n w s c z h b =
      let e = p + s.len - w in
      let flag : flag_len s.header.fin ≤ 1 = flag_len_bound s.header.fin in
      let k = trim-slice f p n (e - flag_len s.header.fin) (omega arith) in
      let held : n - (e - flag_len s.header.fin) ≡ w - p = omega arith in
      (
        record s {
          end = sub s.end e;
          len = s.len - e;
          header = record (s.header) { fin = false };
          data_bytes = slice f p (w - p);
        },
        rw (le→ltb s.len e (omega arith), c.bytes, k ∙ ap (λ x. some (slice f p x)) held),
        record {
          start = c.start;
          bytes = refl;
          len = omega arith;
          end = rw c.end (
              sub_back base (p + (s.len - 1)) e (omega arith) (omega arith)
              ∙ ap (add base) (omega arith));
          syn = c.syn;
        },
        omega arith,
        refl,
      )

-- The places of a segment that lie in the window from `r` to `w`: what `receive` goes on with.
pub record InWindow (f : ℕ → ℕ) (base p r w : ℕ) (s s' : Segment) : Type 0 where
  pub pos : ℕ
  pub held : ℕ
  pub carries : Carries f base pos held s'
  pub first : pos ≡ (if ltb p r then r else p)
  pub last : pos + s'.len ≡ (if ltb w (p + s.len) then w else p + s.len)
  pub inside : pos < w
  pub same : s'.header ≡ record (s.header) { fin = s.header.fin && leb (p + s.len) w }

-- None of its places lies in the window; a segment of none is where it starts.
abbrev pub Outside : ℕ → ℕ → ℕ → ℕ → Type 0
Outside p len r w = (w ≤ p) ⊎ ((p < r) × (p + len ≤ r))

module _ (f : ℕ → ℕ) (base lo hi : ℕ) (small : hi < lo + 2 ^ 31) where
  -- After the test at the front.
  record Front (p n r w : ℕ) (s s' : Segment) : Type 0 where
    pos : ℕ
    held : ℕ
    carries : Carries f base pos held s'
    first : pos ≡ (if ltb p r then r else p)
    last : pos + s'.len ≡ p + s.len
    inside : pos < w
    same : s'.header ≡ s.header

  check_front-Front :
      (p n r w : ℕ) (s : Segment)
      → Carries f base p n s
      → lo ≤ p
      → p + s.len ≤ hi
      → lo ≤ r
      → r < w
      → w ≤ hi
      → ((check_front (add base r) (add base w) s ≡ some refused) × Outside p s.len r w)
        ⊎ ((s' : Segment) × (check_front (add base r) (add base w) s ≡ some (accepted s'))
            × Front p n r w s s')
  unfolding check_front
  check_front-Front p n r w s c a b d e g =
      let same =
        ap (λ x. x == add base r) c.start
        ∙ equal_positions base lo hi p r a (omega arith) d (omega arith) small in
      let before =
        ap (λ x. lt x (add base r)) c.start
        ∙ (compare base lo hi p r a (omega arith) d (omega arith) small).0 in
      let old =
        ap (λ x. lt x (add base r)) c.end
        ∙ (compare base lo hi (p + (s.len - 1)) r (omega arith) (omega arith) d (omega arith)
            small).0 in
      let after =
        ap (λ x. ge x (add base w)) c.start
        ∙ (compare base lo hi p w a (omega arith) (omega arith) g small).2 in
      elim (Bool-cases (p == r)) [
        | inl t ↦ inr (
          s,
          rw (same ∙ t),
          record {
            pos = p;
            held = n;
            carries = c;
            first = ground arith;
            last = refl;
            inside = ground arith;
            same = refl;
          },
        )
        | inr t ↦ elim (Bool-cases (ltb p r)) [
          | inl t' ↦ elim (Bool-cases (ltb (p + (s.len - 1)) r)) [
            | inl t'' ↦ inl (rw (same ∙ t, before ∙ t', old ∙ t''), inr (ground arith))
            | inr t'' ↦
                let over : r ≤ p + (s.len - 1) = ground arith in
                let lt : p < r = ground arith in
                let at : p + (r - p) ≡ r = omega arith in
                let len : r - p < s.len = omega arith in
                let (s', k, v, l, h) = cut_front-Carries f base p n (r - p) s c (omega arith) len in
                let dup : sub (add base r) s.start ≡ r - p =
                  ap (sub (add base r)) c.start
                  ∙ sub_positions base p r (omega arith) (omega arith) in
                inr (
                  s',
                  rw (same ∙ t, before ∙ t', old ∙ t'', dup, k),
                  record {
                    pos = p + (r - p);
                    held = n - (r - p);
                    carries = v;
                    first = rw t' at;
                    last = omega arith;
                    inside = omega arith;
                    same = h;
                  },
                )
          ]
          | inr t' ↦ elim (Bool-cases (leb w p)) [
            | inl t'' ↦ inl (rw (same ∙ t, before ∙ t', after ∙ t''), inl (ground arith))
            | inr t'' ↦ inr (
              s,
              rw (same ∙ t, before ∙ t', after ∙ t''),
              record {
                pos = p;
                held = n;
                carries = c;
                first = rw t';
                last = refl;
                inside = ground arith;
                same = refl;
              },
            )
          ]
        ]
      ]

  record Back (pos held w : ℕ) (s s' : Segment) : Type 0 where
    kept : ℕ
    carries : Carries f base pos kept s'
    last : pos + s'.len ≡ (if ltb w (pos + s.len) then w else pos + s.len)
    same : s'.header ≡ record (s.header) { fin = s.header.fin && leb (pos + s.len) w }

  and_true : (b : Bool) → (b && true) ≡ b
  and_true true = refl
  and_true false = refl

  and_false : (b : Bool) → (b && false) ≡ false
  and_false true = refl
  and_false false = refl

  check_back-Back :
      (pos held w : ℕ) (s : Segment)
      → Carries f base pos held s
      → lo ≤ pos
      → pos + s.len ≤ hi
      → pos < w
      → w ≤ hi
      → (s' : Segment) × (check_back (add base w) s ≡ some s') × Back pos held w s s'
  unfolding check_back
  check_back-Back pos held w s c a b d e =
      let over =
        ap (λ x. ge x (add base w)) c.end
        ∙ (compare base lo hi (pos + (s.len - 1)) w (omega arith) (omega arith) (omega arith) e
            small).2 in
      elim (Bool-cases (ltb w (pos + s.len))) [
        | inl t ↦
            let more : w < pos + s.len = ground arith in
            let (s', k, v, l, h) = cut_back-Carries f base pos held w s c d more (omega arith) in
            let x : sub s.end (add base w) + 1 ≡ pos + s.len - w =
              ap (λ x. sub x (add base w) + 1) c.end
              ∙ ap (λ x. x + 1)
                  (sub_positions base w (pos + (s.len - 1)) (omega arith) (omega arith))
              ∙ omega arith in
            let some_len : ltb 0 s.len ≡ true = lt→ltb 0 s.len (omega arith) in
            let past : leb w (pos + (s.len - 1)) ≡ true = ground arith in
            let no : leb (pos + s.len) w ≡ false = ground arith in
            (
              s',
              rw (some_len, over ∙ past, x, k),
              record {
                kept = w - pos;
                carries = v;
                last = rw t l;
                same = rw (no, and_false s.header.fin) h;
              },
            )
        | inr t ↦
            let le : leb (pos + s.len) w ≡ true = ground arith in
            let test : (ltb 0 s.len && ge s.end (add base w)) ≡ false = rw over (ground arith) in
            (
              s,
              rw test,
              record {
                kept = held;
                carries = c;
                last = rw t;
                same = rw (le, and_true s.header.fin);
              },
            )
      ]

  -- Where its places and the window lie within 2 ^ 31 of one another and the window is not empty, a
  -- segment of stream bytes without a SYN is refused just where no place of it lies in the window,
  -- and otherwise accepted as the part that does, with its FIN if that is in the window, without a
  -- panic or a failed assertion.
  pub check-InWindow :
      (p n r w : ℕ) (s : Segment)
      → Carries f base p n s
      → lo ≤ p
      → p + s.len ≤ hi
      → lo ≤ r
      → r < w
      → w ≤ hi
      → ((check_segment (add base r) (add base w) s ≡ some refused) × Outside p s.len r w)
        ⊎ ((s' : Segment) × (check_segment (add base r) (add base w) s ≡ some (accepted s'))
            × InWindow f base p r w s s')
  unfolding check_segment
  check-InWindow p n r w s c a b d e g = elim (check_front-Front p n r w s c a b d e g) [
    | inl (k, o) ↦ inl (rw k, o)
    | inr (s', k, v) ↦
        let from : r ≤ v.pos = ground (arith, v.first) in
        let (s'', k', v') =
          check_back-Back v.pos v.held w s' v.carries (omega arith) (omega (arith, v.last)) v.inside
            g in
        let fits : v.pos + s''.len ≤ w = ground (arith, v'.last) in
        let low =
          ap (le (add base r)) v'.carries.start
          ∙ (compare base lo hi r v.pos d (omega arith) (omega arith) (omega arith) small).1
          ∙ le→leb r v.pos from in
        let high =
          ap (λ x. lt x (add base w)) v'.carries.end
          ∙ (compare base lo hi (v.pos + (s''.len - 1)) w (omega arith) (omega arith) (omega arith)
              g small).0
          ∙ lt→ltb (v.pos + (s''.len - 1)) w (omega (arith, v.inside)) in
        inr (
          s'',
          rw (k, k', low, high),
          record {
            pos = v.pos;
            held = v'.kept;
            carries = v'.carries;
            first = v.first;
            last = rw v.last at v'.last;
            inside = v.inside;
            same =
                v'.same
                ∙ ap₂ (λ (h : TcpHeader) (x : ℕ). record h { fin = h.fin && leb x w }) v.same
                    v.last;
          },
        )
  ]
