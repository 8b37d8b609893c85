-- ===== src/Tcp/Header/Total.antt =====
-- The parser of TCP headers on every buffer, and the loop that folds the checksum.
use capybara_artifact.Base.{
  ℕ, zero, suc, ◌+◌, ◌-◌, ◌*◌, ◌/◌, ◌≤◌, ◌<◌, ◌≡◌, ◌≢◌, ◌⊎◌, ◌∙◌, refl, sym, ap, subst, length-drop,
  [], Bool, true, false, ltb, Bool-cases, inl, inr, some, List, Result, ok, err, length, get_elem?,
  get_elem?-some, take, drop, length-take_of_le, read_u16, read_u32, ◌==◌, >>=-total, read_u16-some,
  read_u32-some, arith,
}
use capybara_artifact.State.{Buffer}
use capybara_artifact.Mig.Header.{Ipv4Header}
use capybara_artifact.Tcp.Header.{
  TcpHeader, TcpOptions2, tcp_checksum, TcpFail, too_small, smaller_than_offset, offset_too_small,
  offset_too_large, checksum_mismatch, reduce,
}
use capybara_artifact.Tcp.Header.Parse.{
  finish_parse, and_then, options_of, parse_fields, parse_at, parse_sized, parse,
}
use capybara_artifact.Tcp.Header.Fuel.{IsOptionFail, Finishes, parse_options-Finishes}

-- The loop of the checksum ends with a 16-bit number, from which the sum differs by a multiple of
-- 0xFFFF.
pub reduce-bound :
    (s : ℕ) → (reduce (s / 0xFFFF) s ≤ 0xFFFF) × (k : ℕ) × (s ≡ reduce (s / 0xFFFF) s + k * 0xFFFF)
reduce-bound s = go (s / 0xFFFF) s (omega arith)
  where
    go :
        (n s : ℕ)
        → s ≤ n * 0xFFFF + 0xFFFF
        → (reduce n s ≤ 0xFFFF) × (k : ℕ) × (s ≡ reduce n s + k * 0xFFFF)
    go zero s h = (omega arith, 0, omega arith)
    go (suc n) s h = elim (Bool-cases (ltb 0xFFFF s)) [
      | inl e ↦
          let (b, k, q) = go n (s - 0xFFFF) (omega arith) in (rw e b, k + 1, rw e (ground arith))
      | inr e ↦ (rw e (ground arith), 0, rw e (omega arith))
    ]

-- Where the options and the data begin, as byte 12 says.
pub record Located (buf : Buffer) (d : ℕ) : Type 0 where
  pub byte : ℕ
  pub at : get_elem? buf 12 ≡ some byte
  pub offset : d ≡ byte / 16 * 4
  pub long : 20 ≤ length buf

-- That is in the buffer, behind a header of a size that there is.
pub record Sized (buf : Buffer) (d : ℕ) : Type 0 where
  pub located : Located buf d
  pub low : 20 ≤ d
  pub high : d ≤ 60
  pub inside : d ≤ length buf

module _ (ip : Ipv4Header) (hdr : List ℕ) (payload : Buffer) (offload : Bool) where
  -- The device has checked the checksum, or it is the computed one.
  abbrev pub Passes : Type 0
  Passes = (offload ≡ true) ⊎ (read_u16 16 hdr ≡ some (tcp_checksum ip hdr payload))

  abbrev pub Corrupted : Type 0
  Corrupted =
      (offload ≡ false)
      × (sum : ℕ) × (read_u16 16 hdr ≡ some sum)
      × (sum ≢ tcp_checksum ip hdr payload)

  -- What a result says of a header and its data.
  pub data Judged : Result TcpFail (TcpHeader × Buffer) → Type 0 where
    corrupted : Corrupted → Judged (err checksum_mismatch)
    bad_options : (e : TcpFail) → Passes → IsOptionFail e → options_of hdr ≡ err e → Judged (err e)
    good : (h : TcpHeader) → Passes → options_of hdr ≡ ok h.option_list → Judged (ok (h, payload))

-- What a result says of the buffer.
pub data Accounts (ip : Ipv4Header) (buf : Buffer) (offload : Bool)
    : Result TcpFail (TcpHeader × Buffer) → Type 0 where
  short : length buf < 20 → Accounts ip buf offload (err too_small)
  beyond :
      (d : ℕ) → Located buf d → length buf < d → Accounts ip buf offload (err smaller_than_offset)
  low : (d : ℕ) → Located buf d → d < 20 → Accounts ip buf offload (err offset_too_small)
  high : (d : ℕ) → Located buf d → 60 < d → Accounts ip buf offload (err offset_too_large)
  judged :
      (d : ℕ) (r : Result TcpFail (TcpHeader × Buffer))
      → Sized buf d
      → Judged ip (take d buf) (drop d buf) offload r
      → Accounts ip buf offload r

options_of-Finishes : (hdr : List ℕ) → Finishes (options_of hdr)
unfolding options_of
options_of-Finishes hdr =
    parse_options-Finishes (length hdr) [] (drop 20 hdr) (omega (arith, length-drop 20 hdr))

-- The three ways that `finish_parse` goes.
module _ (offload same : Bool) (os : Result TcpFail (List TcpOptions2))
    (f : List TcpOptions2 → TcpHeader) (payload : Buffer) where
  abbrev with_options : Result TcpFail (TcpHeader × Buffer)
  with_options = and_then os (λ os. ok (f os, payload))

  unchecked : offload ≡ true → finish_parse offload same os f payload ≡ with_options
  unfolding finish_parse
  unchecked e = rw e

  agrees : same ≡ true → finish_parse offload same os f payload ≡ with_options
  unfolding finish_parse
  agrees e = elim (Bool-cases offload) [ inl o ↦ rw o | inr o ↦ rw (o, e) ]

  differs :
      offload ≡ false
      → same ≡ false
      → finish_parse offload same os f payload ≡ err checksum_mismatch
  unfolding finish_parse
  differs o e = rw (o, e)

module _ (ip : Ipv4Header) (hdr : List ℕ) (payload : Buffer) (offload : Bool) where
  options-Judged :
      (os : Result TcpFail (List TcpOptions2)) (f : List TcpOptions2 → TcpHeader)
      → Passes ip hdr payload offload
      → options_of hdr ≡ os
      → Finishes os
      → ((os : List TcpOptions2) → (f os).option_list ≡ os)
      → Judged ip hdr payload offload (and_then os (λ os. ok (f os, payload)))
  options-Judged (err e) f p q w same = bad_options e p w q
  options-Judged (ok os) f p q w same = good (f os) p (q ∙ ap ok (sym (same os)))

  finish_parse-Judged :
      (sum : ℕ) (f : List TcpOptions2 → TcpHeader)
      → read_u16 16 hdr ≡ some sum
      → ((os : List TcpOptions2) → (f os).option_list ≡ os)
      → Judged ip hdr payload offload
          (finish_parse offload (sum == tcp_checksum ip hdr payload) (options_of hdr) f payload)
  finish_parse-Judged sum f es same = elim (Bool-cases offload) [
    | inl o ↦
        subst (Judged ip hdr payload offload)
          (sym (unchecked offload _ (options_of hdr) f payload o))
          (options-Judged (options_of hdr) f (inl o) refl (options_of-Finishes hdr) same)
    | inr o ↦ elim (Bool-cases (sum == tcp_checksum ip hdr payload)) [
      | inl e ↦
          let z : sum ≡ tcp_checksum ip hdr payload = ground arith in
          subst (Judged ip hdr payload offload)
            (sym (agrees offload _ (options_of hdr) f payload e))
            (options-Judged (options_of hdr) f (inr (es ∙ ap some z)) refl (options_of-Finishes hdr)
              same)
      | inr e ↦
          subst (Judged ip hdr payload offload)
            (sym (differs offload _ (options_of hdr) f payload o e))
            (corrupted (o, sum, es, λ z. ground arith))
    ]
  ]

  parse_fields-total :
      20 ≤ length hdr
      → (r : Result TcpFail (TcpHeader × Buffer)) × (parse_fields ip hdr payload offload ≡ some r)
        × Judged ip hdr payload offload r
  unfolding parse_fields
  parse_fields-total h =
      let P = Judged ip hdr payload offload in
      >>=-total P (read_u16 0 hdr) _ (read_u16-some 0 hdr (omega arith)) λ a ea.
        >>=-total P (read_u16 2 hdr) _ (read_u16-some 2 hdr (omega arith)) λ b eb.
          >>=-total P (read_u32 4 hdr) _ (read_u32-some 4 hdr (omega arith)) λ c ec.
            >>=-total P (read_u32 8 hdr) _ (read_u32-some 8 hdr (omega arith)) λ d ed.
              >>=-total P (get_elem? hdr 12) _ (get_elem?-some hdr 12 (omega arith)) λ e ee.
                >>=-total P (get_elem? hdr 13) _ (get_elem?-some hdr 13 (omega arith)) λ f ef.
                  >>=-total P (read_u16 14 hdr) _ (read_u16-some 14 hdr (omega arith)) λ g eg.
                    >>=-total P (read_u16 16 hdr) _ (read_u16-some 16 hdr (omega arith)) λ i ei.
                      >>=-total P (read_u16 18 hdr) _ (read_u16-some 18 hdr (omega arith))
                        λ j ej. (_, refl, finish_parse-Judged i _ ei (λ os. refl))

parse_at-total :
    (ip : Ipv4Header) (buf : Buffer) (offload : Bool) (d : ℕ)
    → Located buf d
    → (r : Result TcpFail (TcpHeader × Buffer)) × (parse_at ip buf offload d ≡ some r)
      × Accounts ip buf offload r
unfolding parse_at
parse_at-total ip buf offload d at = elim (Bool-cases (ltb (length buf) d)) [
  | inl x ↦ (err smaller_than_offset, rw x, beyond d at (ground arith))
  | inr x ↦ elim (Bool-cases (ltb d 20)) [
    | inl y ↦ (err offset_too_small, rw (x, y), low d at (ground arith))
    | inr y ↦ elim (Bool-cases (ltb 60 d)) [
      | inl z ↦ (err offset_too_large, rw (x, y, z), high d at (ground arith))
      | inr z ↦
          let l : d ≤ length buf = ground arith in
          let lo : 20 ≤ d = ground arith in
          let n : 20 ≤ length (take d buf) = omega (arith, length-take_of_le d buf l) in
          let (r, e, p) = parse_fields-total ip (take d buf) (drop d buf) offload n in
          let size : Sized buf d = record {
            located = at;
            low = lo;
            high = ground arith;
            inside = l;
          } in
          (r, rw (x, y, z) e, judged d r size p)
    ]
  ]
]

-- On every buffer the parser returns, without reading out of range, and its result is one that the
-- buffer explains. It accepts, where the header's size, as byte 12 says it, is from 20 to 60 bytes
-- and in the buffer, the checksum is the computed one or the device has checked it, and the loop
-- over the options ends with those of the header; what it hands on is the rest of the buffer. It
-- refuses for a size that is out of these bounds, for a checksum that differs from the computed
-- one, or, after that, with the error in which the loop over the options ended; the loop never runs
-- out of fuel.
pub parse_tcp-total :
    (ip : Ipv4Header) (buf : Buffer) (offload : Bool)
    → (r : Result TcpFail (TcpHeader × Buffer)) × (parse ip buf offload ≡ some r)
      × Accounts ip buf offload r
unfolding parse parse_sized
parse_tcp-total ip buf offload = elim (Bool-cases (ltb (length buf) 20)) [
  | inl x ↦ (err too_small, rw x, short (ground arith))
  | inr x ↦
      let (b, e) = get_elem?-some buf 12 (ground arith) in
      let at : Located buf (b / 16 * 4) = record {
        byte = b;
        at = e;
        offset = refl;
        long = ground arith;
      } in
      let (r, q, p) = parse_at-total ip buf offload (b / 16 * 4) at in (r, rw (x, e) q, p)
]
