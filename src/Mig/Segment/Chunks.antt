-- ===== src/Mig/Segment/Chunks.antt =====
-- The fragmenter's loop cuts a payload into the chunks of a reference definition.
use capybara_artifact.Base.{
  ℕ, zero, suc, ◌+◌, ◌-◌, ◌≢◌, ◌*◌, ◌/◌, ◌⊎◌, ◌%◌, ◌^◌, ◌≤◌, ◌<◌, ◌==◌, ◌≡◌, refl, ap, true, false,
  not, ◌&&◌, ltb, leb, le→leb, inl, inr, some, none, List, [], ◌∷◌, append-nil, map, length, take,
  drop, All, ◌>>=◌, arith, take-append-drop, length-drop,
}
use mathlib.Core.List.{flatten}
use capybara_artifact.State.{Buffer}
use capybara_artifact.Mig.Header.{TcpMigHeader}
use capybara_artifact.Mig.Segment.{
  TcpMigSegment, TcpMigFragmenter, max_fragment_size, fragments, next, collect,
}
use capybara_artifact.Mig.Segment.Order.{Piece, enumerate}
use capybara_artifact.Mig.Segment.Reassemble.{fragment}

-- `k` full chunks and the rest.
unfoldable pub chunks : ℕ → Buffer → List Buffer
chunks zero b = b ∷ []
chunks (suc k) b = take max_fragment_size b ∷ chunks k (drop max_fragment_size b)

-- A segment whose header is that of piece i of n.
abbrev pub segment_of : TcpMigSegment → ℕ → Piece → TcpMigSegment
segment_of s n p = record s {
  tcpmig_hdr = (fragment (s.tcpmig_hdr) n p).0;
  payload = (fragment (s.tcpmig_hdr) n p).1;
}

pub length-chunks : (k : ℕ) (b : Buffer) → length (chunks k b) ≡ suc k
unfolding chunks
length-chunks zero b = refl
length-chunks (suc k) b = ap suc (length-chunks k (drop max_fragment_size b))

pub flatten-chunks : (k : ℕ) (b : Buffer) → flatten (chunks k b) ≡ b
unfolding chunks flatten
flatten-chunks zero b = append-nil b
flatten-chunks (suc k) b =
    rw (flatten-chunks k (drop max_fragment_size b)) (take-append-drop max_fragment_size b)

-- The number of full chunks before the last one, which is not empty unless the payload is.
unfoldable pub full_chunks : Buffer → ℕ
full_chunks b = (length b - 1) / max_fragment_size

next-done :
    (s : TcpMigSegment) (i : ℕ)
    → i ≢ 0
    → next (record { segment = record s { payload = [] }; current_fragment = i }) ≡ none
unfolding next
next-done s i h = let e : (i == 0) ≡ false = ground arith in rw e

next-last :
    (s : TcpMigSegment) (b : Buffer) (i : ℕ)
    → (i ≡ 0 ⊎ 0 < length b)
    → length b ≤ max_fragment_size
    → i + 1 < 2 ^ 16
    → next (record { segment = record s { payload = b }; current_fragment = i })
      ≡ some (
        segment_of s (suc i) (i, b),
        record { segment = record s { payload = [] }; current_fragment = i + 1 },
      )
unfolding next
next-last s b i pos hi w =
    let e : (length b == 0 && not (i == 0)) ≡ false = ground arith in
    let m : (i + 1) % 2 ^ 16 ≡ i + 1 = omega arith in
    let l : ltb (i + 1) (suc i) ≡ false = ground arith in
    rw (e, le→leb (length b) max_fragment_size hi, m, l)

next-more :
    (s : TcpMigSegment) (b : Buffer) (i n : ℕ)
    → max_fragment_size < length b
    → i + 1 < n
    → n < 2 ^ 16
    → next (record { segment = record s { payload = b }; current_fragment = i })
      ≡ some (
        segment_of s n (i, take max_fragment_size b),
        record {
          segment = record s { payload = drop max_fragment_size b };
          current_fragment = i + 1;
        },
      )
unfolding next
next-more s b i n hi lt w =
    let e : (length b == 0 && not (i == 0)) ≡ false = ground arith in
    let m : (i + 1) % 2 ^ 16 ≡ i + 1 = omega arith in
    let g : leb (length b) max_fragment_size ≡ false = ground arith in
    let l : ltb (i + 1) n ≡ true = ground arith in rw (e, g, m, l)

pub collect-some :
    (fuel : ℕ) (f f' : TcpMigFragmenter) (s : TcpMigSegment)
    → next f ≡ some (s, f')
    → collect (suc fuel) f ≡ (collect fuel f' >>= λ rest. some (s ∷ rest))
unfolding collect
collect-some fuel f f' s e = rw (e, collect)

pub collect-none :
    (fuel : ℕ) (f : TcpMigFragmenter) → next f ≡ none → collect (suc fuel) f ≡ some []
unfolding collect
collect-none fuel f e = rw (e, collect)

pub collect-loop :
    (k i n fuel : ℕ) (s : TcpMigSegment) (b : Buffer)
    → n ≡ suc (i + k)
    → (k * max_fragment_size < length b ⊎ k ≡ 0)
    → length b ≤ suc k * max_fragment_size
    → n < 2 ^ 16
    → k + 2 ≤ fuel
    → (i ≡ 0 ⊎ 0 < length b)
    → collect fuel (record { segment = record s { payload = b }; current_fragment = i })
      ≡ some (map (segment_of s n) (enumerate i (chunks k b)))
unfolding chunks enumerate
collect-loop zero i n zero s b q lo hi w f pos = absurd (omega arith)
collect-loop zero i n (suc zero) s b q lo hi w f pos = absurd (omega arith)
collect-loop zero i n (suc (suc fuel)) s b q lo hi w f pos =
    let z : n ≡ suc i = omega arith in
    let e = collect-some (suc fuel) _ _ _ (next-last s b i pos (omega arith) (omega arith)) in
    let e' = collect-none fuel _ (next-done s (i + 1) (λ q. absurd (omega arith))) in rw (z, e, e')
collect-loop (suc k) i n zero s b q lo hi w f pos = absurd (omega arith)
collect-loop (suc k) i n (suc fuel) s b q lo hi w f pos =
    let d = length-drop max_fragment_size b in
    rw (
      collect-some fuel _ _ _ (next-more s b i n (omega arith) (omega arith) w),
      collect-loop k (i + 1) n fuel s (drop max_fragment_size b) (omega arith) (ground arith)
          (omega arith) w (omega arith) (inr (omega arith)),
    )

pub chunk_count :
    (b : Buffer)
    → (full_chunks b * max_fragment_size < length b ⊎ full_chunks b ≡ 0)
      × (length b ≤ suc (full_chunks b) * max_fragment_size)
unfolding full_chunks
chunk_count b = (ground arith, omega arith)

-- A payload of fewer than 65536 fragments, on fuel for each of them and one more step, leaves as
-- its chunks in order, numbered from 0, each but the last marked as followed by another.
pub collect-fragments :
    (s : TcpMigSegment) (fuel : ℕ)
    → full_chunks (s.payload) + 1 < 2 ^ 16
    → full_chunks (s.payload) + 2 ≤ fuel
    → collect fuel (fragments s)
      ≡ some (
          map
            (segment_of s (suc (full_chunks (s.payload))))
            (enumerate 0 (chunks (full_chunks (s.payload)) (s.payload))))
unfolding fragments
collect-fragments s fuel w f =
    let (lo, hi) = chunk_count (s.payload) in
    collect-loop (full_chunks (s.payload)) 0 (suc (full_chunks (s.payload))) fuel s (s.payload)
      (omega arith) lo hi (omega arith) f (inl refl)

-- A fragment's header and payload, as the defragmenter takes them.
abbrev pub received_part : TcpMigSegment → TcpMigHeader × Buffer
received_part s = (s.tcpmig_hdr, s.payload)

length-take_le : (n : ℕ) (b : Buffer) → length (take n b) ≤ n
length-take_le zero b = omega arith
length-take_le (suc n) [] = omega arith
length-take_le (suc n) (x ∷ b) = omega (arith, length-take_le n b)

-- Every chunk fits a packet, and the chunks joined are the payload.
pub chunk-bound :
    (k : ℕ) (b : Buffer)
    → length b ≤ suc k * max_fragment_size
    → All (λ c. length c ≤ max_fragment_size) (chunks k b)
unfolding chunks
chunk-bound zero b h = (omega arith, tt)
chunk-bound (suc k) b h =
    let d = length-drop max_fragment_size b in
    (length-take_le max_fragment_size b, chunk-bound k (drop max_fragment_size b) (omega arith))
