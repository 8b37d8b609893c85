-- ===== src/Mig/Segment/Delivery.antt =====
-- The fragmenter and the defragmenter together: a payload survives being cut, reordered and put
-- together again.
use capybara_artifact.Base.{
  ℕ, suc, zero, ◌+◌, ◌-◌, ◌≤◌, ◌<◌, ◌^◌, ◌≡◌, refl, ap, false, Option, some, none, List, [], ◌∷◌,
  append-nil, map, length, All, get_elem?, ltb, Bool-cases, inl, inr, arith,
}
use mathlib.Core.List.{Perm, Permᴰ, mem-cons_self}
use mathlib.Core.List.Perm
use mathlib.Core.Logic.{∥∥₁_elim}
use mathlib.Core.HLevel.{×_prop}
use capybara_artifact.State.{Buffer}
use capybara_artifact.Mig.Header.{TcpMigHeader, MigrationStage}
use capybara_artifact.Mig.Segment.{
  TcpMigSegment, TcpMigDefragmenter, max_fragment_size, fragments, collect, new, reset,
  last_fragment, defragment, receive_all,
}
use capybara_artifact.Mig.Segment.Order.{Piece, enumerate, enumerate-mem, length-perm}
use capybara_artifact.Mig.Segment.Reassemble.{fragment, receive_all-perm}
use capybara_artifact.Mig.Segment.Chunks.{
  chunks, full_chunks, segment_of, received_part, collect-fragments, length-chunks, flatten-chunks,
}

abbrev Received : Type 0
Received = Option (List (TcpMigHeader × Buffer) × TcpMigDefragmenter)

Received-set : IsSet Received
Received-set = hlevel

module _ {A B : Type 0} (f : A → B) where
  permᴰ-map :
      {us vs : List B}
      → Permᴰ us vs
      → (xs : List A) → vs ≡ map f xs
      → (ls : List A) × (us ≡ map f ls) × Permᴰ ls xs
  permᴰ-map Permᴰ.nil [] e = ([], refl, Permᴰ.nil)
  permᴰ-map Permᴰ.nil (x ∷ xs) e = absurd (cc e)
  permᴰ-map (Permᴰ.cons e p) [] q = absurd (cc q)
  permᴰ-map (Permᴰ.cons e p) (x ∷ xs) q =
      let (ls, r, d) = permᴰ-map p xs (cc q) in (x ∷ ls, cc, Permᴰ.cons refl d)
  permᴰ-map (Permᴰ.swap e g) [] q = absurd (cc q)
  permᴰ-map (Permᴰ.swap e g) (x ∷ []) q = absurd (cc q)
  permᴰ-map (Permᴰ.swap e g) (x ∷ (y ∷ xs)) q = (y ∷ (x ∷ xs), cc, Permᴰ.swap refl refl)
  permᴰ-map (Permᴰ.trans p p') xs q =
      let (ls, r, d) = permᴰ-map p' xs q in
      let (ms, r', d') = permᴰ-map p ls r in (ms, r', Permᴰ.trans d' d)

map-segment_of :
    (s : TcpMigSegment) (n : ℕ) (ls : List Piece)
    → map received_part (map (segment_of s n) ls) ≡ map (fragment (s.tcpmig_hdr) n) ls
map-segment_of s n [] = refl
map-segment_of s n (p ∷ ls) = ap (◌∷◌ (received_part (segment_of s n p))) (map-segment_of s n ls)

-- A payload longer than one fragment and of fewer than 65536 of them is delivered: the fragments
-- that the loop of `send` makes, received in any order by a new defragmenter, complete one message,
-- the header that was sent with its fragment fields at rest and the payload that was sent.
pub defragment-fragments :
    (s : TcpMigSegment) (fuel : ℕ) (sent arrived : List TcpMigSegment)
    → max_fragment_size < length (s.payload)
    → full_chunks (s.payload) + 1 < 2 ^ 16
    → full_chunks (s.payload) + 2 ≤ fuel
    → collect fuel (fragments s) ≡ some sent
    → Perm arrived sent
    → receive_all new (map received_part arrived)
      ≡ some (
        (record (s.tcpmig_hdr) { flag_next_fragment = false; fragment_offset = 0 }, s.payload) ∷ [],
        record {
          fragments = [];
          total_fragments = none;
          current_fragments = 0;
          current_size = length (s.payload);
        },
      )
unfolding new full_chunks
defragment-fragments s fuel sent arrived big w f e p =
    let q : sent
        ≡ map (segment_of s (suc (full_chunks (s.payload))))
            (enumerate 0 (chunks (full_chunks (s.payload)) (s.payload))) =
      cc (collect-fragments s fuel w f) in
    ∥∥₁_elim p (Received-set _ _) λ d.
      let (ls, r, d') =
        permᴰ-map (segment_of s (suc (full_chunks (s.payload)))) d
          (enumerate 0 (chunks (full_chunks (s.payload)) (s.payload))) q in
      let cs = chunks (full_chunks (s.payload)) (s.payload) in
      let k = length-chunks (full_chunks (s.payload)) (s.payload) in
      let g = flatten-chunks (full_chunks (s.payload)) (s.payload) in
      let z : length (s.payload) + 0 ≡ length (s.payload) = omega arith in
      let m = receive_all-perm (s.tcpmig_hdr) cs 0 ls (omega arith) (rw g (omega arith)) ∣ d' ∣₁ in
      rw (r, map-segment_of s (suc (full_chunks (s.payload))) ls)
        (rw (k, g, z, append-nil (s.payload)) at m)

single : (b : Buffer) (ls : List Piece) → Perm ls ((0, b) ∷ []) → ls ≡ (0, b) ∷ []
unfolding enumerate
single b [] p = absurd (omega (arith, length-perm p))
single b ((i, c) ∷ []) p =
    at_zero i (enumerate-mem 0 (b ∷ []) i c ((Perm.mem_iff p).0 mem-cons_self))
  where
    at_zero :
        (j : ℕ)
        → (0 ≤ j) × (get_elem? (b ∷ []) (j - 0) ≡ some c)
        → ◌≡◌ {A = List Piece} ((j, c) ∷ []) ((0, b) ∷ [])
    at_zero zero (h, e) = let q : c ≡ b = cc in rw q
    at_zero (suc j) (h, e) = let z : suc j - 0 ≡ suc j = omega arith in cc (rw z at e)
single b (x ∷ (y ∷ ls)) p = absurd (omega (arith, length-perm p))

defragment-single :
    (s : TcpMigSegment) (fuel : ℕ) (sent arrived : List TcpMigSegment)
    → length (s.payload) ≤ max_fragment_size
    → 2 ≤ fuel
    → collect fuel (fragments s) ≡ some sent
    → Perm arrived sent
    → receive_all new (map received_part arrived)
      ≡ some (
        (record (s.tcpmig_hdr) { flag_next_fragment = false; fragment_offset = 0 }, s.payload) ∷ [],
        new,
      )
unfolding new full_chunks receive_all defragment last_fragment reset chunks enumerate
defragment-single s fuel sent arrived small f e p =
    let k : full_chunks (s.payload) ≡ 0 = omega arith in
    let c = rw k at (collect-fragments s fuel (omega arith) (omega arith)) in
    let q : sent ≡ map (segment_of s 1) ((0, s.payload) ∷ []) = cc in
    ∥∥₁_elim p (Received-set _ _) λ d.
      let (ls, r, d') = permᴰ-map (segment_of s 1) d ((0, s.payload) ∷ []) q in
      rw (r, single (s.payload) ls ∣ d' ∣₁)

-- A payload of fewer than 65536 fragments is delivered, however long: the fragments that the loop
-- of `send` makes of it, received in any order by a new defragmenter, complete one message, the
-- header that was sent with its fragment fields at rest and the payload that was sent.
pub receive_all-fragments :
    (s : TcpMigSegment) (fuel : ℕ) (sent arrived : List TcpMigSegment)
    → full_chunks (s.payload) + 1 < 2 ^ 16
    → full_chunks (s.payload) + 2 ≤ fuel
    → collect fuel (fragments s) ≡ some sent
    → Perm arrived sent
    → (d : TcpMigDefragmenter) × (receive_all new (map received_part arrived)
        ≡ some (
          (record (s.tcpmig_hdr) { flag_next_fragment = false; fragment_offset = 0 }, s.payload)
              ∷ [],
          d,
        ))
receive_all-fragments s fuel sent arrived w f e p =
    elim (Bool-cases (ltb max_fragment_size (length (s.payload)))) [
      | inl l ↦ (_, defragment-fragments s fuel sent arrived (ground arith) w f e p)
      | inr l ↦ (_, defragment-single s fuel sent arrived (ground arith) (omega arith) e p)
    ]

MigrationStage-set : IsSet MigrationStage
MigrationStage-set = hlevel

abbrev pub InStage : MigrationStage → TcpMigHeader × Buffer → Type 0
InStage t x = (x.0).stage ≡ t

InStage-prop :
    (t : MigrationStage) (ls : List (TcpMigHeader × Buffer)) → IsProp (All (InStage t) ls)
InStage-prop t [] = hlevel
InStage-prop t (x ∷ ls) = ×_prop (MigrationStage-set _ _) (InStage-prop t ls)

pieces-InStage :
    (s : TcpMigSegment) (n : ℕ) (ls : List Piece)
    → All (InStage (s.tcpmig_hdr.stage)) (map received_part (map (segment_of s n) ls))
pieces-InStage s n [] = tt
pieces-InStage s n (p ∷ ls) = (refl, pieces-InStage s n ls)

-- Each fragment carries the stage of the message.
pub fragments-InStage :
    (s : TcpMigSegment) (fuel : ℕ) (sent arrived : List TcpMigSegment)
    → full_chunks (s.payload) + 1 < 2 ^ 16
    → full_chunks (s.payload) + 2 ≤ fuel
    → collect fuel (fragments s) ≡ some sent
    → Perm arrived sent
    → All (InStage (s.tcpmig_hdr.stage)) (map received_part arrived)
fragments-InStage s fuel sent arrived w f e p =
    let n = suc (full_chunks (s.payload)) in
    let ps = enumerate 0 (chunks (full_chunks (s.payload)) (s.payload)) in
    let q : sent ≡ map (segment_of s n) ps = cc (collect-fragments s fuel w f) in
    ∥∥₁_elim p (InStage-prop _ _)
      λ d. let (ls, r, d') = permᴰ-map (segment_of s n) d ps q in rw r (pieces-InStage s n ls)
