-- ===== src/Tcp/Header/Options.antt =====
-- The options of a TCP header: read back as they were written, up to the first end marker.
use capybara_artifact.Base.{
  ℕ, zero, suc, ◌+◌, ◌-◌, ◌*◌, ◌/◌, ◌≤◌, ◌<◌, ◌==◌, ◌≡◌, refl, ap, sym, ◌∙◌, true, false, ◌||◌, ltb,
  lt→ltb, some, List, [], ◌∷◌, ◌++◌, append-nil, append_assoc, ok, length, length-append, All,
  IsByte, IsU16, IsU32, to_be2, to_be4, of_be2-to_be2, of_be4-to_be4, arith,
}
use capybara_artifact.Seq.{SeqNumber}
use capybara_artifact.Tcp.Header.{
  TcpOptions2, no_operation, sack_permitted, maximum_segment_size, window_scale,
  selective_acknowledgement, timestamp, option_size, serialize_option, sack_bytes, options_bytes,
  options_size,
}
use capybara_artifact.Tcp.Header.Parse.{
  read_sacks, parse_option, parse_options, mss_option, window_scale_option, sack_permitted_option,
  sack_option, timestamp_option,
}

-- The ranges of the Rust types, and one to four selective acknowledgements.
abbrev pub IsOption : TcpOptions2 → Type 0
IsOption no_operation = Unit {0}
IsOption sack_permitted = Unit {0}
IsOption (maximum_segment_size mss) = IsU16 mss
IsOption (window_scale scale) = IsByte scale
IsOption (selective_acknowledgement sacks) =
    (1 ≤ length sacks) × (length sacks ≤ 4) × All (λ s. IsU32 (s.0) × IsU32 (s.1)) sacks
IsOption (timestamp sender echo) = IsU32 sender × IsU32 echo

-- What is read back: the options that say something.
abbrev pub significant : List TcpOptions2 → List TcpOptions2
significant [] = []
significant (no_operation ∷ os) = significant os
significant (o ∷ os) = o ∷ significant os

pub length-option : (o : TcpOptions2) → length (serialize_option o) ≡ option_size o
unfolding serialize_option option_size
length-option no_operation = refl
length-option sack_permitted = refl
length-option (maximum_segment_size mss) = refl
length-option (window_scale scale) = refl
length-option (selective_acknowledgement sacks) = omega (arith, length-sacks sacks)
  where
    length-sacks : (s : List (SeqNumber × SeqNumber)) → length (sack_bytes s) ≡ 8 * length s
    length-sacks [] = refl
    length-sacks (x ∷ s) = omega (arith, length-sacks s)
length-option (timestamp sender echo) = refl

pub length-options : (os : List TcpOptions2) → length (options_bytes os) ≡ options_size os
unfolding options_bytes options_size
length-options [] = refl
length-options (o ∷ os) = omega (
  arith,
  length-append (serialize_option o) (options_bytes os),
  length-option o,
  length-options os,
)

read_sacks-bytes :
    (s : List (SeqNumber × SeqNumber)) (rest : List ℕ)
    → All (λ s. IsU32 (s.0) × IsU32 (s.1)) s
    → read_sacks (length s) (sack_bytes s ++ rest) ≡ some (s, rest)
unfolding read_sacks
read_sacks-bytes [] rest a = refl
read_sacks-bytes ((b, e) ∷ s) rest ((hb, he), a) =
    rw (read_sacks-bytes s rest a, of_be4-to_be4 b hb, of_be4-to_be4 e he)

-- One option that is not a no-operation, after its kind.
abbrev pub kind_of : TcpOptions2 → ℕ
kind_of no_operation = 1
kind_of (maximum_segment_size mss) = 2
kind_of (window_scale scale) = 3
kind_of sack_permitted = 4
kind_of (selective_acknowledgement sacks) = 5
kind_of (timestamp sender echo) = 8

abbrev body_of : TcpOptions2 → List ℕ
body_of no_operation = []
body_of (maximum_segment_size mss) = 4 ∷ to_be2 mss
body_of (window_scale scale) = 3 ∷ scale ∷ []
body_of sack_permitted = 2 ∷ []
body_of (selective_acknowledgement sacks) = (2 + 8 * length sacks) ∷ sack_bytes sacks
body_of (timestamp sender echo) = 10 ∷ (to_be4 sender ++ to_be4 echo)

serialize_option-eq : (o : TcpOptions2) → serialize_option o ≡ kind_of o ∷ body_of o
unfolding serialize_option
serialize_option-eq no_operation = refl
serialize_option-eq (maximum_segment_size mss) = refl
serialize_option-eq (window_scale scale) = refl
serialize_option-eq sack_permitted = refl
serialize_option-eq (selective_acknowledgement sacks) = refl
serialize_option-eq (timestamp sender echo) = refl

sack_option-bytes :
    (s : List (SeqNumber × SeqNumber)) (rest : List ℕ)
    → 1 ≤ length s
    → length s ≤ 4
    → All (λ s. IsU32 (s.0) × IsU32 (s.1)) s
    → sack_option ((2 + 8 * length s) ∷ (sack_bytes s ++ rest))
      ≡ ok (selective_acknowledgement s, rest)
unfolding sack_option
sack_option-bytes s rest lo hi a =
    let z : (2 + 8 * length s - 2) / 8 ≡ length s = omega arith in
    let t : (2 + 8 * length s == 10
          || 2 + 8 * length s == 18
          || 2 + 8 * length s == 26
          || 2 + 8 * length s == 34)
        ≡ true =
      ground arith in
    rw (t, z, read_sacks-bytes s rest a)

parse_option-body :
    (o : TcpOptions2) (rest : List ℕ)
    → IsOption o
    → ltb 1 (kind_of o) ≡ true
    → parse_option (kind_of o) (body_of o ++ rest) ≡ ok (o, rest)
unfolding parse_option mss_option window_scale_option sack_permitted_option timestamp_option
parse_option-body no_operation rest v k = cc
parse_option-body (maximum_segment_size mss) rest v k = rw (of_be2-to_be2 mss v)
parse_option-body (window_scale scale) rest v k = refl
parse_option-body sack_permitted rest v k = refl
parse_option-body (selective_acknowledgement sacks) rest (lo, hi, a) k =
    sack_option-bytes sacks rest lo hi a
parse_option-body (timestamp sender echo) rest (hs, he) k =
    rw (of_be4-to_be4 sender hs, of_be4-to_be4 echo he)

parse-option_first :
    (o : TcpOptions2) (rest : List ℕ) (acc : List TcpOptions2) (fuel : ℕ)
    → IsOption o
    → ltb 1 (kind_of o) ≡ true
    → length acc < 5
    → parse_options (suc fuel) acc (kind_of o ∷ (body_of o ++ rest))
      ≡ parse_options fuel (acc ++ (o ∷ [])) rest
unfolding parse_options
parse-option_first o rest acc fuel v k l =
    let z : (kind_of o == 0) ≡ false = ground arith in
    let y : (kind_of o == 1) ≡ false = ground arith in
    rw (z, y, parse_option-body o rest v k, lt→ltb (length acc) 5 l)

shorter :
    (o : TcpOptions2) (os : List TcpOptions2) (fuel : ℕ)
    → length (options_bytes (o ∷ os)) < suc fuel
    → length (options_bytes os) < fuel
unfolding options_bytes
shorter o os fuel h =
    let z : length (serialize_option o) ≡ suc (length (body_of o)) =
      ap length (serialize_option-eq o) in
    omega (arith, z, length-append (serialize_option o) (options_bytes os))

parse_options-cons :
    (o : TcpOptions2) (os acc : List TcpOptions2) (fuel : ℕ) (pad : List ℕ)
    → IsOption o
    → ltb 1 (kind_of o) ≡ true
    → length acc < 5
    → significant (o ∷ os) ≡ o ∷ significant os
    → parse_options fuel (acc ++ (o ∷ [])) (options_bytes os ++ (0 ∷ pad))
      ≡ ok ((acc ++ (o ∷ [])) ++ significant os)
    → parse_options (suc fuel) acc (options_bytes (o ∷ os) ++ (0 ∷ pad))
      ≡ ok (acc ++ significant (o ∷ os))
unfolding options_bytes
parse_options-cons o os acc fuel pad v k l s ih =
    rw
      (
        serialize_option-eq o,
        append_assoc (body_of o) (options_bytes os) (0 ∷ pad),
        parse-option_first o (options_bytes os ++ (0 ∷ pad)) acc fuel v k l,
        s,
      )
      (ih ∙ ap ok (append_assoc acc (o ∷ []) (significant os)))

-- Options that are not more than five, together with those read before, are read back in order up
-- to the end marker.
pub parse_options-bytes :
    (os acc : List TcpOptions2) (fuel : ℕ) (pad : List ℕ)
    → All IsOption os
    → length acc + length os ≤ 5
    → length (options_bytes os) < fuel
    → parse_options fuel acc (options_bytes os ++ (0 ∷ pad)) ≡ ok (acc ++ significant os)
unfolding options_bytes parse_options serialize_option
parse_options-bytes os acc zero pad a l f = absurd (omega arith)
parse_options-bytes [] acc (suc fuel) pad a l f = ap ok (sym (append-nil acc))
parse_options-bytes (no_operation ∷ os) acc (suc fuel) pad (v, a) l f =
    parse_options-bytes os acc fuel pad a (omega arith) (omega arith)
parse_options-bytes (maximum_segment_size mss ∷ os) acc (suc fuel) pad (v, a) l f =
    let o = maximum_segment_size mss in
    parse_options-cons o os acc fuel pad v refl (omega arith) refl (
      parse_options-bytes os (acc ++ (o ∷ [])) fuel pad a
        (omega (arith, length-append acc (o ∷ []))) (shorter o os fuel f))
parse_options-bytes (window_scale scale ∷ os) acc (suc fuel) pad (v, a) l f =
    let o = window_scale scale in
    parse_options-cons o os acc fuel pad v refl (omega arith) refl (
      parse_options-bytes os (acc ++ (o ∷ [])) fuel pad a
        (omega (arith, length-append acc (o ∷ []))) (shorter o os fuel f))
parse_options-bytes (sack_permitted ∷ os) acc (suc fuel) pad (v, a) l f =
    let o = sack_permitted in
    parse_options-cons o os acc fuel pad v refl (omega arith) refl (
      parse_options-bytes os (acc ++ (o ∷ [])) fuel pad a
        (omega (arith, length-append acc (o ∷ []))) (shorter o os fuel f))
parse_options-bytes (selective_acknowledgement sacks ∷ os) acc (suc fuel) pad (v, a) l f =
    let o = selective_acknowledgement sacks in
    parse_options-cons o os acc fuel pad v refl (omega arith) refl (
      parse_options-bytes os (acc ++ (o ∷ [])) fuel pad a
        (omega (arith, length-append acc (o ∷ []))) (shorter o os fuel f))
parse_options-bytes (timestamp sender echo ∷ os) acc (suc fuel) pad (v, a) l f =
    let o = timestamp sender echo in
    parse_options-cons o os acc fuel pad v refl (omega arith) refl (
      parse_options-bytes os (acc ++ (o ∷ [])) fuel pad a
        (omega (arith, length-append acc (o ∷ []))) (shorter o os fuel f))
