-- ===== src/Mig/Header/Checksum.antt =====
-- What the 16-bit sum detects.
use capybara_artifact.Base.{
  ℕ, zero, suc, ◌+◌, ◌-◌, ◌*◌, ◌%◌, ◌^◌, ◌≡◌, ◌≢◌, ◌⊎◌, refl, some, List, [], ◌∷◌, ◌++◌, err,
  get_elem?, set, take, drop, IsByte, arith,
}
use capybara_artifact.State.{Buffer}
use capybara_artifact.Mig.Header.{
  TcpMigHeader, Ipv4Header, checksum_mismatch, IsHeader, words, last_word, sum_words, octets,
  checksum, header_bytes, serialize, finish_parse, parse,
}
use capybara_artifact.Mig.Header.RoundTrip.{checksum_U16, parse-header_bytes}

-- The sum of the data as a number that does not wrap.
total : List ℕ → ℕ
total [] = 0
total (a ∷ []) = a * 256
total (a ∷ b ∷ rest) = a * 256 + b + total rest

sum_words-total :
    (p : List ℕ) (s : ℕ)
    → sum_words (last_word p ∷ []) (sum_words (words p) s) ≡ (s + total p) % 2 ^ 16
unfolding total
sum_words-total [] s = refl
sum_words-total (a ∷ []) s = refl
sum_words-total (a ∷ b ∷ rest) s =
    omega (arith, sum_words-total rest ((s + (a * 256 + b)) % 2 ^ 16))

total-set :
    (p : List ℕ) (i v b : ℕ)
    → get_elem? p i ≡ some b
    → (total (set p i v) + b ≡ total p + v) ⊎ (total (set p i v) + b * 256 ≡ total p + v * 256)
unfolding total
total-set [] i v b h = cc
total-set (a ∷ []) zero v b h = ground arith
total-set (a ∷ []) (suc i) v b h = cc
total-set (a ∷ c ∷ rest) zero v b h = ground arith
total-set (a ∷ c ∷ rest) (suc zero) v b h = ground arith
total-set (a ∷ c ∷ rest) (suc (suc i)) v b h = omega (arith, total-set rest i v b h)

-- The part of the sum that does not depend on the data.
abbrev head_sum : Ipv4Header → List ℕ → ℕ
head_sum ip hdr =
    sum_words
      (words (octets ip.src_addr)
        ++ (words (octets ip.dst_addr) ++ (words (take 6 hdr) ++ words (drop 8 hdr))))
      0

checksum-total :
    (ip : Ipv4Header) (hdr p : List ℕ)
    → checksum ip hdr p ≡ (2 ^ 16 - (head_sum ip hdr + total p) % 2 ^ 16) % 2 ^ 16
unfolding checksum
checksum-total ip hdr p = rw (sum_words-total p (head_sum ip hdr))

checksum-set :
    (ip : Ipv4Header) (hdr p : List ℕ) (i v b : ℕ)
    → get_elem? p i ≡ some b
    → IsByte b
    → IsByte v
    → v ≢ b
    → checksum ip hdr (set p i v) ≢ checksum ip hdr p
checksum-set ip hdr p i v b h hb hv ne e = absurd (
    omega
      (arith, checksum-total ip hdr p, checksum-total ip hdr (set p i v), total-set p i v b h, e))

-- One byte of the data that changes on the way is detected, unless the checksum came out as 0,
-- which the parser takes for no checksum.
pub parse_corrupted :
    (h : TcpMigHeader) (ip : Ipv4Header) (payload : Buffer) (i v b : ℕ)
    → IsHeader h
    → get_elem? payload i ≡ some b
    → IsByte b
    → IsByte v
    → v ≢ b
    → checksum ip (header_bytes h 0) payload ≢ 0
    → parse ip (serialize h ip payload ++ set payload i v) ≡ some (err checksum_mismatch)
unfolding serialize finish_parse
parse_corrupted h ip payload i v b valid e hb hv ne nz =
    rw
      (parse-header_bytes h ip (checksum ip (header_bytes h 0) payload) (set payload i v) valid
        (checksum_U16 ip (header_bytes h 0) payload))
      (ground (arith, checksum-set ip (header_bytes h 0) payload i v b e hb hv ne))
