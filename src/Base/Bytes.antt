-- ===== src/Base/Bytes.antt =====
-- Bytes as numbers below 256, and 16- and 32-bit words in network order (`byteorder`'s
-- NetworkEndian and BigEndian, and `to_be_bytes`).
use Prim.Native.Nat.{ℕ, zero, suc, ◌+◌, ◌*◌, ◌/◌, ◌%◌, ◌^◌, ◌≤◌, ◌<◌}
use mathlib.Core.Path.{◌≡◌, refl}
use mathlib.Core.List.{List, [], ◌∷◌, ◌++◌}
use mathlib.Core.Option.{Option, none, some}
use native.Mathlib.Omega.{arith}
use capybara_artifact.Base.Tests.{◌>>=◌}
use capybara_artifact.Base.Lists.{length, get_elem?, get_elem?-some, drop}

abbrev pub IsByte : ℕ → Type 0
IsByte x = x < 256

abbrev pub IsU16 : ℕ → Type 0
IsU16 x = x < 2 ^ 16

abbrev pub IsU32 : ℕ → Type 0
IsU32 x = x < 2 ^ 32

abbrev pub of_be2 : ℕ → ℕ → ℕ
of_be2 a b = a * 256 + b

abbrev pub of_be4 : ℕ → ℕ → ℕ → ℕ → ℕ
of_be4 a b c d = ((a * 256 + b) * 256 + c) * 256 + d

abbrev pub to_be2 : ℕ → List ℕ
to_be2 x = (x / 256 % 256) ∷ (x % 256) ∷ []

abbrev pub to_be4 : ℕ → List ℕ
to_be4 x = (x / 2 ^ 24 % 256) ∷ (x / 2 ^ 16 % 256) ∷ (x / 2 ^ 8 % 256) ∷ (x % 256) ∷ []

pub of_be2-to_be2 : (x : ℕ) → IsU16 x → of_be2 (x / 256 % 256) (x % 256) ≡ x
of_be2-to_be2 x h = omega arith

pub of_be4-to_be4 :
    (x : ℕ) → IsU32 x → of_be4 (x / 2 ^ 24 % 256) (x / 2 ^ 16 % 256) (x / 2 ^ 8 % 256) (x % 256) ≡ x
of_be4-to_be4 x h = omega arith

-- `buf[i]`, and `read_u16` and `read_u32` of `buf[i..i + 2]` and `buf[i..i + 4]`. `none` is the
-- panic of an index out of range.
abbrev pub read_u16 : ℕ → List ℕ → Option ℕ
read_u16 i buf = do a ← get_elem? buf i; b ← get_elem? buf (i + 1); some (of_be2 a b)

abbrev pub read_u32 : ℕ → List ℕ → Option ℕ
read_u32 i buf = do
  a ← get_elem? buf i
  b ← get_elem? buf (i + 1)
  c ← get_elem? buf (i + 2)
  d ← get_elem? buf (i + 3)
  some (of_be4 a b c d)

-- `Buffer::adjust`: drops `n` bytes at the front, and panics past the end.
abbrev pub adjust : ℕ → List ℕ → Option (List ℕ)
adjust zero buf = some buf
adjust (suc n) [] = none
adjust (suc n) (x ∷ buf) = adjust n buf

pub adjust-length_append : (xs ys : List ℕ) → adjust (length xs) (xs ++ ys) ≡ some ys
adjust-length_append [] ys = refl
adjust-length_append (x ∷ xs) ys = adjust-length_append xs ys

pub read_u16-some :
    (i : ℕ) (buf : List ℕ) → i + 1 < length buf → (w : ℕ) × (read_u16 i buf ≡ some w)
read_u16-some i buf h =
    let (a, ea) = get_elem?-some buf i (omega arith) in
    let (b, eb) = get_elem?-some buf (i + 1) h in (of_be2 a b, rw (ea, eb))

pub read_u32-some :
    (i : ℕ) (buf : List ℕ) → i + 3 < length buf → (w : ℕ) × (read_u32 i buf ≡ some w)
read_u32-some i buf h =
    let (a, ea) = get_elem?-some buf i (omega arith) in
    let (b, eb) = get_elem?-some buf (i + 1) (omega arith) in
    let (c, ec) = get_elem?-some buf (i + 2) (omega arith) in
    let (d, ed) = get_elem?-some buf (i + 3) h in (of_be4 a b c d, rw (ea, eb, ec, ed))

pub adjust-drop : (n : ℕ) (buf : List ℕ) → n ≤ length buf → adjust n buf ≡ some (drop n buf)
adjust-drop zero buf h = refl
adjust-drop (suc n) [] h = absurd (omega arith)
adjust-drop (suc n) (x ∷ buf) h = adjust-drop n buf (omega arith)

pub adjust-some :
    (n : ℕ) (buf buf' : List ℕ) → adjust n buf ≡ some buf' → (n ≤ length buf) × (drop n buf ≡ buf')
adjust-some zero buf buf' e = (omega arith, cc)
adjust-some (suc n) [] buf' e = cc
adjust-some (suc n) (x ∷ buf) buf' e = let (h, q) = adjust-some n buf buf' e in (omega arith, q)
