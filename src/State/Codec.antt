-- ===== src/State/Codec.antt =====
-- The contract between a `Serialize` and a `Deserialize` implementation: one byte string that the
-- first writes and the second reads, and what arrives of the value.
pub mod Basic
pub mod Containers
use capybara_artifact.Base.{◌≡◌, ap, List, ◌++◌, ◌>>=◌, some, ℕ}
use mathlib.Core.Path.{fun_ext}
use capybara_artifact.State.{Buffer}
use capybara_artifact.State.Writer.{Out, Writer, ◌then◌, put, put-append}
use capybara_artifact.State.Deserialize.{Reader}

pub record Codec {A : Type 0} (serialize_into : A → Writer) (deserialize_from : Reader A)
    : Type 1 where
  pub encode : A → List ℕ
  pub received : A → A
  pub IsValid : A → Type 0
  pub writes : (a : A) → IsValid a → (o : Out) → serialize_into a o ≡ put (encode a) o
  pub reads :
      (a : A)
      → IsValid a
      → (rest : Buffer) → deserialize_from (encode a ++ rest) ≡ some (received a, rest)

-- Two writers in a row write the two byte strings in a row.
pub then-put :
    (v w : Writer) (xs ys : List ℕ)
    → ((o : Out) → v o ≡ put xs o)
    → ((o : Out) → w o ≡ put ys o)
    → (o : Out) → (v then w) o ≡ put (xs ++ ys) o
then-put v w xs ys hv hw o =
    rw (hv o, put-append xs ys o) (ap (λ (k : Writer). put xs o >>= k) (fun_ext hw))
