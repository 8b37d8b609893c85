-- ===== src/State/Codec/Containers.antt =====
-- The codecs of `VecDeque<T>` and `Option<T>`, from a codec of `T`.
use capybara_artifact.Base.{
  ℕ, ◌+◌, ◌≡◌, refl, length-append, arith, Option, some, none, List, [], ◌∷◌, ◌++◌, map,
  append_assoc, IsU32, length, to_be4, of_be4-to_be4, All,
}
use mathlib.Core.Option
use mathlib.Core.List.{foldl}
use capybara_artifact.State.{Buffer}
use capybara_artifact.State.Writer.{Out, Writer, put, put-nil}
use capybara_artifact.State.Serialize.{put_len, serialize_elems, serialize_deque, serialize_option}
use capybara_artifact.State.Deserialize.{
  Reader, deserialize_elems, deserialize_deque, deserialize_option,
}
use capybara_artifact.State.Codec.{Codec, then-put}
use capybara_artifact.State.Codec.Basic.{put_len-put}

module _ {A : Type 0} {ser : A → Writer} {de : Reader A} (c : Codec ser de) where
  pub encode_elems : List A → List ℕ
  encode_elems [] = []
  encode_elems (x ∷ xs) = c.encode x ++ encode_elems xs

  pub serialize_elems-put :
      (xs : List A)
      → All c.IsValid xs
      → (o : Out) → serialize_elems ser xs o ≡ put (encode_elems xs) o
  unfolding serialize_elems encode_elems
  serialize_elems-put [] h o = rw (put-nil o)
  serialize_elems-put (x ∷ xs) h o =
      then-put (ser x) (serialize_elems ser xs) (c.encode x) (encode_elems xs) (c.writes x (h.0))
        (serialize_elems-put xs (h.1)) o

  pub deserialize_elems-encode :
      (xs : List A)
      → All c.IsValid xs
      → (rest : Buffer)
      → deserialize_elems de (length xs) (encode_elems xs ++ rest) ≡ some (map c.received xs, rest)
  unfolding deserialize_elems encode_elems
  deserialize_elems-encode [] h rest = refl
  deserialize_elems-encode (x ∷ xs) h rest = rw (
    append_assoc (c.encode x) (encode_elems xs) rest,
    c.reads x (h.0) (encode_elems xs ++ rest),
    deserialize_elems-encode xs (h.1) rest,
  )

  unfoldable pub deque_codec : Codec (serialize_deque ser) (deserialize_deque de)
  unfolding serialize_deque deserialize_deque
  deque_codec = record {
    encode = λ xs. to_be4 (length xs) ++ encode_elems xs;
    received = map c.received;
    IsValid = λ xs. IsU32 (length xs) × All c.IsValid xs;
    writes = λ xs h.
        then-put (put_len (length xs)) (serialize_elems ser xs) (to_be4 (length xs))
          (encode_elems xs) (put_len-put (length xs) (h.0)) (serialize_elems-put xs (h.1));
    reads =
        λ xs h rest. rw (of_be4-to_be4 (length xs) (h.0), deserialize_elems-encode xs (h.1) rest);
  }

  abbrev pub encode_option : Option A → List ℕ
  encode_option none = 0 ∷ []
  encode_option (some x) = 1 ∷ c.encode x

  abbrev pub IsValidOption : Option A → Type 0
  IsValidOption none = Unit {0}
  IsValidOption (some x) = c.IsValid x

  pub serialize_option-put :
      (x : Option A)
      → IsValidOption x
      → (o : Out) → serialize_option ser x o ≡ put (encode_option x) o
  unfolding serialize_option
  serialize_option-put none h o = refl
  serialize_option-put (some x) h o =
      then-put (put (1 ∷ [])) (ser x) (1 ∷ []) (c.encode x) (λ o. refl) (c.writes x h) o

  pub deserialize_option-encode :
      (x : Option A)
      → IsValidOption x
      → (rest : Buffer)
      → deserialize_option de (encode_option x ++ rest) ≡ some (Option.map c.received x, rest)
  unfolding deserialize_option
  deserialize_option-encode none h rest = refl
  deserialize_option-encode (some x) h rest = rw (c.reads x h rest)

  unfoldable pub option_codec : Codec (serialize_option ser) (deserialize_option de)
  option_codec = record {
    encode = encode_option;
    received = Option.map c.received;
    IsValid = IsValidOption;
    writes = serialize_option-put;
    reads = deserialize_option-encode;
  }

  length-encode_elems :
      (size : A → ℕ) (step : ℕ → A → ℕ)
      → ((x : A) → length (c.encode x) ≡ size x)
      → ((k : ℕ) (x : A) → step k x ≡ k + size x)
      → (xs : List A) (k : ℕ) → foldl step k xs ≡ k + length (encode_elems xs)
  unfolding encode_elems
  length-encode_elems size step hs hk [] k = omega arith
  length-encode_elems size step hs hk (x ∷ xs) k = omega (
    arith,
    length-encode_elems size step hs hk xs (step k x),
    hk k x,
    hs x,
    length-append (c.encode x) (encode_elems xs),
  )

  -- A `fold` over the sizes counts the bytes that follow the queue's length.
  pub length-encode_deque :
      (size : A → ℕ) (step : ℕ → A → ℕ)
      → ((x : A) → length (c.encode x) ≡ size x)
      → ((k : ℕ) (x : A) → step k x ≡ k + size x)
      → (xs : List A) → length (deque_codec.encode xs) ≡ 4 + foldl step 0 xs
  unfolding deque_codec
  length-encode_deque size step hs hk xs = omega (arith, length-encode_elems size step hs hk xs 0)
