-- ===== src/State/Writer.antt =====
-- Writing into a slice: `serialize_into` copies bytes to the front of its slice and returns the
-- rest, and panics where the slice is too short.
use capybara_artifact.Base.{
  ℕ, ◌≡◌, refl, sym, Option, some, none, List, [], ◌∷◌, ◌++◌, append_assoc, append-nil, ◌>>=◌,
  length, adjust, arith,
}

-- A slice in the middle of a serialization: the bytes written, and the part not yet written.
pub record Out : Type 0 where
  pub done : List ℕ
  pub left : List ℕ

abbrev pub Writer : Type 0
Writer = Out → Option Out

infixl 6 ◌then◌
abbrev pub ◌then◌ : Writer → Writer → Writer
◌then◌ v w o = v o >>= w

-- `buf[..n].copy_from_slice(bytes)`, and on with `&mut buf[n..]`.
unfoldable pub put : List ℕ → Writer
put bytes o = do
  left ← adjust (length bytes) o.left
  some (record { done = o.done ++ bytes; left = left })

adjust-append :
    (xs ys buf : List ℕ)
    → adjust (length (xs ++ ys)) buf ≡ (adjust (length xs) buf >>= adjust (length ys))
adjust-append [] ys buf = refl
adjust-append (x ∷ xs) ys [] = refl
adjust-append (x ∷ xs) ys (b ∷ buf) = adjust-append xs ys buf

-- What `put` makes of the rest of the slice.
abbrev put_done : List ℕ → Option (List ℕ) → Option Out
put_done done m = elim m [ none ↦ none | some l ↦ some (record { done = done; left = l }) ]

put-put_done :
    (xs : List ℕ) (o : Out) → put xs o ≡ put_done (o.done ++ xs) (adjust (length xs) o.left)
unfolding put
put-put_done xs o = go (adjust (length xs) o.left)
  where
    go :
        (m : Option (List ℕ))
        → ◌>>=◌ {B = Out} m (λ l. some (record { done = o.done ++ xs; left = l }))
          ≡ put_done (o.done ++ xs) m
    go none = refl
    go (some l) = refl

put_done-bind :
    (d ys : List ℕ) (m : Option (List ℕ))
    → put_done (d ++ ys) (m >>= adjust (length ys)) ≡ (put_done d m >>= put ys)
put_done-bind d ys none = refl
put_done-bind d ys (some l) = sym (put-put_done ys (record { done = d; left = l }))

-- Two writes are one write of both, panics included.
pub put-append : (xs ys : List ℕ) (o : Out) → put (xs ++ ys) o ≡ (put xs o >>= put ys)
put-append xs ys o =
    rw
      (
        put-put_done (xs ++ ys) o,
        put-put_done xs o,
        adjust-append xs ys o.left,
        ← append_assoc o.done xs ys,
      )
      (put_done-bind (o.done ++ xs) ys (adjust (length xs) o.left))

adjust_all : (xs ys : List ℕ) → length ys ≡ length xs → adjust (length xs) ys ≡ some []
adjust_all [] [] h = refl
adjust_all [] (y ∷ ys) h = absurd (omega arith)
adjust_all (x ∷ xs) [] h = absurd (omega arith)
adjust_all (x ∷ xs) (y ∷ ys) h = adjust_all xs ys (omega arith)

-- A write that just fits fills the slice.
pub put_fits :
    (bytes buf : List ℕ)
    → length buf ≡ length bytes
    → put bytes (record { done = []; left = buf }) ≡ some (record { done = bytes; left = [] })
unfolding put
put_fits bytes buf h = rw (adjust_all bytes buf h)

pub put-nil : (o : Out) → put [] o ≡ some o
unfolding put
put-nil o = rw (append-nil o.done)
