-- ===== src/Mig/Segment/Store.antt =====
-- Storing one fragment, and copying all of them into one buffer.
use capybara_artifact.Base.{
  ℕ, zero, suc, ◌+◌, ◌-◌, ◌≤◌, ◌<◌, ◌==◌, ◌≡◌, ◌≢◌, refl, ap, false, some, List, [], ◌∷◌, ◌++◌,
  length, length-append, length-set, length-replicate, get_elem?, set, replicate, adjust, arith,
}
use mathlib.Core.List.{flatten}
use capybara_artifact.State.{Buffer}
use capybara_artifact.State.Writer.{Out, put, put-nil}
use capybara_artifact.State.Codec.{then-put}
use capybara_artifact.Mig.Segment.{copy_all, assemble}

copy_all-put : (fs : List Buffer) (o : Out) → copy_all fs o ≡ put (flatten fs) o
unfolding flatten
copy_all-put [] o = rw (put-nil o)
copy_all-put (f ∷ fs) o =
    then-put (put f) (copy_all fs) f (flatten fs) (λ o. refl) (copy_all-put fs) o

adjust-replicate : (n k : ℕ) (a : ℕ) → adjust n (replicate (n + k) a) ≡ some (replicate k a)
adjust-replicate zero k a = ap (λ m. some (replicate m a)) (omega arith)
adjust-replicate (suc n) k a =
    let e : suc n + k ≡ suc (n + k) = omega arith in rw e (adjust-replicate n k a)

-- Where the fragments fit, the buffer holds them in order, and zeros after them.
pub assemble_fits :
    (fs : List Buffer) (k : ℕ)
    → 0 < length (flatten fs)
    → assemble (length (flatten fs) + k) fs ≡ some (flatten fs ++ replicate k 0)
unfolding assemble put
assemble_fits fs k h =
    let e : (length (flatten fs) + k == 0) ≡ false = ground arith in
    rw (e, assemble, copy_all-put fs, put, adjust-replicate (length (flatten fs)) k 0)

module _ {ℓ} {A : Type ℓ} where
  pub get_elem?-append_left :
      (xs ys : List A) (i : ℕ) (x : A) → get_elem? xs i ≡ some x → get_elem? (xs ++ ys) i ≡ some x
  get_elem?-append_left [] ys i x h = cc
  get_elem?-append_left (y ∷ xs) ys zero x h = h
  get_elem?-append_left (y ∷ xs) ys (suc i) x h = get_elem?-append_left xs ys i x h

  pub get_elem?-set_self :
      (xs : List A) (i : ℕ) (v : A) → i < length xs → get_elem? (set xs i v) i ≡ some v
  get_elem?-set_self [] i v h = absurd (omega arith)
  get_elem?-set_self (x ∷ xs) zero v h = refl
  get_elem?-set_self (x ∷ xs) (suc i) v h = get_elem?-set_self xs i v (omega arith)

  pub get_elem?-set_ne :
      (xs : List A) (i j : ℕ) (v : A) → i ≢ j → get_elem? (set xs i v) j ≡ get_elem? xs j
  get_elem?-set_ne [] i j v h = refl
  get_elem?-set_ne (x ∷ xs) zero zero v h = absurd (h refl)
  get_elem?-set_ne (x ∷ xs) zero (suc j) v h = refl
  get_elem?-set_ne (x ∷ xs) (suc i) zero v h = refl
  get_elem?-set_ne (x ∷ xs) (suc i) (suc j) v h = get_elem?-set_ne xs i j v (λ e. h (ap suc e))

  pub get_elem?-lt : (xs : List A) (i : ℕ) (x : A) → get_elem? xs i ≡ some x → i < length xs
  get_elem?-lt [] i x h = cc
  get_elem?-lt (y ∷ xs) zero x h = omega arith
  get_elem?-lt (y ∷ xs) (suc i) x h = omega (arith, get_elem?-lt xs i x h)

  -- A vector no longer than another, which holds all its entries, is that one.
  pub eq_of_get_elem? :
      (xs ys : List A)
      → length xs ≤ length ys
      → ((i : ℕ) (y : A) → get_elem? ys i ≡ some y → get_elem? xs i ≡ some y)
      → xs ≡ ys
  eq_of_get_elem? [] [] h all = refl
  eq_of_get_elem? [] (y ∷ ys) h all = cc (all 0 y refl)
  eq_of_get_elem? (x ∷ xs) [] h all = absurd (omega arith)
  eq_of_get_elem? (x ∷ xs) (y ∷ ys) h all =
      let e = all 0 y refl in
      let r = eq_of_get_elem? xs ys (omega arith) (λ i z. all (suc i) z) in cc

  abbrev pub grow : List A → ℕ → A → List A
  grow xs i a = xs ++ replicate (i + 1 - length xs) a

  pub lt-length-grow : (xs : List A) (i : ℕ) (a : A) → i < length (grow xs i a)
  lt-length-grow xs i a = omega (
    arith,
    length-append xs (replicate (i + 1 - length xs) a),
    length-replicate (i + 1 - length xs) a,
  )

  pub length-set-grow_le :
      (xs : List A) (i n : ℕ) (a v : A) → i < n → length xs ≤ n → length (set (grow xs i a) i v) ≤ n
  length-set-grow_le xs i n a v hi hl = omega (
    arith,
    length-set (grow xs i a) i v,
    length-append xs (replicate (i + 1 - length xs) a),
    length-replicate (i + 1 - length xs) a,
  )
