-- ===== src/Tcp/Header/Fuel.antt =====
-- The fuel of the loop over the options is enough: each pass takes at least one byte.
use capybara_artifact.Base.{
  ℕ, zero, suc, ◌-◌, ◌/◌, ◌≤◌, ◌==◌, ◌||◌, ◌≡◌, ◌≢◌, refl, sym, subst, if_both, ltb, Bool-cases,
  inl, inr, Option, some, none, List, [], ◌∷◌, ◌++◌, >>=-some, Result, ok, err, length, arith,
}
use capybara_artifact.Seq.{SeqNumber}
use capybara_artifact.Tcp.Header.{
  TcpOptions2, TcpFail, bad_mss, bad_window_scale, bad_sack_permitted, bad_sack, bad_timestamp,
  bad_option, too_many_options, unexpected_end, unfinished,
}
use capybara_artifact.Tcp.Header.Parse.{
  read_sacks, parse_option, parse_options, mss_option, window_scale_option, sack_permitted_option,
  sack_option, timestamp_option, sacks_or_end, store_option, and_then,
}

-- The errors of an option. The others are of the header, or `unfinished`.
abbrev pub IsOptionFail : TcpFail → Type 0
IsOptionFail bad_mss = Unit
IsOptionFail bad_window_scale = Unit
IsOptionFail bad_sack_permitted = Unit
IsOptionFail bad_sack = Unit
IsOptionFail bad_timestamp = Unit
IsOptionFail bad_option = Unit
IsOptionFail too_many_options = Unit
IsOptionFail unexpected_end = Unit
IsOptionFail _ = ⊥

abbrev pub Finishes : {A : Type 0} → Result TcpFail A → Type 0
Finishes (ok x) = Unit
Finishes (err e) = IsOptionFail e

abbrev Shorter : List ℕ → Result TcpFail (TcpOptions2 × List ℕ) → Type 0
Shorter bytes (err e) = IsOptionFail e
Shorter bytes (ok (o, rest)) = length rest ≤ length bytes

read_sacks-length :
    (n : ℕ) (bytes rest : List ℕ) (s : List (SeqNumber × SeqNumber))
    → read_sacks n bytes ≡ some (s, rest)
    → length rest ≤ length bytes
unfolding read_sacks
read_sacks-length zero bytes rest s e = let q : bytes ≡ rest = cc in rw q (omega arith)
read_sacks-length (suc n) (a ∷ b ∷ c ∷ d ∷ a' ∷ b' ∷ c' ∷ d' ∷ bytes) rest s e =
    let ((s', r), q, k) = >>=-some (read_sacks n bytes) _ _ e in
    let z : r ≡ rest = cc in let l = read_sacks-length n bytes r s' q in rw (sym z) (omega arith)
read_sacks-length (suc n) _ rest s e = cc

sack-Shorter :
    (bytes : List ℕ) (o : Option (List (SeqNumber × SeqNumber) × List ℕ))
    → ((s : List (SeqNumber × SeqNumber)) (r : List ℕ) → o ≡ some (s, r) → length r ≤ length bytes)
    → Shorter bytes (sacks_or_end o)
sack-Shorter bytes none h = tt
sack-Shorter bytes (some (s, r)) h = h s r refl

mss-Shorter : (bytes : List ℕ) → Shorter bytes (mss_option bytes)
unfolding mss_option
mss-Shorter [] = tt
mss-Shorter (len ∷ []) = elim (Bool-cases (len == 4)) [ inl e ↦ rw e tt | inr e ↦ rw e tt ]
mss-Shorter (len ∷ a ∷ []) = elim (Bool-cases (len == 4)) [ inl e ↦ rw e tt | inr e ↦ rw e tt ]
mss-Shorter (len ∷ a ∷ b ∷ rest) = elim (Bool-cases (len == 4)) [
  | inl e ↦ rw e (omega arith)
  | inr e ↦ rw e tt
]

window_scale-Shorter : (bytes : List ℕ) → Shorter bytes (window_scale_option bytes)
unfolding window_scale_option
window_scale-Shorter [] = tt
window_scale-Shorter (len ∷ []) = elim (Bool-cases (len == 3)) [ inl e ↦ rw e tt | inr e ↦ rw e tt ]
window_scale-Shorter (len ∷ a ∷ rest) = elim (Bool-cases (len == 3)) [
  | inl e ↦ rw e (omega arith)
  | inr e ↦ rw e tt
]

sack_permitted-Shorter : (bytes : List ℕ) → Shorter bytes (sack_permitted_option bytes)
unfolding sack_permitted_option
sack_permitted-Shorter [] = tt
sack_permitted-Shorter (len ∷ rest) = elim (Bool-cases (len == 2)) [
  | inl e ↦ rw e (omega arith)
  | inr e ↦ rw e tt
]

sack_option-Shorter : (bytes : List ℕ) → Shorter bytes (sack_option bytes)
unfolding sack_option
sack_option-Shorter [] = tt
sack_option-Shorter (len ∷ rest) =
    elim (Bool-cases (len == 10 || len == 18 || len == 26 || len == 34)) [
      | inl e ↦ rw e (
          sack-Shorter (len ∷ rest) (read_sacks ((len - 2) / 8) rest)
            λ s r q. let l = read_sacks-length ((len - 2) / 8) rest r s q in omega arith)
      | inr e ↦ rw e tt
    ]

timestamp-Shorter : (bytes : List ℕ) → Shorter bytes (timestamp_option bytes)
unfolding timestamp_option
timestamp-Shorter [] = tt
timestamp-Shorter (len ∷ a ∷ b ∷ c ∷ d ∷ a' ∷ b' ∷ c' ∷ d' ∷ rest) = elim (Bool-cases (len == 10)) [
  | inl e ↦ rw e (omega arith)
  | inr e ↦ rw e tt
]
timestamp-Shorter (len ∷ _) = elim (Bool-cases (len == 10)) [ inl e ↦ rw e tt | inr e ↦ rw e tt ]

parse_option-Shorter : (kind : ℕ) (bytes : List ℕ) → Shorter bytes (parse_option kind bytes)
unfolding parse_option
parse_option-Shorter kind bytes = elim (Bool-cases (kind == 2)) [
  | inl e ↦ rw e (mss-Shorter bytes)
  | inr e2 ↦ elim (Bool-cases (kind == 3)) [
    | inl e ↦ rw (e2, e) (window_scale-Shorter bytes)
    | inr e3 ↦ elim (Bool-cases (kind == 4)) [
      | inl e ↦ rw (e2, e3, e) (sack_permitted-Shorter bytes)
      | inr e4 ↦ elim (Bool-cases (kind == 5)) [
        | inl e ↦ rw (e2, e3, e4, e) (sack_option-Shorter bytes)
        | inr e5 ↦ elim (Bool-cases (kind == 8)) [
          | inl e ↦ rw (e2, e3, e4, e5, e) (timestamp-Shorter bytes)
          | inr e8 ↦ rw (e2, e3, e4, e5, e8) tt
        ]
      ]
    ]
  ]
]

-- What the loop ends in, with fuel for every byte: the options, or an error of one of them.
pub parse_options-Finishes :
    (n : ℕ) (os : List TcpOptions2) (bytes : List ℕ)
    → length bytes ≤ n
    → Finishes (parse_options n os bytes)
unfolding parse_options
parse_options-Finishes zero os [] h = tt
parse_options-Finishes zero os (k ∷ bytes) h = absurd (omega arith)
parse_options-Finishes (suc n) os [] h = tt
parse_options-Finishes (suc n) os (k ∷ bytes) h = if_both Finishes (k == 0) _ _ tt (
    if_both Finishes (k == 1) _ _ (parse_options-Finishes n os bytes (omega arith))
      (chain os (parse_option k bytes) (parse_option-Shorter k bytes) (parse_options-Finishes n)))
  where
    chain :
        (os : List TcpOptions2) (p : Result TcpFail (TcpOptions2 × List ℕ))
        → Shorter bytes p
        → ((os : List TcpOptions2) (bytes : List ℕ)
            → length bytes ≤ n
            → Finishes (parse_options n os bytes))
        → Finishes (and_then (store_option os p) (λ (os', rest). parse_options n os' rest))
    chain os (err e) w rec = w
    chain os (ok (o, rest)) w rec = elim (Bool-cases (ltb (length os) 5)) [
      | inl e ↦ rw e (rec (os ++ (o ∷ [])) rest (omega arith))
      | inr e ↦ rw e tt
    ]

same_fuel :
    (n m : ℕ) (os : List TcpOptions2) (bytes : List ℕ)
    → length bytes ≤ n
    → length bytes ≤ m
    → parse_options n os bytes ≡ parse_options m os bytes
unfolding parse_options
same_fuel zero zero os [] h g = refl
same_fuel zero zero os (k ∷ bytes) h g = refl
same_fuel zero (suc m) os [] h g = refl
same_fuel zero (suc m) os (k ∷ bytes) h g = absurd (omega arith)
same_fuel (suc n) zero os [] h g = refl
same_fuel (suc n) zero os (k ∷ bytes) h g = absurd (omega arith)
same_fuel (suc n) (suc m) os [] h g = refl
same_fuel (suc n) (suc m) os (k ∷ bytes) h g =
    let s = same_fuel n m os bytes (omega arith) (omega arith) in
    let t = chain os (parse_option k bytes) (parse_option-Shorter k bytes) (same_fuel n m) in
    rw (s, t)
  where
    chain :
        (os : List TcpOptions2) (p : Result TcpFail (TcpOptions2 × List ℕ))
        → Shorter bytes p
        → ((os : List TcpOptions2) (bytes : List ℕ)
            → length bytes ≤ n
            → length bytes ≤ m
            → parse_options n os bytes ≡ parse_options m os bytes)
        → and_then (store_option os p) (λ (os', rest). parse_options n os' rest)
          ≡ and_then (store_option os p) (λ (os', rest). parse_options m os' rest)
    chain os (err e) w rec = refl
    chain os (ok (o, rest)) w rec = elim (Bool-cases (ltb (length os) 5)) [
      | inl e ↦ rw e (rec (os ++ (o ∷ [])) rest (omega arith) (omega arith))
      | inr e ↦ rw e
    ]

-- With fuel for every byte the loop over the options ends by itself: it does not run out of fuel, and
-- any other fuel that has as much gives the same.
pub parse_options-fuel :
    (n m : ℕ) (os : List TcpOptions2) (bytes : List ℕ)
    → length bytes ≤ n
    → length bytes ≤ m
    → (parse_options n os bytes ≢ err unfinished)
      × (parse_options n os bytes ≡ parse_options m os bytes)
parse_options-fuel n m os bytes h g =
    (λ e. subst Finishes e (parse_options-Finishes n os bytes h), same_fuel n m os bytes h g)
