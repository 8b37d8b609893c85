-- ===== src/Net/Map.antt =====
-- The standard library's HashMap, as a list without an order that anything reads, and the keys that
-- the tables have: socket addresses, pairs of them, and queue descriptors.
use capybara_artifact.Base.{
  ℕ, ◌==◌, ==_iff, ◌≡◌, ◌≢◌, refl, sym, ap, ◌∙◌, ◌⊎◌, ◌↔◌, true, false, Bool, ◌&&◌, if◌then◌else◌,
  Bool-cases, inl, inr, Option, some, none, List, [], ◌∷◌, arith,
}
use capybara_artifact.Net.{SocketAddrV4, addr_eq, addr_eq_iff}

pub record Key (K : Type 0) : Type 0 where
  pub same : K → K → Bool
  pub same_iff : (j k : K) → (same j k ≡ true) ↔ (j ≡ k)

instance abbrev pub addr_key : Key SocketAddrV4
addr_key = record { same = addr_eq; same_iff = addr_eq_iff }

instance abbrev pub number_key : Key ℕ
number_key = record { same = ◌==◌; same_iff = ==_iff }

abbrev pair_eq : SocketAddrV4 × SocketAddrV4 → SocketAddrV4 × SocketAddrV4 → Bool
pair_eq (a, b) (c, d) = addr_eq a c && addr_eq b d

pub pair_eq_iff : (p q : SocketAddrV4 × SocketAddrV4) → (pair_eq p q ≡ true) ↔ (p ≡ q)
pair_eq_iff (a, b) (c, d) = ground arith

instance abbrev pub pair_key : Key (SocketAddrV4 × SocketAddrV4)
pair_key = record { same = pair_eq; same_iff = pair_eq_iff }

abbrev pub HashMap : Type 0 → Type 0 → Type 0
HashMap K V = List (K × V)

module _ {K : Type 0} ⦃key : Key K⦄ where
  same_refl : (k : K) → key.same k k ≡ true
  same_refl k = (key.same_iff k k).1 refl

  same-ne : (j k : K) → j ≢ k → key.same j k ≡ false
  same-ne j k h = elim (Bool-cases (key.same j k)) [
    | inl e ↦ absurd (h ((key.same_iff j k).0 e))
    | inr e ↦ e
  ]

module _ {K : Type 0} {V : Type 0} ⦃key : Key K⦄ where
  unfoldable pub lookup : K → HashMap K V → Option V
  lookup k [] = none
  lookup k ((j, v) ∷ m) = if key.same j k then some v else lookup k m

  unfoldable pub remove : K → HashMap K V → HashMap K V
  remove k [] = []
  remove k ((j, v) ∷ m) = let rest = remove k m in if key.same j k then rest else (j, v) ∷ rest

  unfoldable pub insert : K → V → HashMap K V → HashMap K V
  unfolding remove
  insert k v m = (k, v) ∷ remove k m

  pub lookup-remove : (k : K) (m : HashMap K V) → lookup k (remove k m) ≡ none
  unfolding lookup remove
  lookup-remove k [] = refl
  lookup-remove k ((j, v) ∷ m) = elim (Bool-cases (key.same j k)) [
    | inl e ↦ rw e (lookup-remove k m)
    | inr e ↦ rw (e, lookup, e) (lookup-remove k m)
  ]

  pub lookup-remove_ne : (k l : K) (m : HashMap K V) → k ≢ l → lookup l (remove k m) ≡ lookup l m
  unfolding lookup remove
  lookup-remove_ne k l [] h = refl
  lookup-remove_ne k l ((j, v) ∷ m) h = elim (Bool-cases (key.same j k)) [
    | inl e ↦
        let q : j ≡ k = (key.same_iff j k).0 e in
        let n : key.same j l ≡ false = same-ne j l (λ (z : j ≡ l). h (cc)) in
        rw (e, n) (lookup-remove_ne k l m h)
    | inr e ↦
        rw (e, lookup) (ap (λ o. if key.same j l then some v else o) (lookup-remove_ne k l m h))
  ]

  pub lookup-insert : (k : K) (v : V) (m : HashMap K V) → lookup k (insert k v m) ≡ some v
  unfolding lookup insert
  lookup-insert k v m = rw (same_refl k)

  pub lookup-insert_ne :
      (k l : K) (v : V) (m : HashMap K V) → k ≢ l → lookup l (insert k v m) ≡ lookup l m
  unfolding lookup insert
  lookup-insert_ne k l v m h = rw (same-ne k l h) (lookup-remove_ne k l m h)

  -- What an entry after an insertion is.
  pub insert-cases :
      (k l : K) (v x : V) (m : HashMap K V)
      → lookup l (insert k v m) ≡ some x
      → ((k ≡ l) × (v ≡ x)) ⊎ ((k ≢ l) × (lookup l m ≡ some x))
  insert-cases k l v x m e = elim (Bool-cases (key.same k l)) [
    | inl s ↦
        let q : k ≡ l = (key.same_iff k l).0 s in
        let z : some v ≡ some x =
          sym (lookup-insert k v m) ∙ (ap (λ j. lookup j (insert k v m)) q ∙ e) in
        inl (q, cc)
    | inr s ↦
        let n : k ≢ l =
          λ (q : k ≡ l). (let z : key.same k l ≡ true = (key.same_iff k l).1 q in cc) in
        inr (n, sym (lookup-insert_ne k l v m n) ∙ e)
  ]

  -- An entry after a removal was there, under another key.
  pub remove-cases :
      (k l : K) (x : V) (m : HashMap K V)
      → lookup l (remove k m) ≡ some x
      → (k ≢ l) × (lookup l m ≡ some x)
  remove-cases k l x m e = elim (Bool-cases (key.same k l)) [
    | inl s ↦
        let q : k ≡ l = (key.same_iff k l).0 s in
        let z : none ≡ some x = sym (lookup-remove k m) ∙ (ap (λ j. lookup j (remove k m)) q ∙ e) in
        cc
    | inr s ↦
        let n : k ≢ l =
          λ (q : k ≡ l). (let z : key.same k l ≡ true = (key.same_iff k l).1 q in cc) in
        (n, sym (lookup-remove_ne k l m n) ∙ e)
  ]
