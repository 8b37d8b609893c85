-- ===== src/Mig/Segment/Order.antt =====
-- Fragments in any order: numbered pieces, and what a permutation of them keeps.
use capybara_artifact.Base.{
  ℕ, zero, suc, ◌+◌, ◌-◌, ◌≤◌, ◌≡◌, refl, ap, ap₂, ◌∙◌, Option, some, List, [], ◌∷◌, length,
  length-append, get_elem?, arith,
}
use mathlib.Core.List.{
  Mem, Perm, Permᴰ, Nodup, Nodup-cons, Nodup-nil, mem-cons, not-mem-nil, flatten, mem-cons_of_mem,
}
use mathlib.Core.HLevel.{×_prop}
use native.Mathlib.Bridge.{le_prop}
use mathlib.Core.Logic.{∥∥₁_elim}
use mathlib.Core.Logic.Or
use native.Mathlib.Nat.{ℕ_set}
use capybara_artifact.State.{Buffer}

abbrev pub Piece : Type 0
Piece = ℕ × Buffer

unfoldable pub enumerate : ℕ → List Buffer → List Piece
enumerate k [] = []
enumerate k (c ∷ cs) = (k, c) ∷ enumerate (k + 1) cs

unfoldable pub total_length : List Piece → ℕ
total_length [] = 0
total_length ((i, c) ∷ ps) = length c + total_length ps

total_length-permᴰ : {ps qs : List Piece} → Permᴰ ps qs → total_length ps ≡ total_length qs
unfolding total_length
total_length-permᴰ Permᴰ.nil = refl
total_length-permᴰ (Permᴰ.cons {l₁ = xs} {l₂ = ys} e p) =
    omega (arith, ap (λ (x : Piece). length (x.1)) e, total_length-permᴰ p)
total_length-permᴰ (Permᴰ.swap e f) =
    omega (arith, ap (λ (x : Piece). length (x.1)) e, ap (λ (x : Piece). length (x.1)) f)
total_length-permᴰ (Permᴰ.trans p q) = total_length-permᴰ p ∙ total_length-permᴰ q

length-permᴰ : {ps qs : List Piece} → Permᴰ ps qs → length ps ≡ length qs
length-permᴰ Permᴰ.nil = refl
length-permᴰ (Permᴰ.cons e p) = ap suc (length-permᴰ p)
length-permᴰ (Permᴰ.swap e f) = refl
length-permᴰ (Permᴰ.trans p q) = length-permᴰ p ∙ length-permᴰ q

pub total_length-perm : {ps qs : List Piece} → Perm ps qs → total_length ps ≡ total_length qs
total_length-perm p = ∥∥₁_elim p (ℕ_set _ _) total_length-permᴰ

pub length-perm : {ps qs : List Piece} → Perm ps qs → length ps ≡ length qs
length-perm p = ∥∥₁_elim p (ℕ_set _ _) length-permᴰ

pub total_length-enumerate :
    (k : ℕ) (cs : List Buffer) → total_length (enumerate k cs) ≡ length (flatten cs)
unfolding total_length enumerate flatten
total_length-enumerate k [] = refl
total_length-enumerate k (c ∷ cs) =
    omega (arith, total_length-enumerate (k + 1) cs, length-append c (flatten cs))

pub length-enumerate : (k : ℕ) (cs : List Buffer) → length (enumerate k cs) ≡ length cs
unfolding enumerate
length-enumerate k [] = refl
length-enumerate k (c ∷ cs) = ap suc (length-enumerate (k + 1) cs)

-- `Option Buffer` is a set, so that its equations are propositions.
pub Option_Buffer-set : IsSet (Option Buffer)
Option_Buffer-set = hlevel

IsPiece-prop :
    (k i : ℕ) (c : Buffer) (cs : List Buffer) → IsProp ((k ≤ i) × (get_elem? cs (i - k) ≡ some c))
IsPiece-prop k i c cs = ×_prop le_prop (Option_Buffer-set _ _)

-- The members of the numbered list are the pieces at their places, once each.
pub enumerate-mem :
    (k : ℕ) (cs : List Buffer) (i : ℕ) (c : Buffer)
    → Mem (i, c) (enumerate k cs)
    → (k ≤ i) × (get_elem? cs (i - k) ≡ some c)
unfolding enumerate
enumerate-mem k [] i c m = absurd (not-mem-nil m)
enumerate-mem k (b ∷ cs) i c m =
    Or.elim (IsPiece-prop k i c (b ∷ cs)) (mem-cons.0 m)
      (λ e. here (ap (λ (x : Piece). x.0) e) (ap (λ (x : Piece). x.1) e))
      (λ m'. there (enumerate-mem (k + 1) cs i c m'))
  where
    here : i ≡ k → c ≡ b → (k ≤ i) × (get_elem? (b ∷ cs) (i - k) ≡ some c)
    here e f = let z : i - k ≡ 0 = omega arith in (omega arith, rw (z, f))

    there :
        (k + 1 ≤ i) × (get_elem? cs (i - (k + 1)) ≡ some c)
        → (k ≤ i) × (get_elem? (b ∷ cs) (i - k) ≡ some c)
    there (h, e) = let z : i - k ≡ suc (i - (k + 1)) = omega arith in (omega arith, rw (z, e))

pub mem-enumerate :
    (k : ℕ) (cs : List Buffer) (i : ℕ) (c : Buffer)
    → get_elem? cs i ≡ some c
    → Mem (k + i, c) (enumerate k cs)
unfolding enumerate
mem-enumerate k [] i c e = cc
mem-enumerate k (b ∷ cs) zero c e =
    let f : c ≡ b = cc in mem-cons.1 (Or.inl (ap₂ {C = Piece} (λ j d. (j, d)) (omega arith) f))
mem-enumerate k (b ∷ cs) (suc i) c e =
    let z : k + suc i ≡ k + 1 + i = omega arith in
    mem-cons_of_mem (k, b) (rw z (mem-enumerate (k + 1) cs i c e))

pub enumerate-Nodup : (k : ℕ) (cs : List Buffer) → Nodup (enumerate k cs)
unfolding enumerate
enumerate-Nodup k [] = Nodup-nil
enumerate-Nodup k (c ∷ cs) =
    Nodup-cons.1 (
      (λ m. absurd (omega (arith, (enumerate-mem (k + 1) cs k c m).0))),
      enumerate-Nodup (k + 1) cs,
    )
