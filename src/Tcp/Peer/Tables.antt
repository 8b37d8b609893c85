-- ===== src/Tcp/Peer/Tables.antt =====
-- The tables of a peer and how they depend on each other: the descriptor of an established socket is
-- the one under its pair of addresses, and the pair has a connection.
pub mod Sockets
pub mod Traffic
pub mod Moves
pub mod Runs
use capybara_artifact.Base.{
  ◌≡◌, ◌≢◌, Bool-cases, refl, sym, ap, ◌∙◌, inl, inr, Option, some, none, Gives, Holds,
}
use capybara_artifact.Net.{SocketAddrV4}
use capybara_artifact.Net.Map.{
  number_key, pair_key, lookup, insert, remove, insert-cases, remove-cases, lookup-insert,
  lookup-insert_ne, lookup-remove_ne,
}
use capybara_artifact.Mig.Active.{QDesc}
use capybara_artifact.Tcp.Connection.Defs.{Timing, Connection}
use capybara_artifact.Tcp.Peer.{
  Socket, inactive, listening, connecting, established, migrated_out, PeerFail, Pair, Inner,
  put_socket,
}

abbrev pub Present : {A : Type 0} → Option A → Type 0
Present {A} o = (a : A) × (o ≡ some a)

pub record IsConsistent {t : Timing} (i : Inner t) : Type 0 where
  pub known :
      (qd : QDesc) (local remote : SocketAddrV4)
      → lookup qd i.sockets ≡ some (established local remote)
      → lookup (local, remote) i.qds ≡ some qd
  pub held :
      (qd : QDesc) (local remote : SocketAddrV4)
      → lookup qd i.sockets ≡ some (established local remote)
      → Present (lookup (local, remote) i.established)

-- A socket that is not established.
abbrev pub NotEstablished : Socket → Type 0
NotEstablished s = (local remote : SocketAddrV4) → s ≢ established local remote

same_pair :
    (a b c d : SocketAddrV4) → established a b ≡ established c d → ◌≡◌ {A = Pair} (a, b) (c, d)
same_pair a b c d e = cc

same_qd : (a b : QDesc) → some a ≡ some b → a ≡ b
same_qd a b e = cc

module _ {t : Timing} where
  pub insert-Present :
      (k l : Pair) (c : Connection t) (i : Inner t)
      → Present (lookup l i.established)
      → Present (lookup l (insert k c i.established))
  insert-Present k l c i (d, e) = elim (Bool-cases (pair_key.same k l)) [
    | inl s ↦ (
      c,
      ap (λ j. lookup j (insert k c i.established)) (sym ((pair_key.same_iff k l).0 s))
          ∙ lookup-insert k c i.established,
    )
    | inr s ↦ (
      d,
      lookup-insert_ne k l c i.established
            (λ (q : k ≡ l). (let z = (pair_key.same_iff k l).1 q in cc))
          ∙ e,
    )
  ]

  -- A socket that is not established, in place of any other.
  pub put_socket-IsConsistent :
      (qd : QDesc) (s : Socket) (i : Inner t)
      → NotEstablished s
      → IsConsistent i
      → IsConsistent (put_socket qd s i)
  put_socket-IsConsistent qd s i n h = record {
    known = λ qd' local remote e.
        elim (insert-cases qd qd' s (established local remote) i.sockets e) [
          | inl (q, z) ↦ absurd (n local remote z)
          | inr (q, z) ↦ h.known qd' local remote z
        ];
    held = λ qd' local remote e.
        elim (insert-cases qd qd' s (established local remote) i.sockets e) [
          | inl (q, z) ↦ absurd (n local remote z)
          | inr (q, z) ↦ h.held qd' local remote z
        ];
  }

  pub remove_socket-IsConsistent :
      (qd : QDesc) (i : Inner t)
      → IsConsistent i
      → IsConsistent (record i { sockets = remove qd i.sockets })
  remove_socket-IsConsistent qd i h = record {
    known = λ qd' local remote e.
        h.known qd' local remote ((remove-cases qd qd' (established local remote) i.sockets e).1);
    held = λ qd' local remote e.
        h.held qd' local remote ((remove-cases qd qd' (established local remote) i.sockets e).1);
  }

  -- A new established socket under a free pair.
  pub add-IsConsistent :
      (qd : QDesc) (local remote : SocketAddrV4) (c : Connection t) (i : Inner t)
      → lookup (local, remote) i.qds ≡ none
      → IsConsistent i
      → IsConsistent (record i {
        sockets = insert qd (established local remote) i.sockets;
        qds = insert (local, remote) qd i.qds;
        established = insert (local, remote) c i.established;
      })
  add-IsConsistent qd local remote c i free h = record {
    known = λ qd' l r e.
        elim (insert-cases qd qd' (established local remote) (established l r) i.sockets e) [
          | inl (q, z) ↦
              ap (λ k. lookup k (insert (local, remote) qd i.qds))
                (sym (same_pair local remote l r z))
              ∙ (lookup-insert (local, remote) qd i.qds ∙ ap some q)
          | inr (q, z) ↦
              let other : ◌≢◌ {A = Pair} (local, remote) (l, r) =
                λ (p : ◌≡◌ {A = Pair} (local, remote) (l, r)).
                  (let w : none ≡ some qd' =
                      sym free ∙ (ap (λ k. lookup k i.qds) p ∙ h.known qd' l r z) in
                    cc) in
              lookup-insert_ne (local, remote) (l, r) qd i.qds other ∙ h.known qd' l r z
        ];
    held = λ qd' l r e.
        elim (insert-cases qd qd' (established local remote) (established l r) i.sockets e) [
          | inl (q, z) ↦ (
            c,
            ap (λ k. lookup k (insert (local, remote) c i.established))
                  (sym (same_pair local remote l r z))
                ∙ lookup-insert (local, remote) c i.established,
          )
          | inr (q, z) ↦ insert-Present (local, remote) (l, r) c i (h.held qd' l r z)
        ];
  }

  -- Two established sockets have different pairs.
  pair-ne :
      (qd qd' : QDesc) (a b c d : SocketAddrV4) (i : Inner t)
      → IsConsistent i
      → qd ≢ qd'
      → lookup qd i.sockets ≡ some (established a b)
      → lookup qd' i.sockets ≡ some (established c d)
      → ◌≢◌ {A = Pair} (a, b) (c, d)
  pair-ne qd qd' a b c d i h n e e' = λ (p : ◌≡◌ {A = Pair} (a, b) (c, d)).
      n (
        same_qd qd qd' (sym (h.known qd a b e) ∙ (ap (λ k. lookup k i.qds) p ∙ h.known qd' c d e')))

  -- An established socket is gone with its entries.
  pub drop-IsConsistent :
      (qd : QDesc) (local remote : SocketAddrV4) (i : Inner t)
      → lookup qd i.sockets ≡ some (established local remote)
      → IsConsistent i
      → IsConsistent (record (put_socket qd (migrated_out local remote) i) {
        qds = remove (local, remote) i.qds;
        established = remove (local, remote) i.established;
      })
  drop-IsConsistent qd local remote i e h = record {
    known = λ qd' l r e'.
        elim (insert-cases qd qd' (migrated_out local remote) (established l r) i.sockets e') [
          | inl (q, z) ↦ cc
          | inr (q, z) ↦
              lookup-remove_ne (local, remote) (l, r) i.qds
                (pair-ne qd qd' local remote l r i h q e z)
              ∙ h.known qd' l r z
        ];
    held = λ qd' l r e'.
        elim (insert-cases qd qd' (migrated_out local remote) (established l r) i.sockets e') [
          | inl (q, z) ↦ cc
          | inr (q, z) ↦
              let (c, w) = h.held qd' l r z in
              (
                c,
                lookup-remove_ne (local, remote) (l, r) i.established
                      (pair-ne qd qd' local remote l r i h q e z)
                    ∙ w,
              )
        ];
  }
