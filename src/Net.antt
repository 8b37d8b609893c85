-- ===== src/Net.antt =====
-- IPv4 addresses and socket addresses, the standard library's Ipv4Addr and SocketAddrV4.
pub mod Map
pub mod Ports
use capybara_artifact.Base.{ℕ, IsByte, IsU16, ◌≡◌, ◌≢◌, Bool, ◌&&◌, ◌==◌, true, false, ◌↔◌, arith}

-- `octets()`
pub record Ipv4Addr : Type 0 where
  pub o0 : ℕ
  pub o1 : ℕ
  pub o2 : ℕ
  pub o3 : ℕ

pub record SocketAddrV4 : Type 0 where
  pub ip : Ipv4Addr
  pub port : ℕ

pub record IsIpv4Addr (a : Ipv4Addr) : Type 0 where
  pub b0 : IsByte a.o0
  pub b1 : IsByte a.o1
  pub b2 : IsByte a.o2
  pub b3 : IsByte a.o3

pub record IsSocketAddr (s : SocketAddrV4) : Type 0 where
  pub ip : IsIpv4Addr s.ip
  pub port : IsU16 s.port

abbrev pub ip_eq : Ipv4Addr → Ipv4Addr → Bool
ip_eq a b = a.o0 == b.o0 && a.o1 == b.o1 && a.o2 == b.o2 && a.o3 == b.o3

abbrev pub addr_eq : SocketAddrV4 → SocketAddrV4 → Bool
addr_eq s t = ip_eq s.ip t.ip && s.port == t.port

pub addr_eq_iff : (s t : SocketAddrV4) → (addr_eq s t ≡ true) ↔ (s ≡ t)
addr_eq_iff s t = ground arith

pub addr_eq_refl : (s : SocketAddrV4) → addr_eq s s ≡ true
addr_eq_refl s = ground arith

pub addr_eq_sym : (s t : SocketAddrV4) → addr_eq s t ≡ addr_eq t s
addr_eq_sym s t = ground arith

pub ne-addr_eq : (s t : SocketAddrV4) → addr_eq s t ≡ false → s ≢ t
ne-addr_eq s t h = λ (q : s ≡ t). let e : addr_eq s t ≡ true = (addr_eq_iff s t).1 q in cc
