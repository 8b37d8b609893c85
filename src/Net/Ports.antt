-- ===== src/Net/Ports.antt =====
-- inetstack/protocols/ip/ephemeral.rs: the ports that are given to sockets which do not ask for one.
use capybara_artifact.Base.{
  ℕ, zero, suc, ◌+◌, ◌%◌, ◌^◌, ◌==◌, Bool, false, ◌||◌, leb, if◌then◌else◌, Option, some, none,
  List, [], ◌∷◌, ◌++◌,
}

abbrev pub first_private_port : ℕ
first_private_port = 49152

abbrev pub last_private_port : ℕ
last_private_port = 65535

-- The vector from its end, where ports are taken and put back.
pub record EphemeralPorts : Type 0 where
  pub ports : List ℕ

-- The ports of a range without its upper end.
unfoldable pub port_range : ℕ → ℕ → List ℕ
port_range first zero = []
port_range first (suc n) = first ∷ port_range (first + 1) n

-- The sum of u16 wraps in a release build.
abbrev core_port : Option ℕ → List ℕ
core_port none = []
core_port (some id) = (9999 + id) % 2 ^ 16 ∷ []

-- `shuffle` is the rand crate's, `core` the environment variable CORE_ID. The range has 16383 ports.
unfoldable pub new : (List ℕ → List ℕ) → Option ℕ → EphemeralPorts
unfolding port_range
new shuffle core = record {
  ports = core_port core ++ shuffle (port_range first_private_port 16383);
}

unfoldable pub is_private : ℕ → Bool
is_private port = leb first_private_port port

alloc_from : List ℕ → Option (ℕ × EphemeralPorts)
alloc_from [] = none
alloc_from (port ∷ ports) = some (port, record { ports = ports })

-- `none` is the error that all ports are in use.
unfoldable pub alloc_any : EphemeralPorts → Option (ℕ × EphemeralPorts)
unfolding alloc_from
alloc_any p = alloc_from p.ports

unfoldable pub contains : ℕ → List ℕ → Bool
contains port [] = false
contains port (p ∷ ports) = p == port || contains port ports

-- `retain` of the others
unfoldable pub without : ℕ → List ℕ → List ℕ
without port [] = []
without port (p ∷ ports) = let rest = without port ports in if p == port then rest else p ∷ rest

-- `none` is the error that the port is not in the pool.
unfoldable pub alloc_port : ℕ → EphemeralPorts → Option EphemeralPorts
unfolding contains without
alloc_port port p =
    if contains port p.ports then some (record { ports = without port p.ports }) else none

abbrev pub free : ℕ → EphemeralPorts → EphemeralPorts
free port p = record { ports = port ∷ p.ports }
