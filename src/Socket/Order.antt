-- ===== src/Socket/Order.antt =====
-- isu-net/isu-net/socket.hpp: how addresses are told apart by the maps that are keyed by them, and
-- which addresses count as multicast.
use isu_net.Base.{arith, ltb, true, ℕ, ◌*◌, ◌+◌, ◌<◌, ◌^◌, ◌↔◌, ◌∙◌, ◌≡◌, ◌≤◌}
use isu_net.Socket.{Sockaddr, port, address, sockaddr_key, lt_sockaddr, same_key, is_multicast}
use isu_net.Socket.Words.{to_ulong64_value}

-- `sin_port` is a 16-bit number.
abbrev pub HasPort : Sockaddr → Type 0
HasPort a = a.sin_port < 2 ^ 16

pub sockaddr_key_port : (a : Sockaddr) → HasPort a → sockaddr_key a ≡ a.sin_port * (2 ^ 32 + 1)
unfolding sockaddr_key port address
sockaddr_key_port a h =
    to_ulong64_value (record { high = a.sin_port; low = a.sin_port }) (omega arith) ∙ omega arith

-- Addresses are ordered by their ports alone, so a map keyed by addresses holds one entry for all
-- the peers that use the same port, whatever hosts they are on.
pub same_key_port :
    (a b : Sockaddr)
    → HasPort a
    → HasPort b
    → (lt_sockaddr a b ≡ ltb a.sin_port b.sin_port)
      × ((same_key a b ≡ true) ↔ (a.sin_port ≡ b.sin_port))
unfolding lt_sockaddr same_key
same_key_port a b ha hb = ground (arith, sockaddr_key_port a ha, sockaddr_key_port b hb)

-- The address n0.n1.n2.n3 as the platform stores it: the first octet in the lowest byte.
abbrev pub dotted : ℕ → ℕ → ℕ → ℕ → ℕ
dotted n0 n1 n2 n3 = n0 + 256 * n1 + 65536 * n2 + 16777216 * n3

-- Which addresses n0.n1.n2.n3 `is_multicast` accepts is decided by the last octet: it must lie in
-- 224..239, and an address with a last octet in 225..238 is accepted whatever the others are.
is_multicast_last_octet :
    (a : Sockaddr) (n0 n1 n2 n3 : ℕ)
    → n0 < 256
    → n1 < 256
    → n2 < 256
    → n3 < 256
    → a.s_addr ≡ dotted n0 n1 n2 n3
    → (is_multicast a ≡ true → (224 ≤ n3) × (n3 ≤ 239))
      × ((225 ≤ n3) × (n3 ≤ 238) → is_multicast a ≡ true)
unfolding is_multicast
is_multicast_last_octet a n0 n1 n2 n3 h0 h1 h2 h3 e = ground arith
