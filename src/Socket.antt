-- ===== src/Socket.antt =====
-- Addresses: isu-net/isu-net/socket.hpp, isu-net/src/socket.cpp and ex-utility's double_ulong32, by
-- which the addresses are ordered. An address is read as the platform stores it: `port` and
-- `address` hold `sin_port` and `S_un.S_addr` as they lie in memory (network order), read as
-- numbers.
pub mod Words
pub mod Order
use isu_net.Base.{Bool, bit_and, bit_or, ltb, not, size_mod, ℕ, ◌%◌, ◌&&◌, ◌*◌, ◌/◌, ◌==◌, ◌^◌}

pub record DoubleUlong32 : Type 0 where
  pub high : ℕ
  pub low : ℕ

-- `double_ulong32(const ulong64 val)`; the assignments cut to 32 bits.
unfoldable pub of_ulong64 : ℕ → DoubleUlong32
of_ulong64 val = record { high = val / 2 ^ 32 % size_mod; low = bit_and val 0xFFFFFFFF % size_mod }

-- `ret = _high; ret <<= 32; ret |= _low;` in 64 bits.
unfoldable pub to_ulong64 : DoubleUlong32 → ℕ
to_ulong64 d = bit_or (d.high * 2 ^ 32 % 2 ^ 64) d.low

unfoldable pub lt_ulong : DoubleUlong32 → DoubleUlong32 → Bool
lt_ulong a b = ltb (to_ulong64 a) (to_ulong64 b)

unfoldable pub eq_ulong : DoubleUlong32 → DoubleUlong32 → Bool
eq_ulong a b = to_ulong64 a == to_ulong64 b

pub record Sockaddr : Type 0 where
  pub sin_family : ℕ
  pub sin_port : ℕ
  pub s_addr : ℕ

-- `core_sockaddr::port() const`
unfoldable pub port : Sockaddr → ℕ
port a = a.sin_port

-- `core_sockaddr::address() const`, which returns `port()`.
unfoldable pub address : Sockaddr → ℕ
unfolding port
address a = port a

-- `to_ulong64(const core_sockaddr&)`
unfoldable pub sockaddr_key : Sockaddr → ℕ
unfolding port address to_ulong64
sockaddr_key a = to_ulong64 (record { high = port a; low = address a })

-- `operator<(const core_sockaddr&, const core_sockaddr&)`
unfoldable pub lt_sockaddr : Sockaddr → Sockaddr → Bool
unfolding sockaddr_key
lt_sockaddr a b = ltb (sockaddr_key a) (sockaddr_key b)

-- A `std::map` takes two keys for the same when neither is below the other.
unfoldable pub same_key : Sockaddr → Sockaddr → Bool
unfolding lt_sockaddr
same_key a b = not (lt_sockaddr a b) && not (lt_sockaddr b a)

unfoldable pub is_multicast : Sockaddr → Bool
is_multicast a = ltb 0xE000000F a.s_addr && ltb a.s_addr 0xEFFFFFFF
