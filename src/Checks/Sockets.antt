-- ===== src/Checks/Sockets.antt =====
-- Addresses of ex-utility's double_ulong32 and isu-net/isu-net/socket.hpp.
use isu_net.Base.{arith, ltb, true, ◌↔◌, ◌≡◌}
use isu_net.Socket.{Sockaddr, lt_sockaddr, same_key}
use isu_net.Socket.Order.{dotted, same_key_port}

abbrev host_a : Sockaddr
host_a = record { sin_family = 2; sin_port = 80; s_addr = dotted 10 0 0 1 }

abbrev host_b : Sockaddr
host_b = record { sin_family = 2; sin_port = 80; s_addr = dotted 10 0 0 226 }

same_key_port_example :
    (lt_sockaddr host_a host_b ≡ ltb 80 80)
    × ((same_key host_a host_b ≡ true) ↔ (host_a.sin_port ≡ host_b.sin_port))
same_key_port_example = same_key_port host_a host_b (omega arith) (omega arith)
