-- ===== src/Rpc.antt =====
-- imou-rpc-kernel/imou-rpc-kernel/imouto_rpcmsg.hpp and basic_rpc.hpp: the messages of the calls
-- and of the replies, and the loop over the messages of one block. The structures that a message
-- starts with are records; a `verify_ident` and a `void*` are numbers, 0 the null pointer.
pub mod Blocks
pub mod Kernel
pub mod Client
pub mod Server
pub mod Session
use isu_net.Base.{
  Bool, List, Option, [], add_size, drop, false, if◌then◌else◌, le_bytes, le_value, length, ltb,
  none, some, suc, take, true, zero, ℕ, ◌&&◌, ◌++◌, ◌+◌, ◌==◌, ◌>>=◌, ◌∷◌,
}
use isu_net.Slice.{Block}
use isu_net.Stubs.{StubIdent}

abbrev pub imouto_rpc_vers : ℕ
imouto_rpc_vers = 2

-- `msg_type`.
abbrev pub msg_call : ℕ
msg_call = 0

abbrev pub msg_replay : ℕ
msg_replay = 1

-- `replay_stat`.
abbrev pub msg_accepted : ℕ
msg_accepted = 0

abbrev pub msg_denied : ℕ
msg_denied = 1

-- `accept_stat`, as far as the server names its values.
abbrev pub success : ℕ
success = 0

abbrev pub proc_cpp_exception : ℕ
proc_cpp_exception = 5

abbrev pub proc_c_exception : ℕ
proc_c_exception = 6

-- `reject_stat`.
abbrev pub rpc_mismatch : ℕ
rpc_mismatch = 0

abbrev pub auth_error : ℕ
auth_error = 1

-- `session_stat`.
abbrev pub session_io_failed : ℕ
session_io_failed = 1

abbrev pub session_timeout : ℕ
session_timeout = 2

abbrev pub session_success : ℕ
session_success = 3

abbrev pub session_prog_mismatch : ℕ
session_prog_mismatch = 5

abbrev pub session_cpp_exception : ℕ
session_cpp_exception = 8

abbrev pub session_c_exception : ℕ
session_c_exception = 9

abbrev pub session_rpc_mismatch : ℕ
session_rpc_mismatch = 10

abbrev pub session_auth_error : ℕ
session_auth_error = 11

abbrev pub enum_value_boundary : ℕ
enum_value_boundary = 8

pub record RpcmsgHead : Type 0 where
  pub xid : ℕ
  pub magic : ℕ

pub record CallBody : Type 0 where
  pub ident : StubIdent
  pub rpcvers : ℕ

pub record RpcstubIdent : Type 0 where
  pub head : RpcmsgHead
  pub body : CallBody

pub record RpcCallBody : Type 0 where
  pub body : RpcstubIdent
  pub trunk : ℕ
  pub ident : ℕ
  pub handle : ℕ

pub record ReplyBody : Type 0 where
  pub head : RpcmsgHead
  pub what : ℕ
  pub stat : ℕ
  pub ident : ℕ
  pub trunk : ℕ

-- `for_each_memory_block` from a place in the memory: the blocks that the function is called with,
-- and whether the loop comes to its end; otherwise it reads past the memory, which a debug build
-- finds out in `advance_in`. The fuel is the length of the memory or more.
unfoldable pub for_each_from : ℕ → ℕ → List ℕ → List Block × Bool
for_each_from zero start memory = ([], true)
for_each_from (suc fuel) start memory =
    let rest = drop start memory in
    elim (le_value rest) [
      | none ↦ ([], length rest == 0)
      | some size ↦
          let b : Block = record { start = start + 4; size = size } in
          let later = for_each_from fuel (start + 4 + size) memory in
          if ltb (length rest) (4 + size) then (b ∷ [], false) else (b ∷ later.0, later.1)
    ]

unfoldable pub for_each_memory_block : List ℕ → List Block × Bool
unfolding for_each_from
for_each_memory_block memory = for_each_from (length memory) 0 memory

-- `advance_in(block, rarchive(block, size))` and a block of that size: what `rarchive` reads into a
-- `memory_block`, and how much it says it read; `none` is a read past the memory.
unfoldable pub rarchive_block : List ℕ → Option (ℕ × List ℕ)
rarchive_block memory = do
  size ← le_value memory
  let rest = drop 4 memory
  if ltb (length rest) size then none else some (add_size size 4, take size rest)

-- `archive` of a `memory_block`: its size and its bytes.
abbrev pub archive_block : List ℕ → List ℕ
archive_block content = le_bytes (length content) ++ content

-- One address and xid are another.
abbrev pub same : ℕ → ℕ → ℕ → ℕ → Bool
same dest xid d x = (dest == d) && (xid == x)
