-- ===== src/Rpc/Client/Invoke.antt =====
-- imou-rpc-client/imou-rpc-client/imouto_rpc_client.hpp: what a call makes of what its
-- callback was told, which `event_type` hands over, with `_async_callback` and
-- `_make_rpc_exception_and_raise`. A result is the bytes that the stub reads it from, an exception
-- the bytes of its block. `none` is a read past the memory.
use isu_net.Base.{
  Bool, List, Option, [], false, if◌then◌else◌, leb, none, some, true, ℕ, ◌==◌, ◌>>=◌,
}
use isu_net.Rpc.{
  session_timeout, session_success, session_cpp_exception, enum_value_boundary, rarchive_block,
}

pub data Raised : Type 0 where
  rpc_local_timeout : Raised
  rpc_io_exception : Raised
  rpc_exception : List ℕ → Raised
  rpc_remote_platform_exception : List ℕ → Raised
  rpc_local_platform_exception : Raised

-- What an `event_type` holds after its callback, but for the handle and the code of the system.
pub record EventType : Type 0 where
  pub io_success : Bool
  pub value : ℕ
  pub memory : List ℕ

-- A result, `none` for one that was only constructed; or an exception.
pub data Invoked : Type 0 where
  returns : Option (List ℕ) → Invoked
  raises : Raised → Invoked

-- `_async_callback`: how much was read, and the block.
unfoldable pub async_callback : ℕ → List ℕ → Option (ℕ × List ℕ)
unfolding rarchive_block
async_callback rpc_code memory =
    let read = rarchive_block memory in if rpc_code == session_success then read else some (0, [])

-- `_make_exception_impl`, of the type that the code stands for.
unfoldable pub exception_of : ℕ → List ℕ → Raised
exception_of rpc_code exdata =
    if rpc_code == session_cpp_exception
    then rpc_exception exdata
    else rpc_remote_platform_exception exdata

-- `_make_exception`: the exception, and whether it is thrown rather than handed back.
unfoldable pub make_exception : ℕ → List ℕ → Bool → Option (Raised × Bool)
unfolding rarchive_block exception_of
make_exception rpc_code memory do_throw =
    let made =
      rarchive_block memory >>= λ exdata. some (exception_of rpc_code exdata.1, do_throw) in
    if rpc_code == session_timeout then some (rpc_local_timeout, false) else made

-- `_make_rpc_exception_and_raise`: what is raised, if anything.
unfoldable pub make_rpc_exception_and_raise : ℕ → List ℕ → Option (Option Raised)
unfolding make_exception
make_rpc_exception_and_raise rpc_code memory =
    let raised =
      make_exception rpc_code memory true >>= λ made. some (if made.1 then some made.0 else none) in
    if leb rpc_code enum_value_boundary then raised else some none

-- Behind `_make_rpc_exception_and_raise`, `result` is returned as it was constructed.
unfoldable pub raise_or_return : Option Raised → Invoked
raise_or_return none = returns none
raise_or_return (some e) = raises e

-- `timed_invoke`, from the wait on; `none` for an event that was not set in time, when it matters
-- whether the call is still in flight.
unfoldable pub invoke_end : Option EventType → Bool → Option Invoked
unfolding async_callback make_rpc_exception_and_raise raise_or_return
invoke_end none in_flight = some (if in_flight then raises rpc_local_timeout else returns none)
invoke_end (some e) in_flight =
    let failed =
      make_rpc_exception_and_raise e.value e.memory >>= λ raised. some (raise_or_return raised) in
    let ended = async_callback e.value e.memory >>= λ pair.
    if pair.0 == 0 then failed else some (returns (some pair.1)) in
    if e.io_success then ended else some (raises rpc_io_exception)

-- What `stub.result` of an asynchronous call comes to, on the client.
pub data Local : Type 0 where
  finished : Local
  bad_alloc : Local
  local_runtime_error : List ℕ → Local
  local_unknow : Local
  local_platform : Local

-- What the callback of an asynchronous call is told, but for the handle and the code of the system.
pub record AsyncCall : Type 0 where
  pub io_success : Bool
  pub exp : Option Raised

-- `_skip_exception_call`, with `_skip_cpp_exception_call` and `_myfilter`.
unfoldable pub skip_exception_call : List ℕ → Local → Option Raised
skip_exception_call unknow finished = none
skip_exception_call unknow bad_alloc = none
skip_exception_call unknow (local_runtime_error what) = some (rpc_exception what)
skip_exception_call unknow local_unknow = some (rpc_exception unknow)
skip_exception_call unknow local_platform = some rpc_local_platform_exception

-- The call of a callback, if there is one.
abbrev pub tell : Bool → Bool → Option Raised → Option AsyncCall
tell has_callback io_success exp =
    if has_callback then some (record { io_success = io_success; exp = exp }) else none

-- The function that `async_timed_invoke_than` gives to `_call`: how it calls the callback, if it
-- has one. Whether the sending failed is passed on, and not looked at.
unfoldable pub async_end : (List ℕ → Local) → List ℕ → Bool → EventType → Option (Option AsyncCall)
unfolding async_callback make_exception skip_exception_call
async_end result unknow has_callback e =
    let made = make_exception e.value e.memory false >>= λ made.
    some (tell has_callback e.io_success (some made.0)) in
    let failed = if has_callback then made else some none in
    async_callback e.value e.memory >>= λ pair.
    if pair.0 == 0
    then failed
    else some (tell has_callback e.io_success (skip_exception_call unknow (result pair.1)))
