-- ===== src/Stream.antt =====
-- isu-net/src/datagram_tcp.cpp: message boundaries over a byte stream. `stream_wrap` collects bytes
-- into a block of known size; `stream_analysis` cuts what the socket delivers into messages, each
-- sent as its size in four bytes and its bytes. A block is the list of its bytes; the pointer that
-- a `stream_wrap` holds into `_head` or `_memory` is modelled by the block itself.
pub mod Collect
pub mod Analysis
pub mod Body
pub mod Framing
pub mod Connection
use isu_net.Base.{
  Bool, List, Option, [], add_size, drop, false, if◌then◌else◌, le_bytes, le_value, leb, length,
  mymemcpy, none, not, some, sub_size, suc, true, zero, ℕ, ◌*◌, ◌++◌, ◌+◌, ◌<◌, ◌==◌, ◌>>=◌, ◌^◌,
  ◌∷◌, ◌≡◌,
}

-- What a step comes to: a value, `std::bad_alloc`, or an access outside a block.
pub data Attempt {ℓ} (A : Type ℓ) : Type ℓ where
  ok : A → Attempt A
  bad_alloc : Attempt A
  fault : Attempt A

infixl 5 ◌>>!◌
abbrev pub ◌>>!◌ {ℓ κ} : {A : Type ℓ} {B : Type κ} → Attempt A → (A → Attempt B) → Attempt B
ok a >>! f = f a
bad_alloc >>! f = bad_alloc
fault >>! f = fault

abbrev pub or_fault {ℓ} : {A : Type ℓ} → Option A → Attempt A
or_fault none = fault
or_fault (some a) = ok a

-- `new char[n]` of the 32-bit platform: a block of n bytes, whose content is not determined. No
-- block reaches half of the address space.
pub record Allocator : Type 0 where
  pub alloc : ℕ → Option (List ℕ)
  pub length-alloc : (n : ℕ) (b : List ℕ) → alloc n ≡ some b → length b ≡ n
  pub alloc_small : (n : ℕ) (b : List ℕ) → alloc n ≡ some b → n < 2 ^ 31

pub record StreamWrap : Type 0 where
  pub stream : List ℕ
  pub was_append : ℕ
  pub maxinum : ℕ

unfoldable pub set_stream : List ℕ → ℕ → StreamWrap
set_stream buffer max_stream = record { stream = buffer; was_append = 0; maxinum = max_stream }

-- `cleanup`: the null pointer, with no bytes behind it.
unfoldable pub cleanup : StreamWrap
unfolding set_stream
cleanup = set_stream [] 0

unfoldable pub is_complete : StreamWrap → Bool
is_complete w = w.maxinum == w.was_append

unfoldable pub stream_size : StreamWrap → ℕ
stream_size w = w.maxinum

-- How much `append` takes of a buffer of the size: all of it, or what is missing.
unfoldable pub need_copy : StreamWrap → ℕ → ℕ
need_copy w size =
    if leb (add_size size w.was_append) w.maxinum then size else sub_size w.maxinum w.was_append

-- The number of bytes taken and the new wrap.
unfoldable pub append : List ℕ → StreamWrap → Option (ℕ × StreamWrap)
unfolding need_copy
append buffer w =
    let n = need_copy w (length buffer) in
    do
      stream ← mymemcpy w.stream w.was_append buffer n
      some (n, record w { stream = stream; was_append = add_size w.was_append n })

-- `_head_wrap` collects the four bytes of `_head`, `_wrap` those of `_memory`.
pub record StreamAnalysis : Type 0 where
  pub head_wrap : StreamWrap
  pub wrap : StreamWrap

-- `_reset_head`: over the same four bytes, which keep their content.
unfoldable pub reset_head : StreamAnalysis → StreamAnalysis
unfolding set_stream
reset_head a = record a { head_wrap = set_stream a.head_wrap.stream 4 }

-- The constructor, with the four bytes of the new block.
unfoldable pub fresh : List ℕ → StreamAnalysis
unfolding cleanup set_stream
fresh head = record { head_wrap = set_stream head 4; wrap = cleanup }

-- `_check_safe`; the pointer of a buffer that the socket fills is never null.
unfoldable pub check_safe : List ℕ → Bool
check_safe buffer = not (length buffer == 0)

module _ (m : Allocator) where
  -- The head is there: its number sizes the block for the message.
  unfoldable pub open_message : StreamAnalysis → Attempt StreamAnalysis
  unfolding set_stream
  open_message a = elim (le_value a.head_wrap.stream) [
    | none ↦ fault
    | some n ↦ elim (m.alloc n) [
      | none ↦ bad_alloc
      | some block ↦ ok (record a { wrap = set_stream block n })
    ]
  ]

  -- `_try_analysis_head`: whether a head is there, and what is left of the buffer.
  unfoldable pub try_analysis_head :
      List ℕ → StreamAnalysis → Attempt (Bool × List ℕ × StreamAnalysis)
  unfolding check_safe is_complete
  try_analysis_head buffer a =
      if not (check_safe buffer)
      then ok (false, buffer, a)
      else if is_complete a.head_wrap
      then ok (true, buffer, a)
      else (or_fault (append buffer a.head_wrap) >>! λ r.
          let rest = drop r.0 buffer in
          let a1 = record a { head_wrap = r.1 } in
          if is_complete r.1
          then (open_message a1 >>! λ a2. ok (true, rest, a2))
          else ok (false, rest, a1))

  -- `_copy_and_try_call`: what is left of the buffer, and the message passed to the callback.
  unfoldable pub copy_and_try_call :
      List ℕ → StreamAnalysis → Attempt (List ℕ × List (List ℕ) × StreamAnalysis)
  unfolding check_safe is_complete cleanup
  copy_and_try_call buffer a =
      if not (check_safe buffer)
      then ok (buffer, [], a)
      else (or_fault (append buffer a.wrap) >>! λ r.
          let rest = drop r.0 buffer in
          if is_complete r.1
          then ok (rest, r.1.stream ∷ [], reset_head (record a { wrap = cleanup }))
          else ok (rest, [], record a { wrap = r.1 }))

  -- `push`, the loop over the two, on fuel; the messages in order.
  unfoldable pub push_loop : ℕ → List ℕ → StreamAnalysis → Attempt (List (List ℕ) × StreamAnalysis)
  push_loop zero buffer a = fault
  push_loop (suc fuel) buffer a = try_analysis_head buffer a >>! λ h. elim h.0 [
    | false ↦ ok ([], h.2)
    | true ↦ copy_and_try_call h.1 h.2 >>! λ c. push_loop fuel c.0 c.2 >>! λ r. ok (c.1 ++ r.0, r.1)
  ]

  -- Each round takes bytes, but for the one that passes an empty message on.
  unfoldable pub push : List ℕ → StreamAnalysis → Attempt (List (List ℕ) × StreamAnalysis)
  push buffer a = push_loop (2 * length buffer + 2) buffer a

  -- `_tcp_recv`: one `push` for each read of the socket.
  unfoldable pub tcp_recv :
      List (List ℕ) → StreamAnalysis → Attempt (List (List ℕ) × StreamAnalysis)
  tcp_recv [] a = ok ([], a)
  tcp_recv (chunk ∷ chunks) a =
      push chunk a >>! λ r. tcp_recv chunks r.1 >>! λ q. ok (r.0 ++ q.0, q.1)

-- `datagram_tcp::send` on a stream: the size of the message, in the platform's order, and its
-- bytes.
unfoldable pub frame : List ℕ → List ℕ
frame msg = le_bytes (length msg) ++ msg

unfoldable pub frames : List (List ℕ) → List ℕ
unfolding frame
frames [] = []
frames (msg ∷ msgs) = frame msg ++ frames msgs
