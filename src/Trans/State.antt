-- ===== src/Trans/State.antt =====
-- isu-net/isu-net/trans_core.hpp and the data members of `trans_core_impl`: packets, missions,
-- timers, what the completion port carries, and the state that the operations pass along.
use isu_net.Base.{
  Bool, List, Option, [], bit_and, bit_or, if◌then◌else◌, none, not, refl, some, ℕ, ◌&&◌, ◌++◌,
  ◌==◌, ◌>>=◌, ◌^◌, ◌∷◌, ◌≡◌,
}
use isu_net.Bitmap.Interface.{Bitset}
use isu_net.Bitmap
use isu_net.Socket.{Sockaddr, same_key}

-- How an operation ends: with a value; waiting for the window to open; or in a fault, which is a
-- dangling timer handle or a bit past the end of a bitmap.
pub data Outcome {ℓ} (A : Type ℓ) : Type ℓ where
  done : A → Outcome A
  waiting : Outcome A
  fault : Outcome A

infixl 5 ◌>>>◌
abbrev pub ◌>>>◌ {ℓ κ} : {A : Type ℓ} {B : Type κ} → Outcome A → (A → Outcome B) → Outcome B
done a >>> f = f a
waiting >>> f = waiting
fault >>> f = fault

-- `none` of the parts is a fault.
abbrev pub or_fault {ℓ} : {A : Type ℓ} → Option A → Outcome A
or_fault none = fault
or_fault (some a) = done a

pub >>>-eq-done {ℓ κ} :
    {A : Type ℓ} {B : Type κ} (m : Outcome A) (f : A → Outcome B) {b : B}
    → (m >>> f) ≡ done b
    → (a : A) × (m ≡ done a) × (f a ≡ done b)
>>>-eq-done (done a) f h = (a, refl, h)
>>>-eq-done waiting f h = cc
>>>-eq-done fault f h = cc

pub or_fault-eq-done {ℓ} : {A : Type ℓ} (m : Option A) {a : A} → or_fault m ≡ done a → m ≡ some a
or_fault-eq-done none h = cc
or_fault-eq-done (some a) h = cc

-- trans_core_def.hpp
abbrev pub slice_with_acks : ℕ
slice_with_acks = 2 ^ 2

abbrev pub slice_with_data : ℕ
slice_with_data = 2 ^ 3

abbrev pub slice_with_window : ℕ
slice_with_window = 2 ^ 13

abbrev pub package_from_multicast_addr : ℕ
package_from_multicast_addr = 2 ^ 31

-- trans_core.hpp
abbrev pub post_send_complete : ℕ
post_send_complete = 1

abbrev pub send_complete : ℕ
send_complete = 0

abbrev pub failed_send_complete : ℕ
failed_send_complete = 1

abbrev pub recv_complete : ℕ
recv_complete = 16

abbrev pub exit_complete : ℕ
exit_complete = 256

abbrev pub recv_thread_exit : ℕ
recv_thread_exit = 2

abbrev pub send_faild : ℕ
send_faild = 6

abbrev pub default_window_size : ℕ
default_window_size = 773

abbrev pub id_boundary : ℕ
id_boundary = 4096

-- A flag test such as `head.magic&SLICE_WITH_ACKS`.
abbrev pub has_flag : ℕ → ℕ → Bool
has_flag magic flag = not (bit_and magic flag == 0)

-- `_trans_group`; `local_handle` is the handle of the sender's timer, 0 for none.
pub record TransGroup : Type 0 where
  pub magic : ℕ
  pub id : ℕ
  pub rtt : ℕ
  pub window : ℕ
  pub local_handle : ℕ

-- A buffer whose reserved front holds the head, and the bytes behind it.
pub record Packet : Type 0 where
  pub head : TransGroup
  pub payload : List ℕ

-- `retrans_trunk`
pub record RetransTrunk : Type 0 where
  pub id : ℕ
  pub retry_limit : ℕ
  pub retry_count : ℕ
  pub timer : ℕ
  pub buffer : Packet
  pub address : Sockaddr

-- What the members of fresh objects hold that no constructor sets: `retry_count` and `timer` of
-- `retrans_trunk`, `rtt` of `_trans_group`.
pub record Uninit : Type 0 where
  pub retry_count : ℕ
  pub timer : ℕ
  pub rtt : ℕ

-- `retrans_control`
pub record RetransControl : Type 0 where
  pub first_timeout : ℕ
  pub retry_limit : ℕ

abbrev pub default_control : RetransControl
default_control = record { first_timeout = 64; retry_limit = 15 }

-- `io_result`; missions are named by their key in the table of missions, none for a null pointer.
pub record IoResult : Type 0 where
  pub code : ℕ
  pub system_error : ℕ
  pub mission : Option ℕ

-- `io_result::in_vaild`
unfoldable pub in_vaild : IoResult → Bool
in_vaild r = (r.code == 0) && (r.system_error == 0)

-- `complete_io_result`; no memory for the block of an exit message.
pub record CompleteIoResult : Type 0 where
  pub io_type : ℕ
  pub io_error : IoResult
  pub from : Sockaddr
  pub memory : Option Packet
  pub size : ℕ

-- What is queued in the completion port: an object, or the two codes of an exit message.
pub data Posted : Type 0 where
  message : CompleteIoResult → Posted
  exit : ℕ → ℕ → Posted

-- One entry of the `multiplex_timer`: its argument is a mission.
pub record Timer : Type 0 where
  pub argument : ℕ
  pub interval : ℕ
  pub started : Bool
  pub kicked : Bool

pub record BadSend : Type 0 where
  pub dest : Sockaddr
  pub memory : Packet
  pub mission : ℕ

-- `sent` and `bad_sends` record the calls of `sendto` and of the user's callback, newest first.
pub record TransCore (Bits : Type 0) : Type 0 where
  pub group_allocer : ℕ
  pub sr_blance : ℕ
  pub work_flag : ℕ
  pub has_bad_send : Bool
  pub packages : Bits
  pub received : List (Sockaddr × Bits)
  pub biggest_id : ℕ
  pub recver_port : List Posted
  pub timers : List (ℕ × Timer)
  pub next_timer : ℕ
  pub missions : List (ℕ × RetransTrunk)
  pub next_mission : ℕ
  pub sent : List (Sockaddr × Packet)
  pub bad_sends : List BadSend

module _ {Bits : Type 0} ⦃B : Bitset Bits⦄ where
  -- The constructor, with or without a `bad_send` callback.
  unfoldable pub init : Bool → TransCore Bits
  init callback = record {
    group_allocer = 0;
    sr_blance = default_window_size;
    work_flag = 0;
    has_bad_send = callback;
    packages = Bitmap.create 0;
    received = [];
    biggest_id = id_boundary;
    recver_port = [];
    timers = [];
    next_timer = 1;
    missions = [];
    next_mission = 0;
    sent = [];
    bad_sends = [];
  }

  -- `_received[addr]`, which makes an empty bitmap for a new key.
  unfoldable pub received_at : Sockaddr → List (Sockaddr × Bits) → Bits
  received_at a [] = Bitmap.create 0
  received_at a ((b, bits) ∷ m) = if same_key b a then bits else received_at a m

  unfoldable pub received_put : Sockaddr → Bits → List (Sockaddr × Bits) → List (Sockaddr × Bits)
  received_put a bits [] = (a, bits) ∷ []
  received_put a bits ((b, old) ∷ m) =
      if same_key b a then (b, bits) ∷ m else (b, old) ∷ received_put a bits m

  -- `_received[addr].test_and_set(id)`
  unfoldable pub received_test_and_set :
      Sockaddr → ℕ → List (Sockaddr × Bits) → Option (Bool × List (Sockaddr × Bits))
  unfolding received_at received_put
  received_test_and_set a id m =
      Bitmap.test_and_set (received_at a m) id >>= λ r. some (r.0, received_put a r.1 m)

module _ {Bits : Type 0} where
  unfoldable pub post : Posted → TransCore Bits → TransCore Bits
  post p s = record s { recver_port = s.recver_port ++ p ∷ [] }

  -- `_sendto_impl`
  unfoldable pub sendto : Sockaddr → Packet → TransCore Bits → TransCore Bits
  sendto a p s = record s { sent = (a, p) ∷ s.sent }

  -- `_bad_send(...)`, if there is a callback.
  unfoldable pub call_bad_send : Sockaddr → Packet → ℕ → TransCore Bits → TransCore Bits
  call_bad_send a p m s =
      if s.has_bad_send
      then record s { bad_sends = record { dest = a; memory = p; mission = m } ∷ s.bad_sends }
      else s

  -- `set_work_flag`
  unfoldable pub set_work_flag : ℕ → TransCore Bits → TransCore Bits
  set_work_flag flag s = record s { work_flag = bit_or s.work_flag flag }
