-- ===== src/Trans/Receive.antt =====
-- isu-net/src/trans_core.cpp, the receiving side: one round of `_recver_thread` for a datagram that
-- arrived (`ret` is its size, `error` the round's `error_code`), and `get_completet_io`. The timer
-- part is `multiplex_timer::cancel_timer`: the entry and its argument go.
use isu_net.Base.{
  Option, [], add_size, erase, false, find, if◌then◌else◌, ltb, mul_size, none, some, ℕ, ◌>>=◌, ◌∷◌,
}
use isu_net.Bitmap.Interface.{Bitset}
use isu_net.Bitmap
use isu_net.Socket.{Sockaddr}
use isu_net.Trans.State.{
  Outcome, done, waiting, ◌>>>◌, or_fault, slice_with_acks, package_from_multicast_addr,
  post_send_complete, send_complete, recv_complete, exit_complete, has_flag, TransGroup, Packet,
  CompleteIoResult, Posted, message, exit, TransCore, post, sendto, received_test_and_set,
}
use isu_net.Trans.Send.{get_argument}

-- What a datagram with new data posts.
abbrev pub arrived : Sockaddr → Packet → ℕ → ℕ → Posted
arrived from p ret error = message (record {
  io_type = recv_complete;
  io_error = record { code = 0; system_error = error; mission = none };
  from = from;
  memory = some p;
  size = ret;
})

-- `get_completet_io`: the oldest entry of the completion port; an exit message becomes an
-- `EXIT_COMPLETE` result with the codes in it. With an empty port the caller waits.
unfoldable pub completion : Posted → CompleteIoResult
completion (message r) = r
completion (exit key error) = record {
  io_type = exit_complete;
  io_error = record { code = key; system_error = error; mission = none };
  from = record { sin_family = 0; sin_port = 0; s_addr = 0 };
  memory = none;
  size = 0;
}

module _ {Bits : Type 0} where
  -- `_timeout_timer.cancel_timer(handle)`; the mission is no longer held by the timer.
  unfoldable pub cancel_timer : ℕ → TransCore Bits → TransCore Bits
  cancel_timer handle s = record s { timers = erase handle s.timers }

  -- `_send_ack`: the head comes back with nothing but the flag changed.
  unfoldable pub send_ack : Sockaddr → TransGroup → TransCore Bits → TransCore Bits
  unfolding sendto
  send_ack a group s =
      sendto a (record { head = record group { magic = slice_with_acks }; payload = [] }) s

  -- The message for a finished send, if the user asked for one.
  unfoldable pub post_acked : Sockaddr → ℕ → ℕ → TransCore Bits → Option (TransCore Bits)
  unfolding post
  post_acked from mission ret s =
      if has_flag s.work_flag post_send_complete
      then (do
        trunk ← find mission s.missions
        some (
            post
              (message (record {
                io_type = send_complete;
                io_error = record { code = 0; system_error = 0; mission = some mission };
                from = from;
                memory = some trunk.buffer;
                size = ret;
              }))
              s))
      else some s

module _ {Bits : Type 0} ⦃B : Bitset Bits⦄ where
  -- A first acknowledgement: the id's bit goes, the window opens by one, the timer is cancelled.
  -- The handle is the one in the datagram.
  acked : Sockaddr → TransGroup → ℕ → TransCore Bits → Outcome (TransCore Bits)
  unfolding get_argument post_acked cancel_timer
  acked from head ret s = or_fault (Bitmap.just_set s.packages head.id false) >>> λ r.
      or_fault (get_argument head.local_handle s) >>> λ mission.
      or_fault (
        post_acked from mission ret
          (record s { packages = r.1; sr_blance = add_size s.sr_blance 1 }))
      >>> λ s'. done (cancel_timer head.local_handle s')

  -- The branch for `SLICE_WITH_ACKS`: an id that is not waiting for one is ignored.
  unfoldable pub on_ack : Sockaddr → TransGroup → ℕ → TransCore Bits → Outcome (TransCore Bits)
  unfolding acked
  on_ack from head ret s = if Bitmap.have s.packages head.id then acked from head ret s else done s

  -- Pass the data on if its id is new for the sender's key.
  unfoldable pub deliver : Sockaddr → Packet → ℕ → ℕ → TransCore Bits → Outcome (TransCore Bits)
  unfolding post
  deliver from p ret error s = or_fault (received_test_and_set from p.head.id s.received) >>> λ r.
      let s' = record s { received = r.1 } in
      done (if r.0 then s' else post (arrived from p ret error) s')

  -- Acknowledge, unless the sender sent to a group; then pass the data on.
  unfoldable pub accept : Sockaddr → Packet → ℕ → ℕ → TransCore Bits → Outcome (TransCore Bits)
  unfolding send_ack
  accept from p ret error s =
      deliver from p ret error
        (if has_flag p.head.magic package_from_multicast_addr then s else send_ack from p.head s)

  -- The branch for data: an id beyond twice the biggest one so far is dropped.
  unfoldable pub on_data : Sockaddr → Packet → ℕ → ℕ → TransCore Bits → Outcome (TransCore Bits)
  unfolding accept
  on_data from p ret error s =
      if ltb (mul_size s.biggest_id 2) p.head.id
      then done s
      else accept from p ret error (record s {
        biggest_id = (if ltb s.biggest_id p.head.id then p.head.id else s.biggest_id);
      })

  unfoldable pub on_datagram : Sockaddr → Packet → ℕ → ℕ → TransCore Bits → Outcome (TransCore Bits)
  unfolding on_ack on_data
  on_datagram from p ret error s =
      if has_flag p.head.magic slice_with_acks
      then on_ack from p.head ret s
      else on_data from p ret error s

module _ {Bits : Type 0} where
  unfoldable pub recv : TransCore Bits → Outcome (CompleteIoResult × TransCore Bits)
  unfolding completion
  recv s = elim s.recver_port [
    | [] ↦ waiting
    | p ∷ rest ↦ done (completion p, record s { recver_port = rest })
  ]
