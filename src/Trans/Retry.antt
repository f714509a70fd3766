-- ===== src/Trans/Retry.antt =====
-- isu-net/src/trans_core.cpp: `_timer_callback`, `_exit_timer`, `_stun_group` and `cancel_io`. `ok`
-- says whether `sendto` succeeds, `error` is what `WSAGetLastError` says.
use isu_net.Base.{
  Bool, Option, add_size, false, find, if◌then◌else◌, ltb, none, put, size_mod, some, true, ℕ, ◌-◌,
  ◌>>=◌,
}
use isu_net.Bitmap.Interface.{Bitset}
use isu_net.Trans.State.{
  Outcome, done, ◌>>>◌, or_fault, post_send_complete, failed_send_complete, send_faild, has_flag,
  RetransTrunk, message, Timer, TransCore, post, sendto, call_bad_send, received_test_and_set,
}
use isu_net.Trans.Send.{get_argument, packages_set}
use isu_net.Trans.Receive.{cancel_timer}

module _ {Bits : Type 0} where
  -- `_stun_group`
  unfoldable pub stun_group : RetransTrunk → ℕ → TransCore Bits → TransCore Bits
  unfolding call_bad_send
  stun_group trunk mission s = call_bad_send trunk.address trunk.buffer mission s

  -- `cancel_timer_when_callback_exit`: the mark that the timer is to go.
  unfoldable pub kick_timer : ℕ → Timer → TransCore Bits → TransCore Bits
  kick_timer handle t s = record s { timers = put handle (record t { kicked = true }) s.timers }

  -- The message or the callback of `_exit_timer`.
  unfoldable pub report_failure : RetransTrunk → ℕ → Bool → ℕ → TransCore Bits → TransCore Bits
  unfolding post call_bad_send
  report_failure trunk mission active error s =
      if has_flag s.work_flag post_send_complete
      then post
          (message (record {
            io_type = failed_send_complete;
            io_error = record { code = send_faild; system_error = error; mission = none };
            from = trunk.address;
            memory = some trunk.buffer;
            size = 0;
          }))
          s
      else if active
      then call_bad_send trunk.address trunk.buffer mission s
      else s

  -- `advance_expire(handle, ms)`: the interval grows by `ms`.
  unfoldable pub advance_expire : ℕ → ℕ → TransCore Bits → Option (TransCore Bits)
  advance_expire handle ms s = do
    t ← find handle s.timers
    some
        (record s { timers = put handle (record t { interval = add_size t.interval ms }) s.timers })

module _ {Bits : Type 0} ⦃B : Bitset Bits⦄ where
  -- `_exit_timer`
  unfoldable pub exit_timer :
      RetransTrunk → ℕ → Bool → ℕ → TransCore Bits → Outcome (TransCore Bits)
  unfolding packages_set report_failure kick_timer
  exit_timer trunk handle active error s = packages_set trunk.id false s >>> λ s1.
      or_fault (find handle s1.timers) >>> λ t.
      done (kick_timer handle t (report_failure trunk t.argument active error s1))

  -- `get_expire_interval` and `advance_expire` at the end of `_timer_callback`.
  unfoldable pub rearm : ℕ → TransCore Bits → Outcome (TransCore Bits)
  unfolding advance_expire
  rearm handle s =
      or_fault (find handle s.timers) >>> λ t. or_fault (advance_expire handle t.interval s)

  -- The rest of `_timer_callback` when the retries are not used up: send again, and double the
  -- interval.
  unfoldable pub retry : RetransTrunk → ℕ → Bool → ℕ → TransCore Bits → Outcome (TransCore Bits)
  unfolding sendto
  retry trunk handle ok error s =
      (if ok
        then done (sendto trunk.address trunk.buffer s)
        else exit_timer trunk handle true error s)
      >>> rearm handle

  -- `_timer_callback`, when the timer `handle` fires: `++retry_count > retry_limit` gives up.
  unfoldable pub timer_callback : ℕ → Bool → ℕ → TransCore Bits → Outcome (TransCore Bits)
  unfolding stun_group get_argument
  timer_callback handle ok error s = or_fault (get_argument handle s) >>> λ mission.
      or_fault (find mission s.missions) >>> λ old.
      let trunk = record old { retry_count = add_size old.retry_count 1 } in
      let s1 = record s { missions = put mission trunk s.missions } in
      if ltb trunk.retry_limit trunk.retry_count
      then exit_timer trunk handle true error (stun_group trunk mission s1)
      else retry trunk handle ok error s1

  -- `multiplex_timer::_crack_impl` ends a callback whose timer was marked: the timer goes.
  unfoldable pub after_callback : ℕ → TransCore Bits → TransCore Bits
  unfolding cancel_timer
  after_callback handle s = elim (find handle s.timers) [
    | none ↦ s
    | some t ↦ if t.kicked then cancel_timer handle s else s
  ]

  -- `cancel_io`: what the exception handler catches does not arise here, so the answer is `true`.
  unfoldable pub cancel_io : ℕ → Bool → ℕ → TransCore Bits → Outcome (Bool × TransCore Bits)
  cancel_io mission active error s = or_fault (find mission s.missions) >>> λ trunk.
      or_fault (received_test_and_set trunk.address trunk.id s.received) >>> λ r.
      let s1 = record s { received = r.1 } in
      if r.0
      then done (true, s1)
      else (exit_timer trunk trunk.timer active error s1 >>> λ s2. done (
        true,
        record s2 {
          missions = put mission (record trunk { retry_limit = size_mod - 1 }) s2.missions;
        },
      ))
