-- ===== src/Timers.antt =====
-- ex-utility/src/multiplex_timer.cpp: many timers over the system's timer queue and one completion
-- port. The store of `_timer_args` is reached through handles, which `new` gives and `delete` takes
-- back; the native timers, the callbacks that run on the system's threads, and the packets in the
-- completion port are part of the state. `none` is a use of a handle that was deleted.
pub mod Safety
pub mod Lifecycle
use isu_net.Base.{
  Bool, List, Option, [], add_size, erase, false, find, if◌then◌else◌, length, none, not, put, some,
  true, ℕ, ◌&&◌, ◌++◌, ◌==◌, ◌>>=◌, ◌∷◌,
}

abbrev pub kick_down_the_ladder : ℕ
kick_down_the_ladder = 1

abbrev pub kick_down_processing : ℕ
kick_down_processing = 16

pub record TimerArgs : Type 0 where
  pub than : ℕ
  pub interval : ℕ
  pub argument : ℕ
  pub native_timer : ℕ

pub data TimerState : Type 0 where
  timer_killing : TimerState
  timer_running : TimerState

abbrev pub is_killing : TimerState → Bool
is_killing timer_killing = true
is_killing timer_running = false

-- `native` has the system's timers, each with the handle that it passes to `_crack`; a
-- `_timer_args` knows the one that was created last. `running` has one entry for each callback that
-- runs, `posted` the `timer_exit` packets, oldest first, `cleaned` the arguments passed to the
-- user's clean-up, newest first.
pub record MultiplexTimer : Type 0 where
  pub timers : List (ℕ × TimerArgs)
  pub timer_state : TimerState
  pub native : List (ℕ × ℕ)
  pub running : List ℕ
  pub posted : List ℕ
  pub cleaned : List ℕ

-- After `_init`.
unfoldable pub started : MultiplexTimer
started = record {
  timers = [];
  timer_state = timer_running;
  native = [];
  running = [];
  posted = [];
  cleaned = [];
}

unfoldable pub contains : ℕ → List ℕ → Bool
contains h [] = false
contains h (x ∷ xs) = if x == h then true else contains h xs

unfoldable pub remove_one : ℕ → List ℕ → List ℕ
remove_one h [] = []
remove_one h (x ∷ xs) = if x == h then xs else x ∷ remove_one h xs

-- `InterlockedCompareExchange`: the value before, and the value after.
unfoldable pub compare_exchange : ℕ → ℕ → ℕ → ℕ × ℕ
compare_exchange value exchange comparand = (value, if value == comparand then exchange else value)

unfoldable pub queue_size : MultiplexTimer → ℕ
queue_size s = length s.timers

-- `_alloc_handle` and `ready_timer`, with the address that `new` gives, and what nobody sets in
-- `native_timer`.
unfoldable pub ready_timer : ℕ → ℕ → ℕ → ℕ → MultiplexTimer → MultiplexTimer
ready_timer handle unset argument proid s = record s {
  timers =
      put handle (record { than = 0; interval = proid; argument = argument; native_timer = unset })
        s.timers;
}

-- `_cleanup_user_argument`, with a clean-up function.
unfoldable pub cleanup_user_argument : ℕ → MultiplexTimer → MultiplexTimer
cleanup_user_argument argument s = record s { cleaned = argument ∷ s.cleaned }

-- `_cleanup_handle` and `_cleanup_handle_impl`.
unfoldable pub cleanup_handle : ℕ → MultiplexTimer → MultiplexTimer
cleanup_handle handle s = record s { timers = erase handle s.timers }

-- `_delete_timer` of one of the system's timers; it waits for the callbacks of the timer, so it is
-- over only when none runs.
unfoldable pub delete_timer : ℕ → MultiplexTimer → MultiplexTimer
delete_timer native_timer s = record s { native = erase native_timer s.native }

-- `start_timer`, with the timer that `CreateTimerQueueTimer` gives, if it does: whether it threw. A
-- timer that was created before stays, and is forgotten.
unfoldable pub start_timer : ℕ → Option ℕ → MultiplexTimer → Option (Bool × MultiplexTimer)
unfolding cleanup_handle
start_timer handle created s = find handle s.timers >>= λ args. elim created [
  | none ↦ some (true, cleanup_handle handle s)
  | some native_timer ↦ some (
    false,
    record s {
      timers = put handle (record args { native_timer = native_timer }) s.timers;
      native = put native_timer handle s.native;
    },
  )
]

unfoldable pub cancel_timer : ℕ → MultiplexTimer → Option MultiplexTimer
unfolding delete_timer cleanup_user_argument cleanup_handle
cancel_timer hand s = find hand s.timers >>= λ args.
    some
      (cleanup_handle hand (cleanup_user_argument args.argument (delete_timer args.native_timer s)))

unfoldable pub kill_timer : ℕ → MultiplexTimer → Option MultiplexTimer
unfolding delete_timer
kill_timer hand s = find hand s.timers >>= λ args. some (delete_timer args.native_timer s)

unfoldable pub cancel_timer_when_callback_exit : ℕ → MultiplexTimer → Option MultiplexTimer
unfolding compare_exchange
cancel_timer_when_callback_exit hand s = find hand s.timers >>= λ args. some (record s {
  timers =
      put hand (record args { than = (compare_exchange args.than kick_down_the_ladder 0).1 })
        s.timers;
})

unfoldable pub advance_expire : ℕ → ℕ → MultiplexTimer → Option MultiplexTimer
advance_expire hand ms s = find hand s.timers >>= λ args.
    some (record s {
      timers = put hand (record args { interval = add_size args.interval ms }) s.timers;
    })

-- `_crack`, up to the user's callback: a timer on its way out is passed over.
unfoldable pub crack : ℕ → MultiplexTimer → Option MultiplexTimer
crack handle_ptr s = find handle_ptr s.timers >>= λ args.
    if args.than == kick_down_processing
    then some s
    else some (record s { running = handle_ptr ∷ s.running })

-- `_crack_impl` behind the callback. The first exchange writes nothing; the second is the one that
-- only one thread wins.
unfoldable pub crack_exit : ℕ → MultiplexTimer → Option MultiplexTimer
unfolding compare_exchange
crack_exit handle s = find handle s.timers >>= λ args.
    let pre = compare_exchange args.than kick_down_processing kick_down_the_ladder in
    let post = (pre.0 == kick_down_the_ladder) && not (is_killing s.timer_state) in
    some (record s {
      timers = put handle (record args { than = pre.1 }) s.timers;
      running = remove_one handle s.running;
      posted = if post then s.posted ++ handle ∷ [] else s.posted;
    })

-- `_complete_io_impl` with the oldest `timer_exit` packet.
unfoldable pub complete_exit : MultiplexTimer → Option MultiplexTimer
unfolding delete_timer cleanup_user_argument cleanup_handle
complete_exit s = elim s.posted [
  | [] ↦ some s
  | ◌∷◌ handle rest ↦ find handle s.timers >>= λ args. some (
      cleanup_handle handle (
        cleanup_user_argument args.argument
          (delete_timer args.native_timer (record s { posted = rest }))))
]
