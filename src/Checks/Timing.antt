-- ===== src/Checks/Timing.antt =====
-- A timer of ex-utility/src/multiplex_timer.cpp that is asked to end while its callback runs.
use isu_net.Base.{[], false, find, none, put, refl, some, true, ℕ, ◌∷◌, ◌≡◌, ◌≢◌}
use isu_net.Timers.{
  MultiplexTimer, timer_running, started, contains, remove_one, compare_exchange, ready_timer,
  start_timer, cancel_timer_when_callback_exit, crack, crack_exit, complete_exit,
}
use isu_net.Timers.Lifecycle.{Reach, starts, readied, armed, asked, fired, no_use_after_delete}

abbrev ending : MultiplexTimer
ending = record {
  timers = (7, record { than = 1; interval = 64; argument = 5; native_timer = 3 }) ∷ [];
  timer_state = timer_running;
  native = (3, 7) ∷ [];
  running = 7 ∷ [];
  posted = [];
  cleaned = [];
}

ending-Reach : Reach ending
unfolding started ready_timer start_timer crack cancel_timer_when_callback_exit compare_exchange
    contains find put
ending-Reach =
    asked
      (fired (armed (readied starts 7 0 5 64 refl) 7 3 false refl (λ i e. absurd (cc)) refl) 3 7
        refl refl)
      7 refl

no_use_after_delete_example :
    ((i h : ℕ) → find i ending.native ≡ some h → crack h ending ≢ none)
    × ((h : ℕ) → contains h ending.running ≡ true → crack_exit h ending ≢ none)
    × (complete_exit ending ≢ none)
    × ((h : ℕ) → contains h (remove_one h ending.posted) ≡ false)
no_use_after_delete_example = no_use_after_delete ending-Reach
