-- ===== src/Trans/Backoff.antt =====
-- isu-net/src/trans_core.cpp, `_timer_callback`: the schedule of retransmissions of a packet that
-- nobody acknowledges.
use isu_net.Base.{
  Bool, add_size, ap, arith, false, find, find-put_self, ltb, pow-suc, pow_pos, put, refl,
  replicate, replicate-append_cons, size_mod, some, suc, true, zero, ℕ, ◌*◌, ◌++◌, ◌+◌, ◌<◌, ◌^◌,
  ◌∙◌, ◌∷◌, ◌≡◌, ◌≤◌,
}
use isu_net.Bitmap.Interface.{Bitset}
use isu_net.Trans.State.{Outcome, done, ◌>>>◌, RetransTrunk, TransCore}
use isu_net.Trans.Retry.{rearm, retry, timer_callback, after_callback}

fits : (p interval : ℕ) → 1 ≤ p → interval * (p * 2) < size_mod → interval * 2 < size_mod
fits p interval h l = grind arith

module _ {Bits : Type 0} ⦃B : Bitset Bits⦄ where
  -- The timer fires `n` times in a row, each time with a `sendto` that succeeds.
  abbrev pub fires : ℕ → ℕ → ℕ → TransCore Bits → Outcome (TransCore Bits)
  fires zero handle error s = done s
  fires (suc n) handle error s =
      timer_callback handle true error s >>> λ t. fires n handle error (after_callback handle t)

  -- The timer `handle` runs with the interval, for the mission, which has the trunk.
  pub record IsArmed (handle mission interval : ℕ) (started : Bool) (trunk : RetransTrunk)
      (s : TransCore Bits) : Type 0 where
    pub armed :
        find handle s.timers
        ≡ some
            (record { argument = mission; interval = interval; started = started; kicked = false })
    pub known : find mission s.missions ≡ some trunk

  -- The state after one retransmission.
  resent : ℕ → ℕ → ℕ → Bool → RetransTrunk → TransCore Bits → TransCore Bits
  resent handle mission interval started trunk s = record s {
    timers =
        put handle
          (record {
            argument = mission;
            interval = interval * 2;
            started = started;
            kicked = false;
          })
          s.timers;
    missions = put mission (record trunk { retry_count = trunk.retry_count + 1 }) s.missions;
    sent = (trunk.address, trunk.buffer) ∷ s.sent;
  }

  callback_resends :
      (handle mission interval error : ℕ) (started : Bool) (trunk : RetransTrunk)
      (s : TransCore Bits)
      → IsArmed handle mission interval started trunk s
      → trunk.retry_count + 1 ≤ trunk.retry_limit
      → trunk.retry_limit < size_mod
      → interval * 2 < size_mod
      → timer_callback handle true error s ≡ done (resent handle mission interval started trunk s)
  unfolding timer_callback retry rearm resent
  callback_resends handle mission interval error started trunk s a h l w =
      rw (a.armed, timer_callback)
        (rw (a.known, timer_callback) (rw (counts, not_over, doubles) refl))
    where
      counts : add_size trunk.retry_count 1 ≡ trunk.retry_count + 1
      counts = omega arith

      not_over : ltb trunk.retry_limit (trunk.retry_count + 1) ≡ false
      not_over = ground arith

      doubles : add_size interval interval ≡ interval * 2
      doubles = omega arith

  resent-IsArmed :
      (handle mission interval : ℕ) (started : Bool) (trunk : RetransTrunk) (s : TransCore Bits)
      → IsArmed handle mission
          (interval * 2)
          started
          (record trunk { retry_count = trunk.retry_count + 1 })
          (resent handle mission interval started trunk s)
  unfolding resent
  resent-IsArmed handle mission interval started trunk s = record {
    armed = find-put_self handle _ s.timers;
    known = find-put_self mission _ s.missions;
  }

  after_callback-armed :
      (handle mission interval : ℕ) (started : Bool) (trunk : RetransTrunk) (s : TransCore Bits)
      → IsArmed handle mission interval started trunk s
      → after_callback handle s ≡ s
  unfolding after_callback
  after_callback-armed handle mission interval started trunk s a = rw (a.armed, after_callback)

  -- While the retries are not used up and the retry limit and the last interval fit 32 bits, `n`
  -- firings in a row of a packet's timer, which is not marked to go, in each of which `sendto`
  -- succeeds, all return: they send the packet `n` times more, count `n` retries, and double the
  -- interval each time.
  pub backoff :
      (n handle mission interval error : ℕ) (started : Bool) (trunk : RetransTrunk)
      (s : TransCore Bits)
      → IsArmed handle mission interval started trunk s
      → trunk.retry_count + n ≤ trunk.retry_limit
      → trunk.retry_limit < size_mod
      → interval * 2 ^ n < size_mod
      → (t : TransCore Bits) × (fires n handle error s ≡ done t)
        × IsArmed handle mission
            (interval * 2 ^ n)
            started
            (record trunk { retry_count = trunk.retry_count + n })
            t
        × (t.sent ≡ replicate n (trunk.address, trunk.buffer) ++ s.sent)
        × (t.bad_sends ≡ s.bad_sends)
  unfolding resent
  backoff zero handle mission interval error started trunk s a h l w = (
    s,
    refl,
    record { armed = ground (arith, a.armed); known = ground (arith, a.known) },
    refl,
    refl,
  )
  backoff (suc n) handle mission interval error started trunk s a h l w =
      let s1 = resent handle mission interval started trunk s in
      let (t, run, armed, all_sent, none_bad) =
        backoff n handle mission (interval * 2) error started
          (record trunk { retry_count = trunk.retry_count + 1 }) s1
          (resent-IsArmed handle mission interval started trunk s) (omega arith) l
          (omega (arith, ap (λ q. interval * q) (pow-suc 2 n))) in
      (
        t,
        rw
            (callback_resends handle mission interval error started trunk s a (omega arith) l (
              fits (2 ^ n) interval (pow_pos n)
                (omega (arith, ap (λ q. interval * q) (pow-suc 2 n)))))
            (rw
              (after_callback-armed handle mission (interval * 2) started _ s1
                (resent-IsArmed handle mission interval started trunk s))
              run),
        record {
          armed = ground (arith, armed.armed, ap (λ q. interval * q) (pow-suc 2 n));
          known = ground (arith, armed.known);
        },
        all_sent ∙ replicate-append_cons n (trunk.address, trunk.buffer) s.sent,
        none_bad,
      )
