-- ===== src/Trans/GiveUp.antt =====
-- isu-net/src/trans_core.cpp: what happens when a packet's retries are used up.
use isu_net.Base.{
  Bool, Option-cases, [], add_size, arith, false, find, find-erase, find-put_self, if◌then◌else◌,
  inl, inr, ltb, none, put, refl, size_mod, some, true, ℕ, ◌++◌, ◌+◌, ◌<◌, ◌∙◌, ◌∷◌, ◌≡◌, ◌≤◌,
}
use isu_net.Bitmap.Interface.{Bitset}
use isu_net.Bitmap
use isu_net.Bitmap.Access.{set_lem}
use isu_net.Bitmap.Growth.{grown, test_and_set_fault}
use isu_net.Socket.{Sockaddr}
use isu_net.Trans.State.{
  done, RetransTrunk, Timer, TransCore, TransGroup, post_send_complete, failed_send_complete,
  send_faild, has_flag, Posted, message, BadSend,
}
use isu_net.Trans.Send.{packages_set}
use isu_net.Trans.Receive.{cancel_timer, on_ack}
use isu_net.Trans.Retry.{
  timer_callback, after_callback, exit_timer, stun_group, kick_timer, report_failure,
}
use isu_net.Trans.Backoff.{IsArmed}

abbrev pub failed : RetransTrunk → ℕ → BadSend
failed trunk mission = record { dest = trunk.address; memory = trunk.buffer; mission = mission }

abbrev pub failed_message : RetransTrunk → ℕ → Posted
failed_message trunk error = message (record {
  io_type = failed_send_complete;
  io_error = record { code = send_faild; system_error = error; mission = none };
  from = trunk.address;
  memory = some trunk.buffer;
  size = 0;
})

-- The trunk with one more retry counted.
abbrev counted : RetransTrunk → RetransTrunk
counted trunk = record trunk { retry_count = trunk.retry_count + 1 }

module _ {Bits : Type 0} ⦃B : Bitset Bits⦄ where
  -- What is told of a packet that is given up.
  pub record GivesUp (handle mission error : ℕ) (trunk : RetransTrunk) (s t : TransCore Bits)
      : Type 0 where
    pub calls : t.bad_sends ≡ (
        if s.has_bad_send
        then (if has_flag s.work_flag post_send_complete
            then failed trunk mission ∷ s.bad_sends
            else failed trunk mission ∷ failed trunk mission ∷ s.bad_sends)
        else s.bad_sends)
    pub posts : t.recver_port ≡ (
        if has_flag s.work_flag post_send_complete
        then s.recver_port ++ failed_message trunk error ∷ []
        else s.recver_port)
    pub window : t.sr_blance ≡ s.sr_blance
    pub unmarked : Bitmap.have t.packages trunk.id ≡ false
    pub gone : find handle (after_callback handle t).timers ≡ none

  set_defined :
      (bits : Bits) (id : ℕ)
      → id < grown (B.size bits)
      → (old : Bool) × (bits' : Bits) × (Bitmap.set bits id false ≡ some (old, bits'))
  set_defined bits id h = elim (Option-cases (Bitmap.set bits id false)) [
    | inl e ↦ absurd (omega (arith, ((test_and_set_fault bits id).1 false).0 e))
    | inr (r, e) ↦ (r.0, r.1, e)
  ]

  exits :
      (handle mission interval error : ℕ) (started : Bool) (trunk : RetransTrunk)
      (s : TransCore Bits) (old : Bool) (bits : Bits)
      → find handle s.timers
        ≡ some
            (record { argument = mission; interval = interval; started = started; kicked = false })
      → Bitmap.set s.packages trunk.id false ≡ some (old, bits)
      → exit_timer trunk handle true error s
        ≡ done (
            kick_timer handle
              (record {
                argument = mission;
                interval = interval;
                started = started;
                kicked = false;
              })
              (report_failure trunk mission true error (record s { packages = bits })))
  unfolding exit_timer packages_set
  exits handle mission interval error started trunk s old bits armed cleared =
      rw (cleared, exit_timer, packages_set) (rw (armed, exit_timer) refl)

  -- The state when `_exit_timer` is called.
  stunned : ℕ → RetransTrunk → TransCore Bits → TransCore Bits
  stunned mission trunk s =
      stun_group (counted trunk) mission
        (record s { missions = put mission (counted trunk) s.missions })

  stunned-same :
      (mission : ℕ) (trunk : RetransTrunk) (s : TransCore Bits)
      → ((stunned mission trunk s).timers ≡ s.timers)
        × ((stunned mission trunk s).packages ≡ s.packages)
  unfolding stunned stun_group
  stunned-same mission trunk s = ground arith

  callback_exits :
      (handle mission interval error : ℕ) (started ok : Bool) (trunk : RetransTrunk)
      (s : TransCore Bits)
      → IsArmed handle mission interval started trunk s
      → trunk.retry_limit ≤ trunk.retry_count
      → trunk.retry_count + 1 < size_mod
      → timer_callback handle ok error s
        ≡ exit_timer (counted trunk) handle true error (stunned mission trunk s)
  unfolding timer_callback stunned
  callback_exits handle mission interval error started ok trunk s a over small =
      rw (a.armed, timer_callback) (rw (a.known, timer_callback) (rw (counts, is_over) refl))
    where
      counts : add_size trunk.retry_count 1 ≡ trunk.retry_count + 1
      counts = omega arith

      is_over : ltb trunk.retry_limit (trunk.retry_count + 1) ≡ true
      is_over = ground arith

  abbrev given_up : ℕ → ℕ → ℕ → ℕ → Bool → RetransTrunk → Bits → TransCore Bits → TransCore Bits
  given_up handle mission interval error started trunk bits s =
      kick_timer handle
        (record { argument = mission; interval = interval; started = started; kicked = false })
        (report_failure (counted trunk) mission true error
          (record (stunned mission trunk s) { packages = bits }))

  after_kick :
      (handle : ℕ) (tm : Timer) (s : TransCore Bits)
      → find handle (after_callback handle (kick_timer handle tm s)).timers ≡ none
  unfolding after_callback kick_timer cancel_timer
  after_kick handle tm s = ground (
    arith,
    find-put_self handle (record tm { kicked = true }) s.timers,
    find-erase handle handle (put handle (record tm { kicked = true }) s.timers),
  )

  given_up-GivesUp :
      (handle mission interval error : ℕ) (started : Bool) (trunk : RetransTrunk)
      (s : TransCore Bits) (old : Bool) (bits : Bits)
      → Bitmap.set s.packages trunk.id false ≡ some (old, bits)
      → GivesUp handle mission error trunk s
          (given_up handle mission interval error started trunk bits s)
  unfolding kick_timer report_failure stunned stun_group
  given_up-GivesUp handle mission interval error started trunk s old bits cleared = record {
    calls = ground arith;
    posts = ground arith;
    window = ground arith;
    unmarked = ground (arith, (set_lem s.packages trunk.id false old bits cleared).1 trunk.id);
    gone =
        after_kick handle
          (record { argument = mission; interval = interval; started = started; kicked = false })
          (report_failure (counted trunk) mission true error
            (record (stunned mission trunk s) { packages = bits }));
  }

  -- A firing with no retries left, for an id in reach of `_packages`, ends well: the window is not
  -- given back, the id is no longer waiting, and the timer goes with the callback. The user's
  -- callback is called twice for the same packet; with `POST_SEND_COMPLETE`, it is called once and
  -- a failure message is posted as well.
  pub give_up :
      (handle mission interval error : ℕ) (started ok : Bool) (trunk : RetransTrunk)
      (s : TransCore Bits)
      → IsArmed handle mission interval started trunk s
      → trunk.retry_limit ≤ trunk.retry_count
      → trunk.retry_count + 1 < size_mod
      → trunk.id < grown (B.size s.packages)
      → (t : TransCore Bits) × (timer_callback handle ok error s ≡ done t)
        × GivesUp handle mission error trunk s t
  give_up handle mission interval error started ok trunk s a over small fits =
      let (old, bits, cleared) = set_defined s.packages trunk.id fits in
      (
        given_up handle mission interval error started trunk bits s,
        callback_exits handle mission interval error started ok trunk s a over small
            ∙ exits handle mission interval error started (counted trunk) (stunned mission trunk s)
                old bits (rw (stunned-same mission trunk s).0 a.armed)
                (rw (stunned-same mission trunk s).1 cleared),
        given_up-GivesUp handle mission interval error started trunk s old bits cleared,
      )

  -- The place of a packet that was given up is lost to the window: an acknowledgement that comes
  -- later for the id changes nothing at all.
  pub late_ack :
      (handle mission interval error : ℕ) (started ok : Bool) (trunk : RetransTrunk)
      (s t : TransCore Bits) (from : Sockaddr) (head : TransGroup) (ret : ℕ)
      → IsArmed handle mission interval started trunk s
      → trunk.retry_limit ≤ trunk.retry_count
      → trunk.retry_count + 1 < size_mod
      → trunk.id < grown (B.size s.packages)
      → timer_callback handle ok error s ≡ done t
      → head.id ≡ trunk.id
      → (on_ack from head ret t ≡ done t) × (t.sr_blance ≡ s.sr_blance)
  unfolding on_ack
  late_ack handle mission interval error started ok trunk s t from head ret a over small fits e
        same =
      let (u, run, g) =
        give_up handle mission interval error started ok trunk s a over small fits in
      ground (arith, run, g.unmarked, g.window)
