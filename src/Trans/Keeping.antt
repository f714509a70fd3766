-- ===== src/Trans/Keeping.antt =====
-- isu-net/src/trans_core.cpp: what the sending side and the timers do to the window, the record of
-- received ids and the queue.
use isu_net.Base.{
  Bool, Bool-cases, List, add_size, ap, arith, false, find, if◌then◌else◌, inl, inr, ltb, put,
  size_mod, sym, true, ℕ, ◌%◌, ◌+◌, ◌∙◌, ◌≡◌,
}
use isu_net.Bitmap.Interface.{Bitset}
use isu_net.Bitmap
use isu_net.Socket.{Sockaddr}
use isu_net.Trans.State.{
  done, or_fault, TransGroup, Packet, RetransControl, RetransTrunk, Uninit, IoResult, TransCore,
  sendto, >>>-eq-done,
}
use isu_net.Trans.Send.{
  assembile_send, take_place, enter_trans, send_entered, send_assembiled, packages_set,
  get_argument,
}
use isu_net.Trans.Receive.{completion, on_ack}
use isu_net.Trans.Retry.{exit_timer, rearm, retry, timer_callback, after_callback, stun_group}
use isu_net.Trans.Seen.{queued, queued-append_one}

module _ {Bits : Type 0} ⦃B : Bitset Bits⦄ where
  -- The parts of the state that only the receiving of data and `cancel_io` touch, and the window.
  pub record Keeps (s t : TransCore Bits) : Type 0 where
    pub received : t.received ≡ s.received
    pub window : t.sr_blance ≡ s.sr_blance
    pub queue : (a : Sockaddr) (i : ℕ) → queued a i t.recver_port ≡ queued a i s.recver_port

  pub packages_set-Keeps :
      (id : ℕ) (v : Bool) (s t : TransCore Bits) → packages_set id v s ≡ done t → Keeps s t
  unfolding packages_set
  packages_set-Keeps id v s t e = record {
    received = ground arith;
    window = ground arith;
    queue = λ a i. ground arith;
  }

  send_entered-effect :
      (error : ℕ) (p : Packet) (addr : Sockaddr) (s t : TransCore Bits) (r : IoResult)
      → send_entered error p addr s ≡ done (r, t)
      → (t.received ≡ s.received) × (t.sr_blance ≡ s.sr_blance) × (t.recver_port ≡ s.recver_port)
  unfolding send_entered
  send_entered-effect error p addr s t r e = ground arith

  -- A packet of a thread that found the window open takes a place, be it open still or not.
  pub send_taken-effect :
      (error : ℕ) (p : Packet) (addr : Sockaddr) (s t : TransCore Bits) (r : IoResult)
      → send_entered error p addr (take_place s) ≡ done (r, t)
      → (t.received ≡ s.received)
        × ((t.sr_blance + 1) % size_mod ≡ s.sr_blance % size_mod)
        × (t.recver_port ≡ s.recver_port)
  unfolding take_place
  send_taken-effect error p addr s t r e =
      let k = send_entered-effect error p addr (take_place s) t r e in
      (k.0, omega (arith, k.1), k.2)

  -- An assembled packet takes a place in the window when it is sent, and nothing else of these.
  pub send_assembiled-effect :
      (error : ℕ) (p : Packet) (addr : Sockaddr) (s t : TransCore Bits) (r : IoResult)
      → send_assembiled error p addr s ≡ done (r, t)
      → (t.received ≡ s.received)
        × ((t.sr_blance + 1) % size_mod ≡ s.sr_blance % size_mod)
        × (t.recver_port ≡ s.recver_port)
  unfolding send_assembiled enter_trans
  send_assembiled-effect error p addr s t r e =
      let (s1, first, rest) = >>>-eq-done (enter_trans s) (send_entered error p addr) e in
      let one : s1 ≡ take_place s = ground arith in
      send_taken-effect error p addr s t r (ap (send_entered error p addr) (sym one) ∙ rest)

  pub assembile_send-Keeps :
      (junk : Uninit) (ctrl : RetransControl) (payload : List ℕ) (addr : Sockaddr)
      (s t : TransCore Bits) (r : IoResult × Packet)
      → assembile_send junk ctrl payload addr s ≡ done (r, t)
      → Keeps s t
  unfolding assembile_send
  assembile_send-Keeps junk ctrl payload addr s t r e = record {
    received = ground arith;
    window = ground arith;
    queue = λ a i. ground arith;
  }

  -- An acknowledgement opens the window by one, as a `size_t`, when the id's bit is set, and queues
  -- no delivery.
  pub on_ack-effect :
      (from : Sockaddr) (head : TransGroup) (ret : ℕ) (s t : TransCore Bits)
      → on_ack from head ret s ≡ done t
      → (t.received ≡ s.received)
        × (t.sr_blance
            ≡ (if Bitmap.have s.packages head.id then add_size s.sr_blance 1 else s.sr_blance))
        × ((a : Sockaddr) (i : ℕ) → queued a i t.recver_port ≡ queued a i s.recver_port)
  unfolding on_ack completion queued
  on_ack-effect from head ret s t e =
      (ground arith, ground arith, λ a i. grind (arith, queued-append_one))

  pub exit_timer-Keeps :
      (trunk : RetransTrunk) (handle : ℕ) (active : Bool) (error : ℕ) (s t : TransCore Bits)
      → exit_timer trunk handle active error s ≡ done t
      → Keeps s t
  unfolding exit_timer completion queued
  exit_timer-Keeps trunk handle active error s t e = record {
    received = ground arith;
    window = ground arith;
    queue = λ a i. grind (arith, queued-append_one);
  }

  pub stun_group-Keeps :
      (trunk : RetransTrunk) (mission : ℕ) (s : TransCore Bits)
      → Keeps s (stun_group trunk mission s)
  unfolding stun_group
  stun_group-Keeps trunk mission s = record {
    received = ground arith;
    window = ground arith;
    queue = λ a i. ground arith;
  }

  pub Keeps-trans : {s t u : TransCore Bits} → Keeps s t → Keeps t u → Keeps s u
  Keeps-trans h k = record {
    received = k.received ∙ h.received;
    window = k.window ∙ h.window;
    queue = λ a i. k.queue a i ∙ h.queue a i;
  }

  pub rearm-Keeps : (handle : ℕ) (s t : TransCore Bits) → rearm handle s ≡ done t → Keeps s t
  unfolding rearm
  rearm-Keeps handle s t e = record {
    received = ground arith;
    window = ground arith;
    queue = λ a i. ground arith;
  }

  pub retry-Keeps :
      (trunk : RetransTrunk) (handle : ℕ) (ok : Bool) (error : ℕ) (s t : TransCore Bits)
      → retry trunk handle ok error s ≡ done t
      → Keeps s t
  unfolding retry
  retry-Keeps trunk handle true error s t e =
      let k = rearm-Keeps handle (sendto trunk.address trunk.buffer s) t e in
      record { received = k.received; window = k.window; queue = k.queue }
  retry-Keeps trunk handle false error s t e =
      let (s1, first, rest) = >>>-eq-done (exit_timer trunk handle true error s) (rearm handle) e in
      Keeps-trans (exit_timer-Keeps trunk handle true error s s1 first)
        (rearm-Keeps handle s1 t rest)

  -- After the two lookups, the callback gives up or tries again.
  pub callback_with-Keeps :
      (mission : ℕ) (trunk : RetransTrunk) (handle : ℕ) (ok : Bool) (error : ℕ)
      (s t : TransCore Bits)
      → (if ltb trunk.retry_limit trunk.retry_count
          then exit_timer trunk handle true error (stun_group trunk mission s)
          else retry trunk handle ok error s)
        ≡ done t
      → Keeps s t
  callback_with-Keeps mission trunk handle ok error s t e =
      elim (Bool-cases (ltb trunk.retry_limit trunk.retry_count)) [
        | inl over ↦
            Keeps-trans (stun_group-Keeps trunk mission s) (
              exit_timer-Keeps trunk handle true error (stun_group trunk mission s) t
                (rw over at e))
        | inr more ↦ retry-Keeps trunk handle ok error s t (rw more at e)
      ]

  pub timer_callback-Keeps :
      (handle : ℕ) (ok : Bool) (error : ℕ) (s t : TransCore Bits)
      → timer_callback handle ok error s ≡ done t
      → Keeps s t
  unfolding timer_callback
  timer_callback-Keeps handle ok error s t e =
      let (mission, first, rest) = >>>-eq-done (or_fault (get_argument handle s)) _ e in
      let (old, second, last) = >>>-eq-done (or_fault (find mission s.missions)) _ rest in
      let k =
        callback_with-Keeps mission (record old { retry_count = add_size old.retry_count 1 }) handle
          ok error
          (record s {
            missions =
                put mission (record old { retry_count = add_size old.retry_count 1 }) s.missions;
          })
          t last in
      record { received = k.received; window = k.window; queue = k.queue }

  pub after_callback-Keeps : (handle : ℕ) (s : TransCore Bits) → Keeps s (after_callback handle s)
  unfolding after_callback
  after_callback-Keeps handle s = record {
    received = ground arith;
    window = ground arith;
    queue = λ a i. ground arith;
  }
