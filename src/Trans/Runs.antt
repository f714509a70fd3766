-- ===== src/Trans/Runs.antt =====
-- isu-net/src/trans_core.cpp as a whole: the application, the receive thread and the timers take
-- turns, one operation at a time, in any order; but the test of the window and its decrement are
-- apart, since senders race for it. Every history of operations that end is a `Reach`.
use isu_net.Base.{
  Bool, List, [], arith, if◌then◌else◌, refl, size_mod, suc, ℕ, ◌%◌, ◌+◌, ◌∷◌, ◌≡◌, ◌≤◌,
}
use isu_net.Bitmap.Interface.{Bitset}
use isu_net.Socket.{Sockaddr}
use isu_net.Trans.State.{
  done, Packet, RetransControl, Uninit, IoResult, CompleteIoResult, TransCore, init, set_work_flag,
}
use isu_net.Trans.Send.{assembile_send, take_place, send_entered, send_assembiled}
use isu_net.Trans.Receive.{on_datagram, recv}
use isu_net.Trans.Retry.{timer_callback, after_callback, cancel_io}
use isu_net.Trans.Seen.{deliveries, queued, seen}
use isu_net.Trans.Keeping.{
  send_assembiled-effect, send_taken-effect, assembile_send-Keeps, timer_callback-Keeps,
  after_callback-Keeps,
}
use isu_net.Trans.Effects.{
  cancel_io-effect, on_datagram-effect, recv-effect, set_work_flag-Keeps, first_ack,
}

module _ {Bits : Type 0} ⦃B : Bitset Bits⦄ where
  -- A state, the results that `recv` has returned, newest first, the number of packets sent by
  -- `send_assembiled`, and the number of first acknowledgements.
  pub data Reach : TransCore Bits → List CompleteIoResult → ℕ → ℕ → Type 0 where
    started : (callback : Bool) → Reach (init callback) [] 0 0
    flagged :
        {s : TransCore Bits} {out : List CompleteIoResult} {n k : ℕ}
        → Reach s out n k
        → (flag : ℕ) → Reach (set_work_flag flag s) out n k
    assembled :
        {s t : TransCore Bits} {out : List CompleteIoResult} {n k : ℕ}
        → Reach s out n k
        → (junk : Uninit) (ctrl : RetransControl) (payload : List ℕ) (addr : Sockaddr)
          (r : IoResult × Packet)
        → assembile_send junk ctrl payload addr s ≡ done (r, t)
        → Reach t out n k
    sent :
        {s t : TransCore Bits} {out : List CompleteIoResult} {n k : ℕ}
        → Reach s out n k
        → (error : ℕ) (p : Packet) (addr : Sockaddr) (r : IoResult)
        → send_assembiled error p addr s ≡ done (r, t)
        → Reach t out (suc n) k
    -- The thread found the window open at some earlier moment, before others took its last place.
    raced :
        {s t : TransCore Bits} {out : List CompleteIoResult} {n k : ℕ}
        → Reach s out n k
        → (error : ℕ) (p : Packet) (addr : Sockaddr) (r : IoResult)
        → send_entered error p addr (take_place s) ≡ done (r, t)
        → Reach t out (suc n) k
    came :
        {s t : TransCore Bits} {out : List CompleteIoResult} {n k : ℕ}
        → Reach s out n k
        → (from : Sockaddr) (p : Packet) (ret error : ℕ) → on_datagram from p ret error s ≡ done t
        → Reach t out n (k + first_ack p s)
    taken :
        {s t : TransCore Bits} {out : List CompleteIoResult} {n k : ℕ}
        → Reach s out n k
        → (r : CompleteIoResult) → recv s ≡ done (r, t)
        → Reach t (r ∷ out) n k
    fired :
        {s t : TransCore Bits} {out : List CompleteIoResult} {n k : ℕ}
        → Reach s out n k
        → (handle : ℕ) (ok : Bool) (error : ℕ) → timer_callback handle ok error s ≡ done t
        → Reach (after_callback handle t) out n k
    cancelled :
        {s t : TransCore Bits} {out : List CompleteIoResult} {n k : ℕ}
        → Reach s out n k
        → (mission : ℕ) (active : Bool) (error : ℕ) (b : Bool)
        → cancel_io mission active error s ≡ done (b, t)
        → Reach t out n k

  -- In every history, the window and the packets sent make up 773 and the first acknowledgements,
  -- modulo 2^32, since the window is a `size_t` that wraps around, also below 0 when senders race
  -- for the last place: a place is taken by each packet handed to `send_assembiled`, and given back
  -- only by the first acknowledgement of an id that is marked; retries, give-ups and cancelling
  -- change nothing.
  pub window_conserved :
      {s : TransCore Bits} {out : List CompleteIoResult} {n k : ℕ}
      → Reach s out n k
      → (s.sr_blance + n) % size_mod ≡ (773 + k) % size_mod
  unfolding init
  window_conserved (started callback) = refl
  window_conserved (flagged {s = s} r flag) =
      omega (arith, window_conserved r, (set_work_flag-Keeps flag s).window)
  window_conserved (assembled {s = s} {t = t} r junk ctrl payload addr x e) =
      omega
        (arith, window_conserved r, (assembile_send-Keeps junk ctrl payload addr s t x e).window)
  window_conserved (sent {s = s} {t = t} r error p addr x e) =
      omega (arith, window_conserved r, (send_assembiled-effect error p addr s t x e).1)
  window_conserved (raced {s = s} {t = t} r error p addr x e) =
      omega (arith, window_conserved r, (send_taken-effect error p addr s t x e).1)
  window_conserved (came {s = s} {t = t} r from p ret error e) =
      omega (arith, window_conserved r, (on_datagram-effect from p ret error s t e).0)
  window_conserved (taken {s = s} {t = t} r x e) =
      omega (arith, window_conserved r, (recv-effect s t x e).0)
  window_conserved (fired {s = s} {t = t} r handle ok error e) = omega (
    arith,
    window_conserved r,
    (timer_callback-Keeps handle ok error s t e).window,
    (after_callback-Keeps handle t).window,
  )
  window_conserved (cancelled {s = s} {t = t} r mission active error b e) =
      omega (arith, window_conserved r, (cancel_io-effect mission active error s t b e).0)

  -- The invariant of deliveries: what is queued or was returned is accounted for by a mark.
  delivered_marked :
      {s : TransCore Bits} {out : List CompleteIoResult} {n k : ℕ}
      → Reach s out n k
      → (a : Sockaddr) (i : ℕ)
      → queued a i s.recver_port + deliveries a i out ≤ (if seen a i s.received then 1 else 0)
  unfolding init queued deliveries
  delivered_marked (started callback) a i = ground arith
  delivered_marked (flagged {s = s} r flag) a i =
      let k = set_work_flag-Keeps flag s in
      ground (arith, delivered_marked r a i, k.received, k.queue a i)
  delivered_marked (assembled {s = s} {t = t} r junk ctrl payload addr x e) a i =
      let k = assembile_send-Keeps junk ctrl payload addr s t x e in
      ground (arith, delivered_marked r a i, k.received, k.queue a i)
  delivered_marked (sent {s = s} {t = t} r error p addr x e) a i =
      ground (arith, delivered_marked r a i, send_assembiled-effect error p addr s t x e)
  delivered_marked (raced {s = s} {t = t} r error p addr x e) a i =
      ground (arith, delivered_marked r a i, send_taken-effect error p addr s t x e)
  delivered_marked (came {s = s} {t = t} r from p ret error e) a i =
      ground (arith, delivered_marked r a i, (on_datagram-effect from p ret error s t e).1 a i)
  delivered_marked (taken {s = s} {t = t} r x e) a i =
      let k = recv-effect s t x e in ground (arith, delivered_marked r a i, k.1, k.2 a i)
  delivered_marked (fired {s = s} {t = t} r handle ok error e) a i =
      let k = timer_callback-Keeps handle ok error s t e in
      let l = after_callback-Keeps handle t in
      ground (arith, delivered_marked r a i, k.received, k.queue a i, l.received, l.queue a i)
  delivered_marked (cancelled {s = s} {t = t} r mission active error b e) a i =
      ground (arith, delivered_marked r a i, (cancel_io-effect mission active error s t b e).1 a i)

  -- In every history, whatever the network duplicates and however the operations are interleaved,
  -- `recv` returns a packet at most once for each id and each key of a sender; and a packet that is
  -- still queued has not been returned before.
  pub delivered_once :
      {s : TransCore Bits} {out : List CompleteIoResult} {n k : ℕ}
      → Reach s out n k
      → (a : Sockaddr) (i : ℕ)
      → (deliveries a i out ≤ 1) × (queued a i s.recver_port + deliveries a i out ≤ 1)
  delivered_once r a i = ground (arith, delivered_marked r a i)
