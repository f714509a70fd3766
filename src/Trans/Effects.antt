-- ===== src/Trans/Effects.antt =====
-- isu-net/src/trans_core.cpp: what arrivals, `recv` and `cancel_io` do to the window, the record of
-- received ids and the completion port.
use isu_net.Base.{
  Bool, Bool-cases, arith, find, if◌then◌else◌, inl, inr, ltb, mul_size, refl, size_mod, true, ℕ,
  ◌%◌, ◌&&◌, ◌+◌, ◌≡◌, ◌≤◌,
}
use isu_net.Bitmap.Interface.{Bitset}
use isu_net.Bitmap
use isu_net.Socket.{Sockaddr}
use isu_net.Trans.State.{
  done, or_fault, Packet, CompleteIoResult, TransCore, received_test_and_set, set_work_flag,
  >>>-eq-done, or_fault-eq-done, has_flag, package_from_multicast_addr, slice_with_acks,
}
use isu_net.Trans.Receive.{
  arrived, completion, deliver, accept, on_data, on_datagram, recv, send_ack,
}
use isu_net.Trans.Retry.{exit_timer, cancel_io}
use isu_net.Trans.Seen.{
  is_delivery, queued, queued-append_one, seen, seen-same_key, received_test_and_set_lem,
}
use isu_net.Trans.Keeping.{Keeps, on_ack-effect, exit_timer-Keeps}

module _ {Bits : Type 0} ⦃B : Bitset Bits⦄ where
  -- From `s` to `t` the packets that are newly marked as seen make up for the newly queued ones.
  abbrev pub Delivers : TransCore Bits → TransCore Bits → Type 0
  Delivers s t =
      (t.sr_blance ≡ s.sr_blance)
      × ((a : Sockaddr) (i : ℕ)
          → queued a i t.recver_port + (if seen a i s.received then 1 else 0)
            ≤ queued a i s.recver_port + (if seen a i t.received then 1 else 0))

  deliver-Delivers :
      (from : Sockaddr) (p : Packet) (ret error : ℕ) (s t : TransCore Bits)
      → deliver from p ret error s ≡ done t
      → Delivers s t
  unfolding deliver completion queued
  deliver-Delivers from p ret error s t e =
      let (r, first, rest) =
        >>>-eq-done (or_fault (received_test_and_set from p.head.id s.received)) _ e in
      let (old, marked) =
        received_test_and_set_lem from p.head.id s.received r.1 r.0 (or_fault-eq-done _ first) in
      (
        ground arith,
        λ a i. ground (
          arith,
          old,
          marked a i,
          seen-same_key from a p.head.id s.received,
          queued-append_one a i s.recver_port (arrived from p ret error),
        ),
      )

  accept-Delivers :
      (from : Sockaddr) (p : Packet) (ret error : ℕ) (s t : TransCore Bits)
      → accept from p ret error s ≡ done t
      → Delivers s t
  unfolding accept
  accept-Delivers from p ret error s t e =
      elim (Bool-cases (has_flag p.head.magic package_from_multicast_addr)) [
        | inl group ↦ deliver-Delivers from p ret error s t (rw group at e)
        | inr single ↦ deliver-Delivers from p ret error (send_ack from p.head s) t (rw single at e)
      ]

  -- An arrival marks the packet as seen, queues at most one delivery of it, and only if it was not
  -- marked; nothing else is marked or queued.
  pub on_data-Delivers :
      (from : Sockaddr) (p : Packet) (ret error : ℕ) (s t : TransCore Bits)
      → on_data from p ret error s ≡ done t
      → Delivers s t
  unfolding on_data
  on_data-Delivers from p ret error s t e =
      elim (Bool-cases (ltb (mul_size s.biggest_id 2) p.head.id)) [
        | inl far ↦ ground arith
        | inr near ↦ accept-Delivers from p ret error _ t (rw near at e)
      ]

  -- `cancel_io` marks at most one packet as seen and queues no delivery.
  pub cancel_io-effect :
      (mission : ℕ) (active : Bool) (error : ℕ) (s t : TransCore Bits) (b : Bool)
      → cancel_io mission active error s ≡ done (b, t)
      → (t.sr_blance ≡ s.sr_blance)
        × ((a : Sockaddr) (i : ℕ)
            → (queued a i t.recver_port ≡ queued a i s.recver_port)
              × (seen a i s.received ≡ true → seen a i t.received ≡ true))
  unfolding cancel_io
  cancel_io-effect mission active error s t b e =
      let (trunk, _, rest) = >>>-eq-done (or_fault (find mission s.missions)) _ e in
      let (r, second, last) =
        >>>-eq-done (or_fault (received_test_and_set trunk.address trunk.id s.received)) _ rest in
      let (old, marked) =
        received_test_and_set_lem trunk.address trunk.id s.received r.1 r.0
          (or_fault-eq-done _ second) in
      elim (Bool-cases r.0) [
        | inl known ↦
            let done_at = rw known at last in
            (ground arith, λ a i. (ground arith, ground (arith, marked a i)))
        | inr fresh ↦
            let (s2, third, final) =
              >>>-eq-done (exit_timer trunk trunk.timer active error (record s { received = r.1 }))
                _ (rw fresh at last) in
            let k = exit_timer-Keeps trunk trunk.timer active error _ s2 third in
            (
              ground (arith, k.window),
              λ a i. (ground (arith, k.queue a i), ground (arith, k.received, marked a i)),
            )
      ]

  -- 1 if the datagram is an acknowledgement of a packet that waits for one.
  abbrev pub first_ack : Packet → TransCore Bits → ℕ
  first_ack p s =
      if has_flag p.head.magic slice_with_acks && Bitmap.have s.packages p.head.id then 1 else 0

  pub on_datagram-effect :
      (from : Sockaddr) (p : Packet) (ret error : ℕ) (s t : TransCore Bits)
      → on_datagram from p ret error s ≡ done t
      → (t.sr_blance % size_mod ≡ (s.sr_blance + first_ack p s) % size_mod)
        × ((a : Sockaddr) (i : ℕ)
            → queued a i t.recver_port + (if seen a i s.received then 1 else 0)
              ≤ queued a i s.recver_port + (if seen a i t.received then 1 else 0))
  unfolding on_datagram
  on_datagram-effect from p ret error s t e =
      elim (Bool-cases (has_flag p.head.magic slice_with_acks)) [
        | inl acks ↦
            let k = on_ack-effect from p.head ret s t (rw acks at e) in
            (ground (arith, k.1), λ a i. ground (arith, k.0, k.2 a i))
        | inr other ↦
            let d = on_data-Delivers from p ret error s t (rw other at e) in
            (ground (arith, d.0), d.1)
      ]

  pub recv-effect :
      (s t : TransCore Bits) (r : CompleteIoResult)
      → recv s ≡ done (r, t)
      → (t.sr_blance ≡ s.sr_blance)
        × (t.received ≡ s.received)
        × ((a : Sockaddr) (i : ℕ)
            → queued a i s.recver_port ≡ is_delivery a i r + queued a i t.recver_port)
  unfolding recv queued
  recv-effect s t r e = (ground arith, ground arith, λ a i. ground arith)

  pub set_work_flag-Keeps : (flag : ℕ) (s : TransCore Bits) → Keeps s (set_work_flag flag s)
  unfolding set_work_flag
  set_work_flag-Keeps flag s = record { received = refl; window = refl; queue = λ a i. refl }
