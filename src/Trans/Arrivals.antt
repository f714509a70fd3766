-- ===== src/Trans/Arrivals.antt =====
-- isu-net/src/trans_core.cpp, the receiving of data: every branch of one arrival, which arrivals
-- make the bitmap fault, and what `cancel_io` does to the packets of the peer.
use isu_net.Base.{
  Bool, Bool-cases, [], arith, false, find, if◌then◌else◌, inl, inr, ltb, max, mul_size, none, refl,
  size_mod, some, sym, true, ℕ, ◌%◌, ◌*◌, ◌++◌, ◌<◌, ◌∙◌, ◌∷◌, ◌≡◌, ◌≤◌,
}
use isu_net.Bitmap.Interface.{Bitset}
use isu_net.Bitmap
use isu_net.Bitmap.Growth.{test_and_set_fault}
use isu_net.Socket.{Sockaddr, same_key}
use isu_net.Trans.State.{
  done, fault, or_fault, RetransTrunk, TransCore, Packet, has_flag, received_at,
  received_test_and_set, >>>-eq-done, or_fault-eq-done, package_from_multicast_addr,
  slice_with_acks,
}
use isu_net.Trans.Receive.{arrived, on_data, accept, deliver, send_ack}
use isu_net.Trans.Retry.{cancel_io, exit_timer}
use isu_net.Trans.Seen.{same_key_refl, seen, received_test_and_set_lem}
use isu_net.Trans.Keeping.{exit_timer-Keeps}

-- The acknowledgement of a packet.
abbrev pub ack_of : Packet → Packet
ack_of p = record { head = record p.head { magic = slice_with_acks }; payload = [] }

module _ {Bits : Type 0} ⦃B : Bitset Bits⦄ where
  deliver_branches :
      (from : Sockaddr) (p : Packet) (ret error : ℕ) (s t : TransCore Bits)
      → deliver from p ret error s ≡ done t
      → (t.sent ≡ s.sent)
        × (t.biggest_id ≡ s.biggest_id)
        × (seen from p.head.id t.received ≡ true)
        × (t.recver_port ≡ (
            if seen from p.head.id s.received
            then s.recver_port
            else s.recver_port ++ arrived from p ret error ∷ []))
  unfolding deliver
  deliver_branches from p ret error s t e =
      let (r, first, rest) =
        >>>-eq-done (or_fault (received_test_and_set from p.head.id s.received)) _ e in
      let (old, marked) =
        received_test_and_set_lem from p.head.id s.received r.1 r.0 (or_fault-eq-done _ first) in
      ground (arith, old, marked from p.head.id, same_key_refl from)

  -- The state that `deliver` starts from.
  ready : Sockaddr → Packet → TransCore Bits → TransCore Bits
  ready from p s =
      let s0 = record s {
        biggest_id = (if ltb s.biggest_id p.head.id then p.head.id else s.biggest_id);
      } in
      if has_flag p.head.magic package_from_multicast_addr then s0 else send_ack from p.head s0

  ready-fields :
      (from : Sockaddr) (p : Packet) (s : TransCore Bits)
      → ((ready from p s).sent ≡ (
          if has_flag p.head.magic package_from_multicast_addr
          then s.sent
          else (from, ack_of p) ∷ s.sent))
        × ((ready from p s).biggest_id ≡ max s.biggest_id p.head.id)
        × ((ready from p s).received ≡ s.received)
        × ((ready from p s).recver_port ≡ s.recver_port)
  unfolding ready send_ack
  ready-fields from p s = ground arith

  on_data-near :
      (from : Sockaddr) (p : Packet) (ret error : ℕ) (s : TransCore Bits)
      → p.head.id ≤ (s.biggest_id * 2) % size_mod
      → on_data from p ret error s ≡ deliver from p ret error (ready from p s)
  unfolding on_data accept ready
  on_data-near from p ret error s near = rw test refl
    where
      test : ltb (mul_size s.biggest_id 2) p.head.id ≡ false
      test = ground arith

  -- Every branch of an arrival of data that does not fault. An id beyond twice the biggest one is
  -- dropped without a trace. Any other is acknowledged with its own head, whether it is new or not,
  -- unless it was sent to a group; it is queued for the user exactly if it was not seen before; and
  -- it counts as seen, and as a candidate for the biggest id, afterwards.
  pub on_data_branches :
      (from : Sockaddr) (p : Packet) (ret error : ℕ) (s t : TransCore Bits)
      → on_data from p ret error s ≡ done t
      → ((s.biggest_id * 2) % size_mod < p.head.id → t ≡ s)
        × (p.head.id ≤ (s.biggest_id * 2) % size_mod
            → (t.sent ≡ (
                if has_flag p.head.magic package_from_multicast_addr
                then s.sent
                else (from, ack_of p) ∷ s.sent))
              × (t.biggest_id ≡ max s.biggest_id p.head.id)
              × (seen from p.head.id t.received ≡ true)
              × (t.recver_port ≡ (
                  if seen from p.head.id s.received
                  then s.recver_port
                  else s.recver_port ++ arrived from p ret error ∷ [])))
  unfolding on_data
  on_data_branches from p ret error s t e = (
    λ far. ground arith,
    λ near.
        let from_ready =
          deliver_branches from p ret error (ready from p s) t
            (sym (on_data-near from p ret error s near) ∙ e) in
        let fields = ready-fields from p s in ground (arith, from_ready, fields),
  )

  -- While the record of a sender's ids is the empty bitmap, the arrival of data with an id from 32
  -- to twice the biggest id so far runs past the end of that bitmap. Twice the biggest id is 8192
  -- at the start.
  pub first_packet_faults :
      (from : Sockaddr) (p : Packet) (ret error : ℕ) (s : TransCore Bits)
      → received_at from s.received ≡ Bitmap.create 0
      → 32 ≤ p.head.id
      → p.head.id ≤ (s.biggest_id * 2) % size_mod
      → on_data from p ret error s ≡ fault
  unfolding deliver received_test_and_set Bitmap.create
  first_packet_faults from p ret error s new big near =
      on_data-near from p ret error s near ∙ rw ((ready-fields from p s).2, new, out_of_reach) refl
    where
      out_of_reach : Bitmap.test_and_set (B.make 0) p.head.id ≡ none
      out_of_reach = (test_and_set_fault (B.make 0) p.head.id).0.1 (rw (B.size-make 0) big)

  cancel_marks :
      (mission : ℕ) (active : Bool) (err : ℕ) (s t : TransCore Bits) (b : Bool)
      (trunk : RetransTrunk) (a : Sockaddr)
      → find mission s.missions ≡ some trunk
      → cancel_io mission active err s ≡ done (b, t)
      → same_key trunk.address a ≡ true
      → seen a trunk.id t.received ≡ true
  unfolding cancel_io
  cancel_marks mission active err s t b trunk a known e key =
      let (trunk', found, rest) = >>>-eq-done (or_fault (find mission s.missions)) _ e in
      let is_trunk : trunk' ≡ trunk = ground (arith, found, known) in
      let (r, second, last) =
        >>>-eq-done (or_fault (received_test_and_set trunk'.address trunk'.id s.received)) _ rest in
      let (old, marked) =
        received_test_and_set_lem trunk'.address trunk'.id s.received r.1 r.0
          (or_fault-eq-done _ second) in
      let bit : seen a trunk.id r.1 ≡ true = ground (arith, marked a trunk.id, is_trunk) in
      elim (Bool-cases r.0) [
        | inl known_before ↦ let over = rw known_before at last in ground arith
        | inr fresh ↦
            let (s2, third, final) =
              >>>-eq-done (exit_timer trunk' trunk'.timer active err (record s { received = r.1 }))
                _ (rw fresh at last) in
            ground
              (arith, bit, (exit_timer-Keeps trunk' trunk'.timer active err _ s2 third).received)
      ]

  -- `cancel_io` marks the packet that the peer sends under the same id as seen, so when that packet
  -- arrives, it is not passed on, though it may never have arrived before.
  pub cancel_drops_peer :
      (mission : ℕ) (active : Bool) (err : ℕ) (s t u : TransCore Bits) (b : Bool)
      (trunk : RetransTrunk) (from : Sockaddr) (p : Packet) (ret error : ℕ)
      → find mission s.missions ≡ some trunk
      → cancel_io mission active err s ≡ done (b, t)
      → same_key trunk.address from ≡ true
      → p.head.id ≡ trunk.id
      → on_data from p ret error t ≡ done u
      → (seen from p.head.id t.received ≡ true) × (u.recver_port ≡ t.recver_port)
  cancel_drops_peer mission active err s t u b trunk from p ret error known cancelled key same
        came =
      let bit : seen from p.head.id t.received ≡ true =
        rw same (cancel_marks mission active err s t b trunk from known cancelled key) in
      (bit, ground (arith, bit, on_data_branches from p ret error t u came))
