-- ===== src/Checks/Peers.antt =====
-- A few packets between two peers of isu-net/src/trans_core.cpp.
use isu_net.Base.{
  Bool, List, [], arith, false, find, if◌then◌else◌, max, put, refl, replicate, size_mod, true, ℕ,
  ◌%◌, ◌*◌, ◌++◌, ◌+◌, ◌-◌, ◌<◌, ◌^◌, ◌∷◌, ◌≡◌, ◌≤◌,
}
use isu_net.Bitmap.Interface.{list_bitset}
use isu_net.Bitmap
use isu_net.Socket.{Sockaddr, same_key}
use isu_net.Trans.State.{
  done, fault, Packet, RetransTrunk, TransCore, init, received_at, received_put,
  received_test_and_set, post, sendto, call_bad_send, slice_with_data, slice_with_acks,
}
use isu_net.Trans.Send.{get_argument, packages_set}
use isu_net.Trans.Receive.{
  arrived, completion, send_ack, on_ack, deliver, accept, on_data, on_datagram, recv,
}
use isu_net.Trans.Retry.{
  stun_group, kick_timer, report_failure, exit_timer, timer_callback, cancel_io,
}
use isu_net.Trans.Seen.{deliveries, queued, seen}
use isu_net.Trans.Runs.{Reach, started, came, taken, window_conserved, delivered_once}
use isu_net.Trans.Backoff.{fires, IsArmed, backoff}
use isu_net.Trans.GiveUp.{GivesUp, give_up, late_ack}
use isu_net.Trans.Arrivals.{ack_of, on_data_branches, first_packet_faults, cancel_drops_peer}

abbrev Core : Type 0
Core = TransCore (List Bool)

abbrev peer : Sockaddr
peer = record { sin_family = 2; sin_port = 80; s_addr = 1 }

abbrev packet : ℕ → Packet
packet id = record {
  head = record { magic = slice_with_data; id = id; rtt = 0; window = 0; local_handle = 9 };
  payload = 1 ∷ 2 ∷ [];
}

-- A core with nothing in it but what the tests put there.
abbrev quiet : Core
quiet = record {
  group_allocer = 1;
  sr_blance = 772;
  work_flag = 0;
  has_bad_send = true;
  packages = true ∷ [];
  received = [];
  biggest_id = 4096;
  recver_port = [];
  timers = [];
  next_timer = 2;
  missions = [];
  next_mission = 1;
  sent = [];
  bad_sends = [];
}

abbrev trunk_of : ℕ → RetransTrunk
trunk_of retries = record {
  id = 0;
  retry_limit = 15;
  retry_count = retries;
  timer = 1;
  buffer = packet 0;
  address = peer;
}

-- One packet on its way, after some retries.
abbrev waiting_core : ℕ → Core
waiting_core retries = record quiet {
  timers = (1, record { argument = 0; interval = 64; started = true; kicked = false }) ∷ [];
  missions = (0, trunk_of retries) ∷ [];
}

waiting-IsArmed : (retries : ℕ) → IsArmed 1 0 64 true (trunk_of retries) (waiting_core retries)
unfolding find
waiting-IsArmed retries = record { armed = refl; known = refl }

backoff_example :
    (t : Core) × (fires 3 1 0 (waiting_core 2) ≡ done t)
    × IsArmed 1 0 (64 * 2 ^ 3) true (record (trunk_of 2) { retry_count = 2 + 3 }) t
    × (t.sent ≡ replicate 3 (peer, packet 0) ++ [])
    × (t.bad_sends ≡ [])
backoff_example =
    backoff 3 1 0 64 0 true (trunk_of 2) (waiting_core 2) (waiting-IsArmed 2) (omega arith)
      (omega arith) (omega arith)

give_up_example :
    (t : Core) × (timer_callback 1 true 0 (waiting_core 15) ≡ done t)
    × GivesUp 1 0 0 (trunk_of 15) (waiting_core 15) t
give_up_example =
    give_up 1 0 64 0 true true (trunk_of 15) (waiting_core 15) (waiting-IsArmed 15) (omega arith)
      (omega arith) (omega arith)

first_packet_faults_example : on_data peer (packet 40) 30 0 quiet ≡ fault
unfolding received_at
first_packet_faults_example =
    first_packet_faults peer (packet 40) 30 0 quiet refl (omega arith) (omega arith)

-- After the last retry: the callback was called twice, and the window still has a place less.
abbrev given_up : Core
given_up = record quiet {
  packages = false ∷ [];
  timers = (1, record { argument = 0; interval = 64; started = true; kicked = true }) ∷ [];
  missions = (0, trunk_of 16) ∷ [];
  bad_sends =
      record { dest = peer; memory = packet 0; mission = 0 }
      ∷ record { dest = peer; memory = packet 0; mission = 0 }
      ∷ [];
}

late_ack_example :
    (on_ack peer
        (record { magic = slice_with_acks; id = 0; rtt = 0; window = 0; local_handle = 1 })
        20
        given_up
      ≡ done given_up)
    × (given_up.sr_blance ≡ 772)
unfolding timer_callback get_argument stun_group call_bad_send exit_timer packages_set
    report_failure kick_timer find put Bitmap.set Bitmap.try_extern Bitmap.just_set Bitmap.just_test
late_ack_example =
    late_ack 1 0 64 0 true true (trunk_of 15) (waiting_core 15) given_up peer
      (record { magic = slice_with_acks; id = 0; rtt = 0; window = 0; local_handle = 1 }) 20
      (waiting-IsArmed 15) (omega arith) (omega arith) (omega arith) refl refl

-- The first packet of the peer comes in, and is read.
abbrev core : Bool → Core
core callback = record quiet {
  group_allocer = 0;
  sr_blance = 773;
  has_bad_send = callback;
  packages = [];
  next_timer = 1;
  next_mission = 0;
}

abbrev bits_of_first : List Bool
bits_of_first = true ∷ replicate 31 false

abbrev came_in : Core
came_in = record (core true) {
  received = (peer, bits_of_first) ∷ [];
  recver_port = arrived peer (packet 0) 22 0 ∷ [];
  sent = (peer, ack_of (packet 0)) ∷ [];
}

abbrev read : Core
read = record came_in { recver_port = [] }

on_data_branches_example :
    ((4096 * 2) % size_mod < 0 → came_in ≡ core true)
    × (0 ≤ (4096 * 2) % size_mod
        → (came_in.sent ≡ (peer, ack_of (packet 0)) ∷ [])
          × (4096 ≡ max 4096 0)
          × (seen peer 0 came_in.received ≡ true)
          × (came_in.recver_port ≡ (
              if seen peer 0 (core true).received then [] else arrived peer (packet 0) 22 0 ∷ [])))
unfolding on_data accept deliver send_ack sendto post received_test_and_set received_at received_put
    Bitmap.create Bitmap.test_and_set Bitmap.try_extern Bitmap.just_test_and_set Bitmap.just_test
on_data_branches_example = on_data_branches peer (packet 0) 22 0 (core true) came_in refl

read-Reach : Reach read (completion (arrived peer (packet 0) 22 0) ∷ []) 0 0
unfolding init on_datagram on_data accept deliver send_ack sendto post received_test_and_set
    received_at received_put Bitmap.create Bitmap.test_and_set Bitmap.try_extern
    Bitmap.just_test_and_set Bitmap.just_test recv
read-Reach = taken (came (started true) peer (packet 0) 22 0 refl) _ refl

delivered_once_example :
    (deliveries peer 0 (completion (arrived peer (packet 0) 22 0) ∷ []) ≤ 1)
    × (queued peer 0 [] + deliveries peer 0 (completion (arrived peer (packet 0) 22 0) ∷ []) ≤ 1)
delivered_once_example = delivered_once read-Reach peer 0

window_conserved_example : (read.sr_blance + 0) % size_mod ≡ (773 + 0) % size_mod
window_conserved_example = window_conserved read-Reach

-- Our packet 0 is cancelled, and then the peer's packet 0 arrives.
abbrev cancelled_core : Core
cancelled_core = record quiet {
  packages = false ∷ [];
  received = (peer, bits_of_first) ∷ [];
  timers = (1, record { argument = 0; interval = 64; started = true; kicked = true }) ∷ [];
  missions = (0, record (trunk_of 2) { retry_limit = size_mod - 1 }) ∷ [];
}

abbrev dropped : Core
dropped = record cancelled_core { sent = (peer, ack_of (packet 0)) ∷ [] }

cancel_drops_peer_example :
    (seen peer 0 cancelled_core.received ≡ true)
    × (dropped.recver_port ≡ cancelled_core.recver_port)
unfolding cancel_io find put received_test_and_set received_at received_put exit_timer packages_set
    report_failure kick_timer same_key on_data accept deliver send_ack sendto post Bitmap.create
    Bitmap.set Bitmap.try_extern Bitmap.just_set Bitmap.just_test Bitmap.just_test_and_set
    Bitmap.test_and_set
cancel_drops_peer_example =
    cancel_drops_peer 0 false 0 (waiting_core 2) cancelled_core dropped true (trunk_of 2) peer
      (packet 0) 22 0 refl refl refl refl refl
