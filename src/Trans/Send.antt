-- ===== src/Trans/Send.antt =====
-- isu-net/src/trans_core.cpp, the sending side: `assembile_send`, `send_assembiled`, `send` and the
-- window. Calls of the operating system succeed as far as the code relies on them: a timer is
-- created; `error` is what `WSAGetLastError` says after `sendto`.
use isu_net.Base.{
  Bool, List, Option, add_size, bit_or, false, find, if◌then◌else◌, none, not, put, some, sub_size,
  true, ℕ, ◌+◌, ◌==◌, ◌>>=◌,
}
use isu_net.Bitmap.Interface.{Bitset}
use isu_net.Bitmap
use isu_net.Socket.{Sockaddr, is_multicast}
use isu_net.Trans.State.{
  Outcome, done, waiting, ◌>>>◌, or_fault, slice_with_data, slice_with_window,
  package_from_multicast_addr, TransGroup, Packet, RetransTrunk, RetransControl, Uninit, IoResult,
  TransCore, sendto,
}

-- `_make_group`
unfoldable pub make_group : ℕ → ℕ → TransGroup
make_group id rtt = record {
  magic = bit_or slice_with_data slice_with_window;
  id = id;
  rtt = rtt;
  window = 0;
  local_handle = 0;
}

module _ {Bits : Type 0} where
  -- `_alloc_package_id`: the counter is an `unsigned long`.
  unfoldable pub alloc_package_id : TransCore Bits → ℕ × TransCore Bits
  alloc_package_id s = (s.group_allocer, record s { group_allocer = add_size s.group_allocer 1 })

  -- `_timeout_timer.ready_timer(argument, interval)`
  unfoldable pub ready_timer : ℕ → ℕ → TransCore Bits → ℕ × TransCore Bits
  ready_timer argument interval s = (
    s.next_timer,
    record s {
      timers =
          put s.next_timer
            (record { argument = argument; interval = interval; started = false; kicked = false })
            s.timers;
      next_timer = s.next_timer + 1;
    },
  )

  -- `_timeout_timer.start_timer(handle)`
  unfoldable pub start_timer : ℕ → TransCore Bits → Option (TransCore Bits)
  start_timer handle s = do
    t ← find handle s.timers
    some (record s { timers = put handle (record t { started = true }) s.timers })

  -- `_timeout_timer.get_argument(handle)`
  unfoldable pub get_argument : ℕ → TransCore Bits → Option ℕ
  get_argument handle s = do t ← find handle s.timers; some t.argument

  -- `new retrans_trunk(group, memory, addr)` and its entry in the table of missions. The buffer is
  -- shared with the caller, so it shows the head that is written into it afterwards.
  unfoldable pub new_mission : RetransTrunk → TransCore Bits → ℕ × TransCore Bits
  new_mission trunk s = (
    s.next_mission,
    record s { missions = put s.next_mission trunk s.missions; next_mission = s.next_mission + 1 },
  )

  -- The branch of `assembile_send` for an address that is not multicast.
  unfoldable pub assembile_unicast :
      Uninit
      → RetransControl
      → TransGroup
      → List ℕ
      → Sockaddr
      → TransCore Bits
      → (IoResult × Packet) × TransCore Bits
  unfolding new_mission ready_timer
  assembile_unicast junk ctrl group payload addr s =
      let handle = s.next_timer in
      let head = record group { local_handle = handle } in
      let packet : Packet = record { head = head; payload = payload } in
      let trunk : RetransTrunk = record {
        id = group.id;
        retry_limit = ctrl.retry_limit;
        retry_count = junk.retry_count;
        timer = junk.timer;
        buffer = packet;
        address = addr;
      } in
      let (mission, s1) = new_mission trunk s in
      let (h, s2) = ready_timer mission ctrl.first_timeout s1 in
      ((record { code = 0; system_error = 0; mission = some mission }, packet), s2)

  -- `--_sr_blance` in `_enter_trans`; nothing keeps other threads out between the test and it.
  unfoldable pub take_place : TransCore Bits → TransCore Bits
  take_place s = record s { sr_blance = sub_size s.sr_blance 1 }

  -- `_enter_trans`: the caller spins while the window is used up, and then takes one place.
  unfoldable pub enter_trans : TransCore Bits → Outcome (TransCore Bits)
  unfolding take_place
  enter_trans s = if s.sr_blance == 0 then waiting else done (take_place s)

  -- The part of `send_assembiled` for an address that is not multicast: the timer starts.
  send_started : ℕ → Packet → Sockaddr → TransCore Bits → Outcome (IoResult × TransCore Bits)
  unfolding start_timer get_argument sendto
  send_started error p addr s = or_fault (get_argument p.head.local_handle s) >>> λ mission.
      or_fault (start_timer p.head.local_handle s) >>> λ s'.
      done (record { code = 0; system_error = error; mission = some mission }, sendto addr p s')

  -- The part of `send_assembiled` behind `_enter_trans`.
  unfoldable pub send_entered :
      ℕ → Packet → Sockaddr → TransCore Bits → Outcome (IoResult × TransCore Bits)
  unfolding send_started sendto
  send_entered error p addr s =
      if is_multicast addr
      then done (record { code = 0; system_error = error; mission = none }, sendto addr p s)
      else send_started error p addr s

  -- `send_assembiled`; the packet is the assembled memory.
  unfoldable pub send_assembiled :
      ℕ → Packet → Sockaddr → TransCore Bits → Outcome (IoResult × TransCore Bits)
  unfolding enter_trans send_entered
  send_assembiled error p addr s = enter_trans s >>> λ s'. send_entered error p addr s'

module _ {Bits : Type 0} ⦃B : Bitset Bits⦄ where
  -- `_packages.set(id, val)`
  unfoldable pub packages_set : ℕ → Bool → TransCore Bits → Outcome (TransCore Bits)
  packages_set id val s =
      or_fault (Bitmap.set s.packages id val) >>> λ r. done (record s { packages = r.1 })

  -- `assembile_send`: an id, its bit in `_packages`, and for an address that is not multicast a
  -- mission with its timer. The size of the memory is not looked at.
  unfoldable pub assembile_send :
      Uninit
      → RetransControl
      → List ℕ
      → Sockaddr
      → TransCore Bits
      → Outcome ((IoResult × Packet) × TransCore Bits)
  unfolding alloc_package_id packages_set make_group assembile_unicast
  assembile_send junk ctrl payload addr s =
      let (id, s1) = alloc_package_id s in
      let group = make_group id junk.rtt in
      packages_set id true s1 >>> λ s2.
      (if not (is_multicast addr)
        then done (assembile_unicast junk ctrl group payload addr s2)
        else done (
          (
            record { code = 0; system_error = 0; mission = none },
            record {
              head = record group { magic = bit_or group.magic package_from_multicast_addr };
              payload = payload;
            },
          ),
          s2,
        ))

  -- `send`
  unfoldable pub send :
      Uninit
      → RetransControl
      → ℕ
      → List ℕ
      → Sockaddr
      → TransCore Bits
      → Outcome (IoResult × TransCore Bits)
  unfolding assembile_send send_assembiled
  send junk ctrl error payload addr s =
      assembile_send junk ctrl payload addr s >>> λ r. send_assembiled error r.0.1 addr r.1
