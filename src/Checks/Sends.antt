-- ===== src/Checks/Sends.antt =====
-- A group of one slice on its way out of isu-net/src/udt.cpp.
use isu_net.Base.{
  Bool, [], arith, erase, false, find, length, none, put, refl, some, suc, true, ℕ, ◌==◌, ◌↔◌, ◌∷◌,
  ◌≡◌, ◌⊎◌,
}
use isu_net.Udt.{
  GroupListNode, UdtGroup, Udt, minus_one, new_node, cancel_io, set_next, set_pre, connect,
  complete, erase_group,
}
use isu_net.Udt.Send.{Assembled, begin_send, send_slice, set_count, all_geted, send_block}
use isu_net.Udt.Nodes.{IsFlat}
use isu_net.Udt.Reach.{Reach, stays, steps, begins, sends, Reach-IsFlat, cancel_io-Reach}
use isu_net.Udt.Ticks.{
  sending, returned, calls, Sending, SendReach, ticks, counts, compares, returns,
}
use isu_net.Udt.Ticks as Ticks
use isu_net.Udt.Counting.{MayWait, IsOver}
use isu_net.Udt.Callback.{send_callback_once}
use isu_net.Udt.Block.{send_block_fault}

abbrev idle : Udt
idle = record {
  nodes = [];
  missions = [];
  groups = [];
  sending_groups = [];
  recv_groups = [];
  group_id_allocer = 0;
  has_send_callback = true;
  has_bad_send = true;
  cancelled = [];
  sent = [];
  bad_sends = [];
}

abbrev at_hundred : ℕ → Bool
at_hundred a = a == 100

abbrev group_seven : ℕ → ℕ → UdtGroup
group_seven count geted = record { group_id = 7; root = 100; count = count; geted = geted }

abbrev begun : Udt
begun = record idle {
  sending_groups = (7, 1) ∷ [];
  groups = (1, group_seven minus_one 0) ∷ [];
  nodes = (100, new_node none) ∷ [];
}

begun-begin_send : begin_send false 7 1 100 idle ≡ some begun
unfolding begin_send find put
begun-begin_send = refl

abbrev slice : Assembled
slice = record { node = 200; mission = 300; id = 5; in_vaild = true }

abbrev linked : GroupListNode
linked = record { pre = some 100; next = none; value = some 300 }

abbrev sent_one : Udt
sent_one = record begun {
  nodes = (100, record { pre = none; next = some 200; value = none }) ∷ (200, linked) ∷ [];
  missions = (300, 5) ∷ [];
}

sent_one-send_slice : send_slice 1 slice begun ≡ some sent_one
unfolding send_slice connect set_next set_pre find put
sent_one-send_slice = refl

sent_one-Reach : Reach at_hundred idle sent_one
sent_one-Reach =
    steps begun sent_one (steps idle begun stays (begins false 7 1 100 begun refl begun-begin_send))
      (sends 1 slice sent_one refl sent_one-send_slice)

Reach-IsFlat_example : IsFlat at_hundred sent_one
Reach-IsFlat_example = Reach-IsFlat at_hundred idle sent_one refl refl sent_one-Reach

cancel_io-Reach_example : cancel_io (λ id. 3) 5 1 true sent_one ≡ some sent_one
unfolding find
cancel_io-Reach_example =
    cancel_io-Reach at_hundred (λ id. 3) 5 1 true (group_seven minus_one 0) idle sent_one refl refl
      sent_one-Reach refl

-- A message without slices, when no callback is set.
send_block_fault_example :
    (send_block false 7 1 100 [] (record idle { has_send_callback = false }) ≡ none) ↔ (
      (false ≡ true)
      ⊎ (((h : ℕ) × (find 7 idle.sending_groups ≡ some h))
          ⊎ ((length {A = Assembled} [] ≡ 0) × (false ≡ false))))
send_block_fault_example =
    send_block_fault false 7 1 100 [] (record idle { has_send_callback = false }) (omega arith)

-- The slice ends before the count is set.
abbrev on_its_way : Sending
on_its_way = record { phase = sending 0; ended = 0; udt = begun }

abbrev back_early : Udt
back_early = record sent_one { groups = (1, group_seven minus_one 1) ∷ [] }

abbrev with_count : Udt
with_count = record sent_one { groups = (1, group_seven 1 1) ∷ [] }

abbrev told : Udt
told = record with_count { sent = 7 ∷ []; sending_groups = [] }

told-SendReach : SendReach 7 1 on_its_way (record { phase = returned 1; ended = 1; udt = told })
unfolding erase_group complete set_count all_geted find put erase
told-SendReach =
    Ticks.steps _ _
      (Ticks.steps _ _
        (Ticks.steps _ _
          (Ticks.steps _ _
            (Ticks.steps _ _ Ticks.stays
              (Ticks.sends 0 slice sent_one refl (omega arith) sent_one-send_slice))
            (ticks back_early (omega arith) refl))
          (counts 1 with_count refl refl))
        (compares 1 true refl refl))
      (returns 1 true told refl refl)

send_callback_once_example :
    ((calls 7 told.sent ≡ calls 7 idle.sent) × MayWait (returned 1) 1)
    ⊎ ((calls 7 told.sent ≡ suc (calls 7 idle.sent)) × IsOver (returned 1) 1)
send_callback_once_example =
    send_callback_once false 7 1 100 idle begun
      (record { phase = returned 1; ended = 1; udt = told }) refl begun-begin_send told-SendReach
