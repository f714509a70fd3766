-- ===== src/Udt/Callback.antt =====
-- isu-net/src/udt.cpp: the send callback, whatever comes in between.
use isu_net.Base.{
  Bool, Option-cases, arith, false, find, find-put_self, inl, inr, refl, some, some-injective,
  subst, suc, true, ℕ, ◌≡◌, ◌⊎◌,
}
use isu_net.Udt.{Udt, minus_one}
use isu_net.Udt.Send.{begin_send}
use isu_net.Udt.Ticks.{
  sending, calls, Sending, SendStep, sends, ticks, counts, compares, returns, other, SendReach,
  stays, steps,
}
use isu_net.Udt.Counting.{Counts, MayWait, IsOver, EndsTrue, count_at}
use isu_net.Udt.Settling.{tick-Counts, count-Counts, compare-Counts, return-Counts}
use isu_net.Udt.Apart.{send-Counts, LeavesAlone-Counts}

SendStep-Counts :
    (group_id handle before : ℕ) (s t : Sending)
    → Counts group_id handle before s.phase s.ended s.udt
    → SendStep group_id handle s t
    → Counts group_id handle before t.phase t.ended t.udt
SendStep-Counts group_id handle before s _ c (sends n a u at small is) =
    send-Counts group_id handle before n s.ended a s.udt u (rw at at c) small is
SendStep-Counts group_id handle before s _ c (ticks u less is) =
    tick-Counts group_id handle before s.phase s.ended s.udt u c less is
SendStep-Counts group_id handle before s _ c (counts n u at is) =
    count-Counts group_id handle before n s.ended s.udt u (rw at at c) is
SendStep-Counts group_id handle before s _ c (compares n equal at is) =
    compare-Counts group_id handle before n s.ended equal s.udt (rw at at c) is
SendStep-Counts group_id handle before s _ c (returns n equal u at is) =
    return-Counts group_id handle before n s.ended equal s.udt u (rw at at c) is
SendStep-Counts group_id handle before s _ c (other u alone) =
    LeavesAlone-Counts group_id handle before s.phase s.ended s.udt u c alone

SendReach-Counts :
    (group_id handle before : ℕ) (s t : Sending)
    → Counts group_id handle before s.phase s.ended s.udt
    → SendReach group_id handle s t
    → Counts group_id handle before t.phase t.ended t.udt
SendReach-Counts group_id handle before s _ c stays = c
SendReach-Counts group_id handle before s _ c (steps r t reach step) =
    SendStep-Counts group_id handle before r t (SendReach-Counts group_id handle before s r c reach)
      step

begin_send-Counts :
    (is_multicast : Bool) (group_id handle root : ℕ) (u w : Udt)
    → u.has_send_callback ≡ true
    → begin_send is_multicast group_id handle root u ≡ some w
    → Counts group_id handle (calls group_id u.sent) (sending 0) 0 w
unfolding begin_send MayWait EndsTrue count_at
begin_send-Counts true group_id handle root u w callback is = absurd (cc)
begin_send-Counts false group_id handle root u w callback is =
    elim (Option-cases (find group_id u.sending_groups)) [
      | inr (other_handle, there) ↦ let none_is = rw there at is in absurd (cc)
      | inl absent ↦
          subst (Counts group_id handle (calls group_id u.sent) (sending 0) 0)
            (some-injective (rw absent at is))
            (record {
              callback = callback;
              group = (
                record { group_id = group_id; root = root; count = minus_one; geted = 0 },
                find-put_self handle _ u.groups,
                refl,
                refl,
              );
              bounded = omega arith;
              small = omega arith;
              equal = tt;
              entry = inl (find-put_self group_id handle u.sending_groups, refl, tt);
            })
    ]

-- A send that has begun, with a callback and fewer than 2^32 - 1 slices, whose slices, ends of
-- slices, setting of the count and comparison are mixed in any way with each other and with steps
-- that leave its group alone. Either the callback has not been called for it, and `send_block` has
-- not compared the numbers yet, or has found them equal and not acted on it, or a slice is still
-- out; or the callback has been called once more than before, `send_block` is behind its loop, and
-- all slices sent have ended. When it has returned, that is whether a slice is still out.
pub send_callback_once :
    (is_multicast : Bool) (group_id handle root : ℕ) (u w : Udt) (t : Sending)
    → u.has_send_callback ≡ true
    → begin_send is_multicast group_id handle root u ≡ some w
    → SendReach group_id handle (record { phase = sending 0; ended = 0; udt = w }) t
    → ((calls group_id t.udt.sent ≡ calls group_id u.sent) × MayWait t.phase t.ended)
      ⊎ ((calls group_id t.udt.sent ≡ suc (calls group_id u.sent)) × IsOver t.phase t.ended)
send_callback_once is_multicast group_id handle root u w t callback begins reach =
    let start = begin_send-Counts is_multicast group_id handle root u w callback begins in
    let c = SendReach-Counts group_id handle (calls group_id u.sent) _ t start reach in
    elim c.entry [
      | inl (entry, told, wait) ↦ inl (told, wait)
      | inr (gone, told, over) ↦ inr (told, over)
    ]
