-- ===== src/Udt/Ticks.antt =====
-- isu-net/src/udt.cpp: the end of a send. `recv` counts the slices that have come to an end while
-- `send_block` is still in its loop, setting `_count`, or comparing.
use isu_net.Base.{
  Bool, List, [], false, find, if◌then◌else◌, some, suc, true, ℕ, ◌+◌, ◌<◌, ◌==◌, ◌∷◌, ◌≡◌,
}
use isu_net.Udt.{Udt, minus_one, erase_group}
use isu_net.Udt.Send.{Assembled, send_slice, set_count, all_geted}

-- Where `send_block` is, with the number of slices sent.
pub data Phase : Type 0 where
  sending : ℕ → Phase
  counted : ℕ → Phase
  compared : ℕ → Bool → Phase
  returned : ℕ → Phase

abbrev pub slices_sent : Phase → ℕ
slices_sent (sending n) = n
slices_sent (counted n) = n
slices_sent (compared n equal) = n
slices_sent (returned n) = n

-- A send under way, and the number of its slices that have come to an end.
pub record Sending : Type 0 where
  pub phase : Phase
  pub ended : ℕ
  pub udt : Udt

-- How often the callback was called for a group.
abbrev pub calls : ℕ → List ℕ → ℕ
calls group_id [] = 0
calls group_id (g ∷ sent) = (if g == group_id then 1 else 0) + calls group_id sent

-- What the other sends, and the receptions, leave alone.
pub record LeavesAlone (group_id handle : ℕ) (u w : Udt) : Type 0 where
  pub entry : find group_id w.sending_groups ≡ find group_id u.sending_groups
  pub group : find handle w.groups ≡ find handle u.groups
  pub told : calls group_id w.sent ≡ calls group_id u.sent
  pub callback : w.has_send_callback ≡ u.has_send_callback

-- The steps of one send, and those that come in between.
pub data SendStep (group_id handle : ℕ) (s : Sending) : Sending → Type 0 where
  sends :
      (n : ℕ) (a : Assembled) (u : Udt)
      → s.phase ≡ sending n
      → suc n < minus_one
      → send_slice handle a s.udt ≡ some u
      → SendStep group_id handle s (record s { phase = sending (suc n); udt = u })
  ticks :
      (u : Udt)
      → s.ended < slices_sent s.phase
      → erase_group group_id true s.udt ≡ some u
      → SendStep group_id handle s (record s { ended = suc s.ended; udt = u })
  counts :
      (n : ℕ) (u : Udt)
      → s.phase ≡ sending n
      → set_count handle n s.udt ≡ some u
      → SendStep group_id handle s (record s { phase = counted n; udt = u })
  compares :
      (n : ℕ) (equal : Bool)
      → s.phase ≡ counted n
      → all_geted handle s.udt ≡ some equal
      → SendStep group_id handle s (record s { phase = compared n equal })
  returns :
      (n : ℕ) (equal : Bool) (u : Udt)
      → s.phase ≡ compared n equal
      → (if equal then erase_group group_id false s.udt else some s.udt) ≡ some u
      → SendStep group_id handle s (record s { phase = returned n; udt = u })
  other :
      (u : Udt)
      → LeavesAlone group_id handle s.udt u
      → SendStep group_id handle s (record s { udt = u })

pub data SendReach (group_id handle : ℕ) (s : Sending) : Sending → Type 0 where
  stays : SendReach group_id handle s s
  steps :
      (r t : Sending)
      → SendReach group_id handle s r
      → SendStep group_id handle r t
      → SendReach group_id handle s t
