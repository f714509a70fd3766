-- ===== src/Udt/Counting.antt =====
-- isu-net/src/udt.cpp: `_count`, `_geted` and the callback while a group is being sent.
use isu_net.Base.{
  ==_refl, List, [], arith, false, find, inr, none, refl, some, suc, true, ℕ, ◌++◌, ◌<◌, ◌∷◌, ◌≡◌,
  ◌≢◌, ◌≤◌, ◌⊎◌,
}
use isu_net.Udt.{UdtGroup, Udt, minus_one}
use isu_net.Udt.Ticks.{Phase, sending, counted, compared, returned, slices_sent, calls}

-- `_count` at each place.
unfoldable pub count_at : Phase → ℕ
count_at (sending n) = minus_one
count_at (counted n) = n
count_at (compared n equal) = n
count_at (returned n) = n

-- While the group is among those being sent: not all have ended, or the comparison is still to say
-- so.
unfoldable pub MayWait : Phase → ℕ → Type 0
MayWait (sending n) ended = Unit
MayWait (counted n) ended = Unit
MayWait (compared n equal) ended = (equal ≡ true) ⊎ (ended < n)
MayWait (returned n) ended = ended < n

-- After it: the slices have all been sent and all have ended.
unfoldable pub IsOver : Phase → ℕ → Type 0
IsOver (sending n) ended = ⊥
IsOver (counted n) ended = ended ≡ n
IsOver (compared n equal) ended = ended ≡ n
IsOver (returned n) ended = ended ≡ n

unfoldable pub EndsTrue : Phase → ℕ → Type 0
EndsTrue (compared n true) ended = ended ≡ n
EndsTrue p ended = Unit

pub record Counts (group_id handle before : ℕ) (phase : Phase) (ended : ℕ) (u : Udt) : Type 0 where
  pub callback : u.has_send_callback ≡ true
  pub group :
      (g : UdtGroup) × (find handle u.groups ≡ some g)
      × (g.geted ≡ ended)
      × (g.count ≡ count_at phase)
  pub bounded : ended ≤ slices_sent phase
  pub small : slices_sent phase < minus_one
  pub equal : EndsTrue phase ended
  pub entry :
      ((find group_id u.sending_groups ≡ some handle)
        × (calls group_id u.sent ≡ before)
        × MayWait phase ended)
      ⊎ ((find group_id u.sending_groups ≡ none)
          × (calls group_id u.sent ≡ suc before)
          × IsOver phase ended)

pub calls-append :
    (group_id : ℕ) (sent : List ℕ)
    → calls group_id (sent ++ group_id ∷ []) ≡ suc (calls group_id sent)
calls-append group_id [] = rw (==_refl group_id) refl
calls-append group_id (g ∷ sent) = omega (arith, calls-append group_id sent)

pub tick-IsOver :
    (p : Phase) (ended : ℕ)
    → MayWait p ended
    → ended < slices_sent p
    → slices_sent p < minus_one
    → suc ended ≡ count_at p
    → IsOver p (suc ended)
unfolding MayWait IsOver count_at
tick-IsOver (sending n) ended w less small h = absurd (omega (arith, h))
tick-IsOver (counted n) ended w less small h = h
tick-IsOver (compared n equal) ended w less small h = h
tick-IsOver (returned n) ended w less small h = h

pub tick-MayWait :
    (p : Phase) (ended : ℕ)
    → MayWait p ended
    → ended < slices_sent p
    → suc ended ≢ count_at p
    → MayWait p (suc ended)
unfolding MayWait count_at
tick-MayWait (sending n) ended w less h = tt
tick-MayWait (counted n) ended w less h = tt
tick-MayWait (compared n equal) ended w less h = inr (omega (arith, h))
tick-MayWait (returned n) ended w less h = omega (arith, h)

pub tick-EndsTrue :
    (p : Phase) (ended : ℕ) → EndsTrue p ended → ended < slices_sent p → EndsTrue p (suc ended)
unfolding EndsTrue
tick-EndsTrue (sending n) ended e less = tt
tick-EndsTrue (counted n) ended e less = tt
tick-EndsTrue (compared n true) ended e less = absurd (omega (arith, e))
tick-EndsTrue (compared n false) ended e less = tt
tick-EndsTrue (returned n) ended e less = tt

pub IsOver-slices_sent : (p : Phase) (ended : ℕ) → IsOver p ended → ended ≡ slices_sent p
unfolding IsOver
IsOver-slices_sent (sending n) ended over = absurd over
IsOver-slices_sent (counted n) ended over = over
IsOver-slices_sent (compared n equal) ended over = over
IsOver-slices_sent (returned n) ended over = over
