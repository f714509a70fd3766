-- ===== src/Timers/Lifecycle.antt =====
-- ex-utility/src/multiplex_timer.cpp, the life of a timer that ends by
-- `cancel_timer_when_callback_exit`, under the interleavings of the system's threads; timers that
-- are started twice, `cancel_timer` and `kill_timer` are no part of it.
use isu_net.Base.{
  ==_refl, >>=-eq-some, Bool, Bool-cases, List, Option-cases, [], ap, arith, false, find, inl, inr,
  none, refl, some, subst, true, ℕ, ◌==◌, ◌∷◌, ◌≡◌, ◌≢◌, ◌⊎◌,
}
use isu_net.Timers.{
  kick_down_processing, MultiplexTimer, started, contains, remove_one, compare_exchange,
  ready_timer, start_timer, cancel_timer_when_callback_exit, advance_expire, crack, crack_exit,
  complete_exit,
}
use isu_net.Timers.Safety.{
  IsSafe, started-IsSafe, put-IsSafe, some-injective, marked, linked, crack-IsSafe, armed-IsSafe,
  crack_exit-IsSafe, complete_exit-IsSafe,
}

-- A history: timers are readied at addresses not in use, started while they have none of the
-- system's timers, moved, asked to end with their callback; the system's timers fire, callbacks
-- end, and an exit is completed when no callback of its timer runs, since the deletion of the
-- native timer waits for them.
pub data Reach : MultiplexTimer → Type 0 where
  starts : Reach started
  readied :
      {s : MultiplexTimer}
      → Reach s
      → (handle unset argument proid : ℕ) → find handle s.timers ≡ none
      → Reach (ready_timer handle unset argument proid s)
  armed :
      {s t : MultiplexTimer}
      → Reach s
      → (handle native_timer : ℕ) (threw : Bool) → find native_timer s.native ≡ none
      → ((i : ℕ) → find i s.native ≢ some handle)
      → start_timer handle (some native_timer) s ≡ some (threw, t)
      → Reach t
  asked :
      {s t : MultiplexTimer}
      → Reach s
      → (handle : ℕ) → cancel_timer_when_callback_exit handle s ≡ some t
      → Reach t
  moved :
      {s t : MultiplexTimer}
      → Reach s
      → (handle ms : ℕ) → advance_expire handle ms s ≡ some t
      → Reach t
  fired :
      {s t : MultiplexTimer}
      → Reach s
      → (native_timer handle : ℕ) → find native_timer s.native ≡ some handle
      → crack handle s ≡ some t
      → Reach t
  returned :
      {s t : MultiplexTimer}
      → Reach s
      → (handle : ℕ) → contains handle s.running ≡ true
      → crack_exit handle s ≡ some t
      → Reach t
  completed :
      {s t : MultiplexTimer}
      → Reach s
      → (handle : ℕ) (rest : List ℕ) → s.posted ≡ handle ∷ rest
      → contains handle s.running ≡ false
      → complete_exit s ≡ some t
      → Reach t

Reach-IsSafe : {s : MultiplexTimer} → Reach s → IsSafe s
unfolding ready_timer start_timer cancel_timer_when_callback_exit advance_expire crack
    compare_exchange contains
Reach-IsSafe starts = started-IsSafe
Reach-IsSafe (readied {s} r handle unset argument proid new) =
    let v = Reach-IsSafe r in
    put-IsSafe handle
      (record { than = 0; interval = proid; argument = argument; native_timer = unset }) s v
      (λ e. let is = v.posted handle e in let no = rw new at is in absurd (cc))
      (λ i e. let (old, there, known) = v.native i handle e in absurd (cc))
Reach-IsSafe (armed {s} r handle native_timer threw unused first e) =
    let v = Reach-IsSafe r in
    let (args, found, is) = >>=-eq-some (find handle s.timers) _ e in
    subst IsSafe (ap (λ p. p.1) (some-injective is))
      (armed-IsSafe handle native_timer args s v found first)
Reach-IsSafe (asked {s} r handle e) =
    let v = Reach-IsSafe r in
    let (args, found, is) = >>=-eq-some (find handle s.timers) _ e in
    subst IsSafe (some-injective is) (
      put-IsSafe handle _ s v (λ there. ground (arith, marked handle args s v found there))
        (linked handle args s v found))
Reach-IsSafe (moved {s} r handle ms e) =
    let v = Reach-IsSafe r in
    let (args, found, is) = >>=-eq-some (find handle s.timers) _ e in
    subst IsSafe (some-injective is)
      (put-IsSafe handle _ s v (marked handle args s v found) (linked handle args s v found))
Reach-IsSafe (fired {s} r native_timer handle there e) =
    let v = Reach-IsSafe r in
    let (args, found, is) = >>=-eq-some (find handle s.timers) _ e in
    elim (Bool-cases (args.than == kick_down_processing)) [
      | inl out ↦ subst IsSafe (some-injective (rw out at is)) v
      | inr stays ↦
          subst IsSafe (some-injective (rw stays at is)) (crack-IsSafe handle args s v found)
    ]
Reach-IsSafe (returned {s} {t} r handle there e) =
    let v = Reach-IsSafe r in
    elim (Option-cases (find handle s.timers)) [
      | inl gone ↦ absurd (v.running handle there gone)
      | inr (args, found) ↦ crack_exit-IsSafe handle args s t v found e
    ]
Reach-IsSafe (completed {s} {t} r handle rest queue idle e) =
    complete_exit-IsSafe handle rest s t (Reach-IsSafe r) queue idle e

queue-cases : (xs : List ℕ) → (xs ≡ []) ⊎ ((h : ℕ) × (rest : List ℕ) × (xs ≡ h ∷ rest))
queue-cases [] = inl refl
queue-cases (h ∷ rest) = inr (h, rest, refl)

crack_some : (h : ℕ) (s : MultiplexTimer) → find h s.timers ≢ none → crack h s ≢ none
unfolding crack
crack_some h s there e = elim (Option-cases (find h s.timers)) [
  | inl gone ↦ there gone
  | inr (args, found) ↦
      let e1 = rw found at e in
      elim (Bool-cases (args.than == kick_down_processing)) [
        | inl out ↦ let e2 = rw out at e1 in cc
        | inr stays ↦ let e2 = rw stays at e1 in cc
      ]
]

crack_exit_some : (h : ℕ) (s : MultiplexTimer) → find h s.timers ≢ none → crack_exit h s ≢ none
unfolding crack_exit
crack_exit_some h s there e = elim (Option-cases (find h s.timers)) [
  | inl gone ↦ there gone
  | inr (args, found) ↦ let e1 = rw found at e in cc
]

complete_exit_some : (s : MultiplexTimer) → IsSafe s → complete_exit s ≢ none
unfolding complete_exit contains
complete_exit_some s v e = elim (queue-cases s.posted) [
  | inl empty ↦ let e1 = rw empty at e in cc
  | inr (h, rest, queue) ↦
      let is = v.posted h (rw queue (rw (==_refl h) refl)) in
      elim (Option-cases (find h s.timers)) [
        | inl gone ↦ let no = rw gone at is in cc
        | inr (args, found) ↦ let e1 = rw queue at e in let e2 = rw found at e1 in cc
      ]
]

-- In every history in which no timer is started twice and timers end only by
-- `cancel_timer_when_callback_exit`, not by `cancel_timer` or `kill_timer`, nothing touches a
-- handle that was deleted: neither one of the system's timers that fires, nor a callback that
-- returns, nor the oldest posted exit; and no timer has two exits posted.
pub no_use_after_delete :
    {s : MultiplexTimer}
    → Reach s
    → ((i h : ℕ) → find i s.native ≡ some h → crack h s ≢ none)
      × ((h : ℕ) → contains h s.running ≡ true → crack_exit h s ≢ none)
      × (complete_exit s ≢ none)
      × ((h : ℕ) → contains h (remove_one h s.posted) ≡ false)
no_use_after_delete {s} r =
    let v = Reach-IsSafe r in
    (
      λ i h there.
          let (args, found, known) = v.native i h there in crack_some h s (λ gone. absurd (cc)),
      λ h there. crack_exit_some h s (v.running h there),
      complete_exit_some s v,
      v.once,
    )
