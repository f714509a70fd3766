-- ===== src/Timers/Safety.antt =====
-- ex-utility/src/multiplex_timer.cpp: well-formed states, and the operations on them.
use isu_net.Base.{
  ==_iff, ==_ne, ==_refl, >>=-eq-some, Bool-cases, List, Option, [], ap, arith, false, find,
  find-erase, find-put, find-put_self, inl, inr, none, put, refl, some, subst, sym, true, ℕ, ◌++◌,
  ◌==◌, ◌>>=◌, ◌∙◌, ◌∷◌, ◌≡◌, ◌≢◌, ◌⊎◌,
}
use isu_net.Timers.{
  kick_down_the_ladder, kick_down_processing, TimerArgs, MultiplexTimer, started, is_killing,
  contains, remove_one, compare_exchange, crack_exit, complete_exit, delete_timer, cleanup_handle,
  cleanup_user_argument,
}

-- The value of `than`, where the handle is there.
abbrev pub than_of : ℕ → MultiplexTimer → Option ℕ
than_of handle s = find handle s.timers >>= λ args. some args.than

-- Each of the system's timers is the one that a timer that is there knows; callbacks and posted
-- exits belong to timers that are there; an exit is posted once, for a timer marked as on its way
-- out.
pub record IsSafe (s : MultiplexTimer) : Type 0 where
  pub native :
      (i h : ℕ)
      → find i s.native ≡ some h
      → (args : TimerArgs) × (find h s.timers ≡ some args) × (args.native_timer ≡ i)
  pub running : (h : ℕ) → contains h s.running ≡ true → find h s.timers ≢ none
  pub posted : (h : ℕ) → contains h s.posted ≡ true → than_of h s ≡ some kick_down_processing
  pub once : (h : ℕ) → contains h (remove_one h s.posted) ≡ false

pub started-IsSafe : IsSafe started
unfolding started contains remove_one find
started-IsSafe = record {
  native = λ i h e. absurd (cc);
  running = λ h e. absurd (cc);
  posted = λ h e. absurd (cc);
  once = λ h. refl;
}

contains-remove_one :
    (h k : ℕ) (xs : List ℕ) → contains h (remove_one k xs) ≡ true → contains h xs ≡ true
unfolding contains remove_one
contains-remove_one h k [] e = e
contains-remove_one h k (x ∷ xs) e = ground (arith, contains-remove_one h k xs)

contains-append :
    (h k : ℕ) (xs : List ℕ) → contains h (xs ++ k ∷ []) ≡ true → (contains h xs ≡ true) ⊎ (k ≡ h)
unfolding contains
contains-append h k [] e = ground arith
contains-append h k (x ∷ xs) e = ground (arith, contains-append h k xs)

-- A handle that is not there yet is there once when it is appended.
once-append :
    (h k : ℕ) (xs : List ℕ)
    → contains k xs ≡ false
    → contains h (remove_one h xs) ≡ false
    → contains h (remove_one h (xs ++ k ∷ [])) ≡ false
unfolding contains remove_one
once-append h k [] e f = ground arith
once-append h k (x ∷ xs) e f = elim (Bool-cases (contains h (xs ++ k ∷ []))) [
  | inl there ↦ ground (arith, once-append h k xs, contains-append h k xs there)
  | inr absent ↦ ground (arith, once-append h k xs)
]

-- The entry of a timer changes; a timer with a posted exit stays marked.
pub put-IsSafe :
    (handle : ℕ) (args : TimerArgs) (s : MultiplexTimer)
    → IsSafe s
    → (contains handle s.posted ≡ true → args.than ≡ kick_down_processing)
    → ((i : ℕ) → find i s.native ≡ some handle → args.native_timer ≡ i)
    → IsSafe (record s { timers = put handle args s.timers })
put-IsSafe handle args s v mark link = record {
  native = λ i h e. elim (Bool-cases (handle == h)) [
    | inl same ↦
        let is = (==_iff handle h).0 same in
        (args, rw (find-put handle h args s.timers) (rw same refl), link i (rw is e))
    | inr differ ↦
        let (old, found, known) = v.native i h e in
        (old, rw (find-put handle h args s.timers) (rw differ found), known)
  ];
  running = λ h e. ground (arith, find-put handle h args s.timers, v.running h e);
  posted = λ h e. elim (Bool-cases (handle == h)) [
    | inl same ↦
        let is = (==_iff handle h).0 same in
        rw (find-put handle h args s.timers) (rw same (ap some (mark (rw is e))))
    | inr differ ↦ rw (find-put handle h args s.timers) (rw differ (v.posted h e))
  ];
  once = v.once;
}

pub some-injective {ℓ} : {A : Type ℓ} {a b : A} → some a ≡ some b → a ≡ b
some-injective e = cc

-- The mark of a timer whose exit is posted.
pub marked :
    (h : ℕ) (args : TimerArgs) (s : MultiplexTimer)
    → IsSafe s
    → find h s.timers ≡ some args
    → contains h s.posted ≡ true
    → args.than ≡ kick_down_processing
marked h args s v found e = let is = v.posted h e in some-injective (rw found at is)

-- The system's timer of a timer that is there.
pub linked :
    (h : ℕ) (args : TimerArgs) (s : MultiplexTimer)
    → IsSafe s
    → find h s.timers ≡ some args
    → (i : ℕ) → find i s.native ≡ some h
    → args.native_timer ≡ i
linked h args s v found i e =
    let (old, there, known) = v.native i h e in
    ap (λ a. a.native_timer) (some-injective (sym found ∙ there)) ∙ known

-- `crack` on a timer that is there.
pub crack-IsSafe :
    (h : ℕ) (args : TimerArgs) (s : MultiplexTimer)
    → IsSafe s
    → find h s.timers ≡ some args
    → IsSafe (record s { running = h ∷ s.running })
unfolding contains
crack-IsSafe h args s v found = record {
  native = v.native;
  running = λ k e. elim (Bool-cases (h == k)) [
    | inl same ↦ λ gone. let is = (==_iff h k).0 same in let no = rw is at found in cc
    | inr differ ↦ v.running k (rw differ at e)
  ];
  posted = v.posted;
  once = v.once;
}

returns-IsSafe :
    (h : ℕ) (args : TimerArgs) (s : MultiplexTimer)
    → IsSafe s
    → (contains h s.posted ≡ true → args.than ≡ kick_down_processing)
    → ((i : ℕ) → find i s.native ≡ some h → args.native_timer ≡ i)
    → IsSafe (record s { timers = put h args s.timers; running = remove_one h s.running })
returns-IsSafe h args s v mark link =
    let w = put-IsSafe h args s v mark link in
    record {
      native = w.native;
      running = λ k e. w.running k (contains-remove_one k h s.running e);
      posted = w.posted;
      once = w.once;
    }

posts-IsSafe :
    (h : ℕ) (s : MultiplexTimer)
    → IsSafe s
    → contains h s.posted ≡ false
    → than_of h s ≡ some kick_down_processing
    → IsSafe (record s { posted = s.posted ++ h ∷ [] })
posts-IsSafe h s v absent mark = record {
  native = v.native;
  running = v.running;
  posted = λ k e. elim (contains-append k h s.posted e) [
    | inl there ↦ v.posted k there
    | inr is ↦ rw is at mark
  ];
  once = λ k. once-append k h s.posted absent (v.once k);
}

-- `start_timer` on a timer that is there and was not started before.
pub armed-IsSafe :
    (h native_timer : ℕ) (args : TimerArgs) (s : MultiplexTimer)
    → IsSafe s
    → find h s.timers ≡ some args
    → ((i : ℕ) → find i s.native ≢ some h)
    → IsSafe (record s {
      timers = put h (record args { native_timer = native_timer }) s.timers;
      native = put native_timer h s.native;
    })
armed-IsSafe h native_timer args s v found first =
    let new_args : TimerArgs = record args { native_timer = native_timer } in
    let w = put-IsSafe h new_args s v (marked h args s v found) (λ i e. absurd (first i e)) in
    record {
      native = λ i k e. elim (Bool-cases (native_timer == i)) [
        | inl same ↦
            let e1 = rw (find-put native_timer i h s.native) at e in
            let is : h ≡ k = some-injective (rw same at e1) in
            (
              new_args,
              rw (sym is) (find-put_self h new_args s.timers),
              (==_iff native_timer i).0 same,
            )
        | inr differ ↦
            let e1 = rw (find-put native_timer i h s.native) at e in w.native i k (rw differ at e1)
      ];
      running = w.running;
      posted = w.posted;
      once = w.once;
    }

-- A callback returns: its timer is marked and its exit posted if it was asked to end.
pub crack_exit-IsSafe :
    (h : ℕ) (args : TimerArgs) (s t : MultiplexTimer)
    → IsSafe s
    → find h s.timers ≡ some args
    → crack_exit h s ≡ some t
    → IsSafe t
unfolding crack_exit compare_exchange
crack_exit-IsSafe h args s t v found e =
    let e1 = rw found at e in
    elim (Bool-cases (args.than == kick_down_the_ladder)) [
      | inl ladder ↦
          let new_args : TimerArgs = record args { than = kick_down_processing } in
          let w = returns-IsSafe h new_args s v (λ _. refl) (linked h args s v found) in
          let absent : contains h s.posted ≡ false = elim (Bool-cases (contains h s.posted)) [
            | inl there ↦ absurd (ground (arith, marked h args s v found there))
            | inr absent ↦ absent
          ] in
          let mark : than_of h (record s { timers = put h new_args s.timers })
              ≡ some kick_down_processing =
            rw (find-put_self h new_args s.timers) refl in
          let e2 = rw ladder at e1 in
          elim (Bool-cases (is_killing s.timer_state)) [
            | inl killing ↦ subst IsSafe (some-injective (rw killing at e2)) w
            | inr runs ↦
                subst IsSafe (some-injective (rw runs at e2)) (posts-IsSafe h _ w absent mark)
          ]
      | inr other ↦
          subst IsSafe (some-injective (rw other at e1))
            (returns-IsSafe h args s v (marked h args s v found) (linked h args s v found))
    ]

pub complete_exit-IsSafe :
    (h : ℕ) (rest : List ℕ) (s t : MultiplexTimer)
    → IsSafe s
    → s.posted ≡ h ∷ rest
    → contains h s.running ≡ false
    → complete_exit s ≡ some t
    → IsSafe t
unfolding complete_exit delete_timer cleanup_user_argument cleanup_handle contains remove_one
complete_exit-IsSafe h rest s t v queue idle e =
    let (args, found, is) = >>=-eq-some (find h s.timers) _ (rw queue at e) in
    let absent : contains h rest ≡ false =
      let o = v.once h in let o1 = rw queue at o in rw (==_refl h) at o1 in
    subst IsSafe (some-injective is) (record {
      native = λ i k e1.
          let e2 = rw (find-erase args.native_timer i s.native) at e1 in
          elim (Bool-cases (args.native_timer == i)) [
            | inl deleted ↦ let e3 = rw deleted at e2 in absurd (cc)
            | inr stays ↦
                let (old, there, known) = v.native i k (rw stays at e2) in
                let ne : h ≢ k = λ q.
                  let is = linked h args s v found i (rw stays at e2 ∙ ap some (sym q)) in
                  let no = (==_iff args.native_timer i).1 is in absurd (cc) in
                (old, rw (find-erase h k s.timers) (rw (==_ne h k ne) there), known)
          ];
      running = λ k e1.
          let ne : h ≢ k = λ q. let there = rw (sym q) at e1 in cc in
          rw (find-erase h k s.timers) (rw (==_ne h k ne) (v.running k e1));
      posted = λ k e1.
          let ne : h ≢ k = λ q. let there = rw (sym q) at e1 in cc in
          let there : contains k s.posted ≡ true = rw queue (rw (==_ne h k ne) e1) in
          rw (find-erase h k s.timers) (rw (==_ne h k ne) (v.posted k there));
      once = λ k.
          let all = v.once k in
          let all1 = rw queue at all in
          elim (Bool-cases (h == k)) [
            | inl same ↦ elim (Bool-cases (contains k (remove_one k rest))) [
              | inl there ↦
                  let is = (==_iff h k).0 same in
                  let more = contains-remove_one k k rest there in
                  let no = rw is at absent in absurd (cc)
              | inr gone ↦ gone
            ]
            | inr differ ↦ let all2 = rw differ at all1 in rw differ at all2
          ];
    })
