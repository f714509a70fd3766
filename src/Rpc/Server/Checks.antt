-- ===== src/Rpc/Server/Checks.antt =====
-- imou-rpc-server/imou-rpc-server/imouto_rpc_server.hpp: what the chain of checks does to the marks
-- and to the tasks.
use isu_net.Base.{
  ==_refl, >>=-eq-some, Bool, Bool-cases, List, false, if◌then◌else◌, inl, inr, none-some, not,
  refl, some, some-injective, subst, sym, true, true-false, ℕ, ◌==◌, ◌∙◌, ◌≡◌, ◌⊎◌,
}
use isu_net.Bitmap.Interface.{Bitset}
use isu_net.Rpc.{same, RpcCallBody, ReplyBody, imouto_rpc_vers}
use isu_net.Rpc.Kernel.{set_xid}
use isu_net.Rpc.Kernel.Marks.{Tried-cases, marked, set_xid-marked}
use isu_net.Rpc.Server.{
  Server, check_version, check_user, check_xid, check_user_and_stub, check_all, check_rest,
}
use isu_net.Rpc.Server.Account.{
  Keeps, Schedules, replies-Keeps, Keeps-Schedules, check_stub-Schedules,
}

module _ {Bits : Type 0} ⦃B : Bitset Bits⦄ where
  -- After the check of the xid it is marked, and it passes if it was not.
  abbrev Passed : ℕ → ℕ → Server Bits → Bool × Server Bits → Type 0
  Passed from xid s p =
      Keeps s p.1
      × ((p.0 ≡ false) ⊎ ((marked from xid s.xidmap ≡ false) × (marked from xid p.1.xidmap ≡ true)))

  marks-Passed :
      (from xid : ℕ) (old : Bool) (s : Server Bits) (m1 : List (ℕ × Bits))
      → old ≡ marked from xid s.xidmap
      → ((f x : ℕ) → marked f x m1 ≡ (if same from xid f x then true else marked f x s.xidmap))
      → Passed from xid s (not old, record s { xidmap = m1 })
  marks-Passed from xid old s m1 was marks = (
    record {
      marks = λ f x m. marks f x ∙ (elim (Bool-cases (same from xid f x)) [
        | inl is ↦ rw is refl
        | inr other ↦ rw other m
      ]);
      count = λ f x. refl;
    },
    elim (Bool-cases old) [
      | inl seen ↦ inl (rw seen refl)
      | inr fresh ↦ inr (sym was ∙ fresh, marks from xid ∙ (rw (==_refl from, ==_refl xid) refl))
    ],
  )

  check_xid-Passed :
      (from xid : ℕ) (s : Server Bits) (p : Bool × Server Bits)
      → check_xid from xid s ≡ some p
      → Passed from xid s p
  unfolding check_xid
  check_xid-Passed from xid s p is = elim (Tried-cases (set_xid from xid true s.xidmap)) [
    | inl ((old, m1), done_is) ↦
        let (was, marks) = set_xid-marked from xid true old s.xidmap m1 done_is in
        subst (Passed from xid s) (some-injective (rw (check_xid, done_is) at is))
          (marks-Passed from xid old s m1 was marks)
    | inr (inl thrown) ↦
        subst (Passed from xid s) (some-injective (rw (check_xid, thrown) at is))
          (record { marks = λ f x m. m; count = λ f x. refl }, inl refl)
    | inr (inr faulted) ↦ let none_is = rw (check_xid, faulted) at is in absurd (none-some none_is)
  ]

  after_mark :
      (from xid : ℕ) (s r w : Server Bits)
      → Keeps s r
      → marked from xid s.xidmap ≡ false
      → marked from xid r.xidmap ≡ true
      → Keeps r w ⊎ Schedules from xid r w
      → Keeps s w
        ⊎ (Schedules from xid s w
            × (marked from xid s.xidmap ≡ false)
            × (marked from xid w.xidmap ≡ true))
  after_mark from xid s r w kept was now later = elim (Keeps-Schedules from xid s r w kept later) [
    | inl k ↦ inl k
    | inr l ↦
        inr (l, was, elim later [ inl k ↦ k.marks from xid now | inr m ↦ m.marks from xid now ])
  ]

  module _ (check_verify reply_verify : ℕ → ℕ) where
    check_user_and_stub-Schedules :
        (from : ℕ) (reply : ReplyBody) (body : RpcCallBody) (memory : List ℕ) (s w : Server Bits)
        → marked from reply.head.xid s.xidmap ≡ true
        → check_user_and_stub check_verify reply_verify from reply body memory s ≡ some w
        → Keeps s w ⊎ Schedules from reply.head.xid s w
    unfolding check_user_and_stub check_user
    check_user_and_stub-Schedules from reply body memory s w is_marked is =
        elim (Bool-cases (check_verify body.ident == 0)) [
          | inl refused ↦
              inl (subst (Keeps s) (some-injective (rw refused at is)) (replies-Keeps from _ _ s))
          | inr known ↦ check_stub-Schedules from _ memory body s w is_marked (rw known at is)
        ]

    check_version-Keeps :
        (from vers : ℕ) (reply : ReplyBody) (s : Server Bits)
        → Keeps s (check_version from reply vers s).1
    unfolding check_version
    check_version-Keeps from vers reply s = elim (Bool-cases (vers == imouto_rpc_vers)) [
      | inl right ↦ rw right (record { marks = λ f x m. m; count = λ f x. refl })
      | inr wrong ↦ rw wrong (record { marks = λ f x m. m; count = λ f x. refl })
    ]

    check_rest-Schedules :
        (from : ℕ) (reply : ReplyBody) (body : RpcCallBody) (memory : List ℕ) (s w : Server Bits)
        → marked from reply.head.xid s.xidmap ≡ true
        → check_rest check_verify reply_verify from reply body memory s ≡ some w
        → Keeps s w ⊎ Schedules from reply.head.xid s w
    unfolding check_rest
    check_rest-Schedules from reply body memory s w is_marked is =
        let vers = body.body.body.rpcvers in
        let r = (check_version from reply vers s).1 in
        let kept = check_version-Keeps from vers reply s in
        elim (Bool-cases (check_version from reply vers s).0) [
          | inl right ↦ Keeps-Schedules from reply.head.xid s r w kept (
              check_user_and_stub-Schedules from reply body memory r w
                (kept.marks from reply.head.xid is_marked) (rw right at is))
          | inr wrong ↦ inl (subst (Keeps s) (some-injective (rw wrong at is)) kept)
        ]

    -- A message schedules its request if it was not marked, which it is afterwards, or nothing.
    pub check_all-Schedules :
        (from : ℕ) (reply : ReplyBody) (body : RpcCallBody) (memory : List ℕ) (s w : Server Bits)
        → check_all check_verify reply_verify from reply body memory s ≡ some w
        → Keeps s w
          ⊎ (Schedules from reply.head.xid s w
              × (marked from reply.head.xid s.xidmap ≡ false)
              × (marked from reply.head.xid w.xidmap ≡ true))
    unfolding check_all
    check_all-Schedules from reply body memory s w is =
        let xid = reply.head.xid in
        let (known, checked, then_is) =
          >>=-eq-some (check_xid from xid s)
            (λ p.
              if p.0
              then check_rest check_verify reply_verify from reply body memory p.1
              else some p.1)
            is in
        let (kept, passed) = check_xid-Passed from xid s known checked in
        elim (Bool-cases known.0) [
          | inr seen ↦ inl (subst (Keeps s) (some-injective (rw seen at then_is)) kept)
          | inl fresh ↦ elim passed [
            | inl seen ↦ absurd (true-false (sym fresh ∙ seen))
            | inr (was, now) ↦
                after_mark from xid s known.1 w kept was now
                  (check_rest-Schedules from reply body memory known.1 w now (rw fresh at then_is))
          ]
        ]
