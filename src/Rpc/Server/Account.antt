-- ===== src/Rpc/Server/Account.antt =====
-- imou-rpc-server/imou-rpc-server/imouto_rpc_server.hpp: what a message does to the marks and to
-- the tasks.
use isu_net.Base.{
  >>=-eq-some, List, Option, Option-cases, [], ap, arith, if◌then◌else◌, inl, inr, none, none-some,
  refl, some, some-injective, subst, true, ℕ, ◌+◌, ◌∙◌, ◌∷◌, ◌≡◌, ◌⊎◌,
}
use isu_net.Bitmap.Interface.{Bitset}
use isu_net.Stubs.{FindStat, find_success, prog_unknow, proc_mismatch, ver_mismatch, find_stub}
use isu_net.Rpc.{same, RpcCallBody, ReplyBody, rarchive_block}
use isu_net.Rpc.Kernel.Marks.{marked, verify_xid-marked}
use isu_net.Rpc.Server.{
  Trailer, nothing, Task, Server, send_reply, schedule_stub, found_stub, check_stub,
}

-- How many of the tasks are for an address and a xid.
abbrev pub tasks_for : ℕ → ℕ → List Task → ℕ
tasks_for f x [] = 0
tasks_for f x (t ∷ tasks) =
    (if same t.from t.reply.head.xid f x then 1 else 0) + tasks_for f x tasks

-- How often a request was given to the threads.
abbrev pub executions : {Bits : Type 0} → ℕ → ℕ → Server Bits → ℕ
executions f x s = tasks_for f x s.threads + tasks_for f x s.ran

module _ {Bits : Type 0} ⦃B : Bitset Bits⦄ where
  -- Nothing is scheduled, and no mark goes.
  pub record Keeps (s w : Server Bits) : Type 0 where
    pub marks : (f x : ℕ) → marked f x s.xidmap ≡ true → marked f x w.xidmap ≡ true
    pub count : (f x : ℕ) → executions f x w ≡ executions f x s

  -- One request is scheduled, and no mark goes.
  pub record Schedules (from xid : ℕ) (s w : Server Bits) : Type 0 where
    pub marks : (f x : ℕ) → marked f x s.xidmap ≡ true → marked f x w.xidmap ≡ true
    pub count :
        (f x : ℕ) → executions f x w ≡ (if same from xid f x then 1 else 0) + executions f x s

  pub replies-Keeps :
      (from : ℕ) (reply : ReplyBody) (t : Trailer) (s : Server Bits)
      → Keeps s (send_reply from reply t s)
  replies-Keeps from reply t s = record { marks = λ f x m. m; count = λ f x. refl }

  pub Keeps-Schedules :
      (from xid : ℕ) (s r w : Server Bits)
      → Keeps s r
      → Keeps r w ⊎ Schedules from xid r w
      → Keeps s w ⊎ Schedules from xid s w
  Keeps-Schedules from xid s r w k (inl l) = inl (record {
    marks = λ f x m. l.marks f x (k.marks f x m);
    count = λ f x. l.count f x ∙ k.count f x;
  })
  Keeps-Schedules from xid s r w k (inr l) = inr (record {
    marks = λ f x m. l.marks f x (k.marks f x m);
    count = λ f x. l.count f x ∙ ap (λ n. (if same from xid f x then 1 else 0) + n) (k.count f x);
  })

  schedule_stub-Schedules :
      (from stub : ℕ) (reply : ReplyBody) (memory : List ℕ) (s w : Server Bits)
      → marked from reply.head.xid s.xidmap ≡ true
      → schedule_stub from reply memory stub s ≡ some w
      → Schedules from reply.head.xid s w
  unfolding schedule_stub
  schedule_stub-Schedules from stub reply memory s w is_marked is =
      elim (Option-cases (rarchive_block memory)) [
        | inl short ↦ let none_is = rw short at is in absurd (cc)
        | inr (r, read) ↦
            let (verified, done_is, kept) =
              verify_xid-marked from reply.head.xid s.xidmap is_marked in
            let read_is = rw (schedule_stub, read) at is in
            let now = rw done_is at read_is in
            subst (Schedules from reply.head.xid s) (some-injective now)
              (record { marks = λ f x m. kept f x ∙ m; count = λ f x. omega arith })
      ]

  found_stub-Schedules :
      (stat : FindStat) (place : Option ℕ) (from : ℕ) (reply : ReplyBody) (memory : List ℕ)
      (s w : Server Bits)
      → marked from reply.head.xid s.xidmap ≡ true
      → found_stub stat place from reply memory s ≡ some w
      → Keeps s w ⊎ Schedules from reply.head.xid s w
  unfolding found_stub
  found_stub-Schedules find_success (some stub) from reply memory s w is_marked is =
      inr (schedule_stub-Schedules from stub reply memory s w is_marked is)
  found_stub-Schedules find_success none from reply memory s w is_marked is = absurd (none-some is)
  found_stub-Schedules prog_unknow place from reply memory s w is_marked is =
      inl (subst (Keeps s) (some-injective is) (replies-Keeps from _ nothing s))
  found_stub-Schedules proc_mismatch place from reply memory s w is_marked is =
      inl (subst (Keeps s) (some-injective is) (replies-Keeps from _ nothing s))
  found_stub-Schedules ver_mismatch place from reply memory s w is_marked is =
      inl (subst (Keeps s) (some-injective is) (replies-Keeps from _ nothing s))

  pub check_stub-Schedules :
      (from : ℕ) (reply : ReplyBody) (memory : List ℕ) (body : RpcCallBody) (s w : Server Bits)
      → marked from reply.head.xid s.xidmap ≡ true
      → check_stub from reply memory body s ≡ some w
      → Keeps s w ⊎ Schedules from reply.head.xid s w
  unfolding check_stub
  check_stub-Schedules from reply memory body s w is_marked is =
      let (pair, found, then_is) =
        >>=-eq-some (find_stub body.body.body.ident s.stubs)
          (λ pair. found_stub pair.1 pair.0 from reply memory s) is in
      found_stub-Schedules pair.1 pair.0 from reply memory s w is_marked then_is
