-- ===== src/Rpc/Server/Executed.antt =====
-- imou-rpc-server/imou-rpc-server/imouto_rpc_server.hpp: how often a request is carried out.
use isu_net.Base.{
  Bool, Bool-cases, List, [], ap, arith, false, inl, inr, refl, some, some-injective, subst, true,
  ℕ, ◌++◌, ◌+◌, ◌∙◌, ◌∷◌, ◌≡◌, ◌≤◌, ◌⊎◌,
}
use isu_net.Bitmap.Interface.{Bitset}
use isu_net.Stubs.{StubPool}
use isu_net.Rpc.{same, RpcCallBody, ReplyBody}
use isu_net.Rpc.Kernel.Marks.{marked}
use isu_net.Rpc.Server.{Task, Ran, Server, make_server, process_rpcmsg, run_task, call_stub}
use isu_net.Rpc.Server.Account.{Keeps, Schedules, tasks_for, executions}
use isu_net.Rpc.Server.Checks.{check_all-Schedules}

tasks_for-append :
    (f x : ℕ) (before after : List Task)
    → tasks_for f x (before ++ after) ≡ tasks_for f x before + tasks_for f x after
tasks_for-append f x [] after = omega arith
tasks_for-append f x (t ∷ before) after = omega (arith, tasks_for-append f x before after)

module _ {Bits : Type 0} ⦃B : Bitset Bits⦄ (check_verify reply_verify : ℕ → ℕ)
    (stub : ℕ → List ℕ → Ran) (archive_exception : List ℕ → List ℕ) (unknow platform : List ℕ) where
  -- A message of anybody, again or for the first time, or a thread that takes any of the tasks.
  pub data ServerStep (s : Server Bits) : Server Bits → Type 0 where
    receives :
        (unset : ReplyBody) (io_success : Bool) (from : ℕ) (body : RpcCallBody) (memory : List ℕ)
        (w : Server Bits)
        → process_rpcmsg check_verify reply_verify unset io_success from body memory s ≡ some w
        → ServerStep s w
    runs :
        (before : List Task) (t : Task) (after : List Task) (w : Server Bits)
        → s.threads ≡ before ++ t ∷ after
        → run_task archive_exception unknow platform stub before t after s ≡ w
        → ServerStep s w

  pub data ServerReach (s : Server Bits) : Server Bits → Type 0 where
    stays : ServerReach s s
    steps : (r w : Server Bits) → ServerReach s r → ServerStep r w → ServerReach s w

  -- Not carried out, or once and marked.
  record Executed (f x : ℕ) (s : Server Bits) : Type 0 where
    pub entry : (executions f x s ≡ 0) ⊎ ((executions f x s ≡ 1) × (marked f x s.xidmap ≡ true))

  Keeps-Executed : (f x : ℕ) (s w : Server Bits) → Executed f x s → Keeps s w → Executed f x w
  Keeps-Executed f x s w v k = record {
    entry = elim v.entry [
      | inl never ↦ inl (k.count f x ∙ never)
      | inr (once, is_marked) ↦ inr (k.count f x ∙ once, k.marks f x is_marked)
    ];
  }

  Schedules-Executed :
      (f x from xid : ℕ) (s w : Server Bits)
      → Executed f x s
      → Schedules from xid s w
      → marked from xid s.xidmap ≡ false
      → marked from xid w.xidmap ≡ true
      → Executed f x w
  Schedules-Executed f x from xid s w v l was now = elim (Bool-cases (same from xid f x)) [
    | inl is ↦
        let at : (from ≡ f) × (xid ≡ x) = ground (arith, is) in
        let now_at : marked f x w.xidmap ≡ true = rw (← at.0, ← at.1) now in
        let was_at : marked f x s.xidmap ≡ false = rw (← at.0, ← at.1) was in
        elim v.entry [
          | inl never ↦ record { entry = inr (l.count f x ∙ (rw (is, never) refl), now_at) }
          | inr (once, is_marked) ↦ absurd (cc)
        ]
    | inr other ↦
        let more : executions f x w ≡ executions f x s = l.count f x ∙ (rw other (omega arith)) in
        elim v.entry [
          | inl never ↦ record { entry = inl (more ∙ never) }
          | inr (once, is_marked) ↦ record { entry = inr (more ∙ once, l.marks f x is_marked) }
        ]
  ]

  runs-Keeps :
      (before : List Task) (t : Task) (after : List Task) (s : Server Bits)
      → s.threads ≡ before ++ t ∷ after
      → Keeps s (run_task archive_exception unknow platform stub before t after s)
  unfolding run_task call_stub
  runs-Keeps before t after s threads = record {
    marks = λ f x m. m;
    count = λ f x.
        let split = ap (tasks_for f x) threads ∙ tasks_for-append f x before (t ∷ after) in
        omega (arith, split, tasks_for-append f x before after);
  }

  ServerStep-Executed :
      (f x : ℕ) (s w : Server Bits) → Executed f x s → ServerStep s w → Executed f x w
  unfolding process_rpcmsg
  ServerStep-Executed f x s w v (receives unset false from body memory _ is) =
      subst (Executed f x) (some-injective is) v
  ServerStep-Executed f x s w v (receives unset true from body memory _ is) =
      elim (check_all-Schedules check_verify reply_verify from _ body memory s w is) [
        | inl k ↦ Keeps-Executed f x s w v k
        | inr (l, was, now) ↦ Schedules-Executed f x from body.body.head.xid s w v l was now
      ]
  ServerStep-Executed f x s w v (runs before t after _ threads is) =
      subst (Executed f x) is (Keeps-Executed f x s _ v (runs-Keeps before t after s threads))

  ServerReach-Executed :
      (f x : ℕ) (s w : Server Bits) → Executed f x s → ServerReach s w → Executed f x w
  ServerReach-Executed f x s _ v stays = v
  ServerReach-Executed f x s _ v (steps r w reach step) =
      ServerStep-Executed f x r w (ServerReach-Executed f x s r v reach) step

  -- In every history of a new server, however often a request comes again, and in whatever order
  -- the threads take the tasks: the requests of an address with a xid are given to the threads, and
  -- carried out, at most once altogether.
  pub executed_once :
      (stubs : StubPool) (f x : ℕ) (s : Server Bits)
      → ServerReach (make_server stubs) s
      → executions f x s ≤ 1
  unfolding make_server
  executed_once stubs f x s reach =
      let start : Executed f x (make_server stubs) = record { entry = inl refl } in
      let v = ServerReach-Executed f x (make_server stubs) s start reach in
      elim v.entry [
        | inl never ↦ omega (arith, never)
        | inr (once, is_marked) ↦ omega (arith, once)
      ]
