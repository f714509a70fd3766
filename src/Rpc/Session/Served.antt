-- ===== src/Rpc/Session/Served.antt =====
-- imouto_rpc_server.hpp: the request of a new xid and its reply, as far as the client can tell.
use isu_net.Base.{
  ==_refl, Bool-cases, List, Option-cases, [], add_size, ap, false, find, if◌then◌else◌, inl, inr,
  length, none, refl, size_mod, some, true, ℕ, ◌+◌, ◌<◌, ◌==◌, ◌∙◌, ◌∷◌, ◌≡◌, ◌⊎◌,
}
use isu_net.Bitmap.Interface.{Bitset}
use isu_net.Stubs.{StubIdent}
use isu_net.Stubs.Registry.{find_stub_lem}
use isu_net.Rpc.{
  same, msg_replay, msg_accepted, msg_denied, auth_error, session_success, RpcCallBody, ReplyBody,
  archive_block,
}
use isu_net.Rpc.Kernel.Marks.{marked}
use isu_net.Rpc.Client.{TimerArg, Client, Unset, Request, mission, call_body_of}
use isu_net.Rpc.Client.Process.{Package, lets_through, to_session_stat}
use isu_net.Rpc.Client.Answered.{process_package-answers}
use isu_net.Rpc.Server.{
  nothing, block, check, Reply, Task, Ran, returned, runtime_error, unknow_exception,
  platform_exception, Server, send_reply, process_rpcmsg, run_task, call_stub, result_of, check_xid,
}
use isu_net.Rpc.Server.Answering.{
  process_rpcmsg-user, process_rpcmsg-missing, process_rpcmsg-scheduled, reply_of,
}
use isu_net.Rpc.Session.{
  Parties, trailer_bytes, called_with, run_first, run_last, serve, answer, verdict,
}

result_of-small :
    (archive_exception : List ℕ → List ℕ) (unknow platform : List ℕ) (ran : Ran)
    → let r = result_of archive_exception unknow platform ran in
      add_size r.0 session_success ≡ r.0 + session_success
unfolding result_of
result_of-small archive_exception unknow platform (returned results) = refl
result_of-small archive_exception unknow platform (runtime_error what) = refl
result_of-small archive_exception unknow platform unknow_exception = refl
result_of-small archive_exception unknow platform platform_exception = refl

module _ (P : Parties) where
  -- The request of a new xid at a server whose pool is free, and its answer.
  pub record Served {Bits : Type 0} (dest xid trunk : ℕ) (expected : ℕ × List ℕ) (t : Server Bits)
      : Type 0 where
    pub reply : Reply
    pub before : List Reply
    pub sent : t.sent ≡ reply ∷ before
    pub xid_back : reply.body.head.xid ≡ xid
    pub trunk_back : reply.body.trunk ≡ trunk
    pub magic : (reply.body.head.magic == msg_replay) ≡ true
    pub through : lets_through P.check_reply reply.body ≡ true
    pub code : to_session_stat reply.body.what reply.body.stat ≡ expected.0
    pub bytes : trailer_bytes P.info P.checked reply.trailer ≡ expected.1

  pub answer-answers :
      {Bits : Type 0} (dest xid trunk callback : ℕ) (expected : ℕ × List ℕ) (as_call : RpcCallBody)
      (memory : List ℕ) (c : Client) (t : Server Bits)
      → c.spinlock ≡ false
      → mission dest xid c ≡ some callback
      → Served dest xid trunk expected t
      → (trunk ≡ 0) ⊎ ((a : ℕ × TimerArg) × (find trunk c.timers ≡ some a))
      → (w : Client) × (answer P as_call memory dest t.sent c ≡ some w)
        × (w.called ≡ called_with dest xid callback expected.0 expected.1 ∷ c.called)
        × (mission dest xid w ≡ none)
  unfolding answer
  answer-answers dest xid trunk callback expected as_call memory c t free there v releases =
      let p : Package = record {
        memory = memory;
        as_call = as_call;
        as_reply = v.reply.body;
        rest = trailer_bytes P.info P.checked v.reply.trailer;
      } in
      let (w, is, told, takes) =
        process_package-answers P.check_reply dest callback p c free v.magic
          (ap (λ x. mission dest x c) v.xid_back ∙ there) v.through (rw v.trunk_back releases) in
      (
        w,
        ap (λ sent. answer P as_call memory dest sent c) v.sent ∙ is,
        told
            ∙ ap
                (λ x.
                  called_with dest x callback (to_session_stat v.reply.body.what v.reply.body.stat)
                    (trailer_bytes P.info P.checked v.reply.trailer)
                  ∷ c.called)
                v.xid_back
            ∙ ap
                (λ r.
                  called_with dest xid callback r (trailer_bytes P.info P.checked v.reply.trailer)
                  ∷ c.called)
                v.code
            ∙ ap (λ b. called_with dest xid callback expected.0 b ∷ c.called) v.bytes,
        takes.gone dest xid
            ∙ ap (λ x. if same dest x dest xid then none else mission dest xid c) v.xid_back
            ∙ (rw (==_refl dest, ==_refl xid) refl),
      )

  module _ {Bits : Type 0} ⦃B : Bitset Bits⦄ (from xid trunk : ℕ) (ident : StubIdent)
      (stack : List ℕ) (unset : Unset) (blank : ReplyBody) (m : List (ℕ × Bits)) (s : Server Bits)
      (new : check_xid from xid s ≡ some (true, record s { xidmap = m }))
      (idle : s.threads ≡ []) where
    abbrev body_of : RpcCallBody
    body_of = call_body_of xid ident (P.generic_verify ident) unset trunk

    serve-one :
        (dest : ℕ) (sent : List Request) (r : Server Bits)
        → process_rpcmsg P.check_verify P.reply_verify blank true from body_of
            (archive_block stack)
            s
          ≡ some r
        → serve P blank from (record { dest = dest; body = body_of; stack = stack } ∷ sent) s
          ≡ some (run_last P r)
    unfolding serve
    serve-one dest sent r is = rw (serve, is) refl

    run_last-idle : (r : Server Bits) → r.threads ≡ [] → run_last P r ≡ r
    unfolding run_last run_first
    run_last-idle r is = ap (λ tasks. run_first P tasks r) is

    pub serve-Served :
        (dest : ℕ) (sent : List Request)
        → marked from xid m ≡ true
        → length stack < size_mod
        → s.stubs.spinlock ≡ false
        → P.check_reply (P.reply_verify (P.generic_verify ident)) ≡ true
        → (t : Server Bits) × (serve P blank from
              (record { dest = dest; body = body_of; stack = stack } ∷ sent)
              s
            ≡ some t)
          × Served dest xid trunk (verdict P ident stack s.stubs) t
    unfolding call_body_of to_session_stat trailer_bytes lets_through run_last run_first run_task
        call_stub
    serve-Served dest sent is_marked small free known =
        let r = record s { xidmap = m } in
        elim (Bool-cases (P.check_verify (P.generic_verify ident) == 0)) [
          | inl unknown ↦
              let refusal = record (reply_of blank body_of) {
                what = msg_denied;
                stat = auth_error;
              } in
              let w = send_reply from refusal (check 0) r in
              (
                w,
                serve-one dest sent w (
                      process_rpcmsg-user P.check_verify P.reply_verify blank from body_of stack s r
                        new refl unknown)
                    ∙ ap some (run_last-idle w idle),
                record {
                  reply = record { dest = from; body = refusal; trailer = check 0 };
                  before = s.sent;
                  sent = refl;
                  xid_back = refl;
                  trunk_back = refl;
                  magic = refl;
                  through = refl;
                  code = rw unknown refl;
                  bytes = rw unknown refl;
                },
              )
          | inr user ↦ elim (Option-cases (find ident.proc s.stubs.stubs)) [
            | inl missing ↦
                let body = record (reply_of blank body_of) {
                  what = msg_accepted;
                  stat = 2;
                  ident = P.reply_verify (P.generic_verify ident);
                } in
                let w = send_reply from body nothing r in
                (
                  w,
                  serve-one dest sent w (
                        process_rpcmsg-missing P.check_verify P.reply_verify blank from body_of
                          stack s r new refl user ((find_stub_lem ident s.stubs free).1 missing))
                      ∙ ap some (run_last-idle w idle),
                  record {
                    reply = record { dest = from; body = body; trailer = nothing };
                    before = s.sent;
                    sent = refl;
                    xid_back = refl;
                    trunk_back = refl;
                    magic = refl;
                    through = known;
                    code = rw user (rw missing refl);
                    bytes = rw user (rw missing refl);
                  },
                )
            | inr (f, there) ↦
                let (m2, scheduled) =
                  process_rpcmsg-scheduled P.check_verify P.reply_verify blank from body_of stack s
                    r new f small is_marked refl user
                    ((find_stub_lem ident s.stubs free).0 f there) in
                let reply = record (reply_of blank body_of) {
                  ident = P.reply_verify (P.generic_verify ident);
                } in
                let t : Task = record { from = from; reply = reply; stub = f; arguments = stack } in
                let w = record r { xidmap = m2; threads = t ∷ s.threads } in
                let result = result_of P.archive_exception P.unknow P.platform (P.stub f stack) in
                (
                  run_last P w,
                  serve-one dest sent w scheduled,
                  record {
                    reply = record {
                      dest = from;
                      body = record reply { what = msg_accepted; stat = result.0 };
                      trailer = block result.1;
                    };
                    before = s.sent;
                    sent = refl;
                    xid_back = refl;
                    trunk_back = refl;
                    magic = refl;
                    through = known;
                    code =
                        result_of-small P.archive_exception P.unknow P.platform (P.stub f stack)
                        ∙ (rw user (rw there refl));
                    bytes = rw user (rw there refl);
                  },
                )
          ]
        ]
