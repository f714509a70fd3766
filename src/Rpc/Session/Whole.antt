-- ===== src/Rpc/Session/Whole.antt =====
-- imouto_rpc_client.hpp and imouto_rpc_server.hpp together: a call and its answer.
use isu_net.Base.{
  Bool, List, [], add_size, ap, false, length, none, size_mod, some, true, ℕ, ◌<◌, ◌>>=◌, ◌∙◌, ◌∷◌,
  ◌≡◌, ◌⊎◌,
}
use isu_net.Bitmap.Interface.{Bitset}
use isu_net.Stubs.{StubIdent}
use isu_net.Rpc.{RpcCallBody, ReplyBody}
use isu_net.Rpc.Kernel.Marks.{marked}
use isu_net.Rpc.Client.{Client, Unset, Request, call, mission, call_body_of}
use isu_net.Rpc.Server.{Server}
use isu_net.Bitmap.Growth.{grown}
use isu_net.Rpc.Kernel.{bitmap_of}
use isu_net.Rpc.Server.Fresh.{check_xid-new}
use isu_net.Rpc.Client.Begins.{call-Made}
use isu_net.Rpc.Session.{Parties, called_with, serve, answer, verdict, exchange}
use isu_net.Rpc.Session.Served.{answer-answers, serve-Served}

module _ (P : Parties) where
  exchange-steps :
      {Bits : Type 0}
      → ⦃B : Bitset Bits⦄
      → (from dest ms xid : ℕ) (ident : StubIdent) (stack : List ℕ) (callback : ℕ) (sync : Bool)
        (timer : ℕ) (unset : Unset) (blank : ReplyBody) (as_call : RpcCallBody) (memory : List ℕ)
        (c c1 w : Client) (s t : Server Bits) (sent : List Request)
      → call P.generic_verify dest ms ident stack callback sync timer unset c ≡ some (xid, c1)
      → c1.sent ≡ sent
      → serve P blank from sent s ≡ some t
      → answer P as_call memory dest t.sent c1 ≡ some w
      → exchange P from dest ms ident stack callback sync timer unset blank as_call memory c s
        ≡ some w
  unfolding exchange
  exchange-steps from dest ms xid ident stack callback sync timer unset blank as_call memory c c1 w
        s t sent calls is serves answers =
      rw (exchange, calls)
        (ap (λ q. serve P blank from q s >>= λ t. answer P as_call memory dest t.sent c1) is
          ∙ (rw serves answers))

  pub session_lem :
      {Bits : Type 0}
      → ⦃B : Bitset Bits⦄
      → (from dest ms : ℕ) (ident : StubIdent) (stack : List ℕ) (callback : ℕ) (sync : Bool)
        (timer : ℕ) (unset : Unset) (blank : ReplyBody) (as_call : RpcCallBody) (memory : List ℕ)
        (c : Client) (s : Server Bits)
      → c.spinlock ≡ false
      → (sync ≡ false) ⊎ (unset.trunk ≡ 0)
      → s.stubs.spinlock ≡ false
      → s.threads ≡ []
      → mission dest (add_size c.last_xid 1) c ≡ none
      → marked from (add_size c.last_xid 1) s.xidmap ≡ false
      → add_size c.last_xid 1 < grown (B.size (bitmap_of from s.xidmap))
      → length stack < size_mod
      → P.check_reply (P.reply_verify (P.generic_verify ident)) ≡ true
      → let xid = add_size c.last_xid 1 in
        let expected = verdict P ident stack s.stubs in
        (w : Client) × (exchange P from dest ms ident stack callback sync timer unset blank as_call
            memory c s
          ≡ some w)
        × (w.called ≡ called_with dest xid callback expected.0 expected.1 ∷ c.called)
        × (mission dest xid w ≡ none)
  unfolding call_body_of
  session_lem from dest ms ident stack callback sync timer unset blank as_call memory c s locked
        kept busy idle unused new reach small known =
      let xid = add_size c.last_xid 1 in
      let expected = verdict P ident stack s.stubs in
      let (m, passes, is_marked) = check_xid-new from xid s new reach in
      let (c1, trunk, calls, made) =
        call-Made P.generic_verify dest ms ident stack callback sync timer unset c locked unused
          kept in
      let (t, serves, served) =
        serve-Served P from xid trunk ident stack unset blank m s passes idle dest c.sent is_marked
          small busy known in
      let (w, answers, told, gone) =
        answer-answers P dest xid trunk callback (verdict P ident stack s.stubs) as_call memory c1 t
          made.free made.there served made.releases in
      (
        w,
        exchange-steps from dest ms xid ident stack callback sync timer unset blank as_call memory c
            c1 w s t _ calls made.sent serves answers,
        told
            ∙ ap (λ before. called_with dest xid callback expected.0 expected.1 ∷ before)
                made.called,
        gone,
      )
