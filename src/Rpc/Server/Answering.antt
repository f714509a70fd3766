-- ===== src/Rpc/Server/Answering.antt =====
-- imou-rpc-server/imou-rpc-server/imouto_rpc_server.hpp: what a request that is new and in reach of
-- the bitmap comes to.
use isu_net.Base.{
  List, Option, add_size, ap, arith, false, if◌then◌else◌, length, ltb, none, refl, size_mod, some,
  take, take_all, true, ℕ, ◌%◌, ◌*◌, ◌+◌, ◌/◌, ◌<◌, ◌==◌, ◌∙◌, ◌∷◌, ◌≡◌,
}
use isu_net.Bitmap.Interface.{Bitset}
use isu_net.Stubs.{find_success, proc_mismatch, find_stub}
use isu_net.Rpc.{
  imouto_rpc_vers, msg_replay, msg_accepted, msg_denied, rpc_mismatch, auth_error, RpcCallBody,
  ReplyBody, archive_block, rarchive_block,
}
use isu_net.Rpc.Kernel.Marks.{marked, verify_xid-marked}
use isu_net.Rpc.Server.{
  nothing, mismatch, check, Server, check_version, check_user, check_xid, schedule_stub, found_stub,
  check_stub, check_user_and_stub, check_rest, check_all, process_rpcmsg, send_reply,
}

-- What `rarchive_block` makes of a size and the bytes behind it.
abbrev sized : ℕ → List ℕ → Option (ℕ × List ℕ)
sized n content = if ltb (length content) n then none else some (add_size n 4, take n content)

sized_length :
    (n : ℕ) (content : List ℕ)
    → n ≡ length content
    → sized n content ≡ some (add_size (length content) 4, content)
sized_length n content is =
    let enough : ltb (length content) (length content) ≡ false = ground arith in
    ap (λ k. sized k content) is
    ∙ (rw enough (
        ap (λ t. some (add_size (length content) 4, t))
          (take_all (length content) content (omega arith))))

-- A block that is archived is read back.
pub rarchive_block-archive_block :
    (content : List ℕ)
    → length content < size_mod
    → rarchive_block (archive_block content) ≡ some (add_size (length content) 4, content)
unfolding rarchive_block
rarchive_block-archive_block content small =
    let n = length content in
    sized_length
      (n % 256
        + 256 * (n / 256 % 256)
        + 65536 * (n / 65536 % 256)
        + 16777216 * (n / 16777216 % 256))
      content (omega arith)

-- The reply to a request that is new: its head and its trunk back, and the ident.
abbrev pub reply_of : ReplyBody → RpcCallBody → ReplyBody
reply_of unset body = record unset {
  head = record body.body.head { magic = msg_replay };
  trunk = body.trunk;
}

module _ {Bits : Type 0} ⦃B : Bitset Bits⦄ where
  schedule_stub-steps :
      (from stub : ℕ) (reply : ReplyBody) (content : List ℕ) (s : Server Bits)
      → length content < size_mod
      → marked from reply.head.xid s.xidmap ≡ true
      → (m : List (ℕ × Bits)) × (schedule_stub from reply (archive_block content) stub s
          ≡ some (record s {
            xidmap = m;
            threads =
                record { from = from; reply = reply; stub = stub; arguments = content } ∷ s.threads;
          }))
  unfolding schedule_stub
  schedule_stub-steps from stub reply content s small is_marked =
      let (verified, done_is, kept) = verify_xid-marked from reply.head.xid s.xidmap is_marked in
      (verified.1, rw (rarchive_block-archive_block content small) (rw done_is refl))

  module _ (check_verify reply_verify : ℕ → ℕ) (unset : ReplyBody) (from : ℕ) (body : RpcCallBody)
      (content : List ℕ) (s r : Server Bits)
      (new : check_xid from body.body.head.xid s ≡ some (true, r)) where
    -- Of another version: denied.
    pub process_rpcmsg-version :
        (body.body.body.rpcvers == imouto_rpc_vers) ≡ false
        → process_rpcmsg check_verify reply_verify unset true from body (archive_block content) s
          ≡ some (
              send_reply from
                (record (reply_of unset body) { what = msg_denied; stat = rpc_mismatch })
                (mismatch imouto_rpc_vers 0)
                r)
    unfolding process_rpcmsg check_all check_rest check_version
    process_rpcmsg-version wrong = rw new (rw wrong refl)

    -- Of nobody that the verify knows: denied.
    pub process_rpcmsg-user :
        (body.body.body.rpcvers == imouto_rpc_vers) ≡ true
        → (check_verify body.ident == 0) ≡ true
        → process_rpcmsg check_verify reply_verify unset true from body (archive_block content) s
          ≡ some (
              send_reply from
                (record (reply_of unset body) { what = msg_denied; stat = auth_error })
                (check 0)
                r)
    unfolding process_rpcmsg check_all check_rest check_version check_user_and_stub check_user
    process_rpcmsg-user right unknown = rw new (rw right (rw unknown refl))

    -- Accepted, and there is no such procedure.
    pub process_rpcmsg-missing :
        (body.body.body.rpcvers == imouto_rpc_vers) ≡ true
        → (check_verify body.ident == 0) ≡ false
        → find_stub body.body.body.ident r.stubs ≡ some (none, proc_mismatch)
        → process_rpcmsg check_verify reply_verify unset true from body (archive_block content) s
          ≡ some (
              send_reply from
                (record (reply_of unset body) {
                  what = msg_accepted;
                  stat = 2;
                  ident = reply_verify body.ident;
                })
                nothing
                r)
    unfolding process_rpcmsg check_all check_rest check_version check_user_and_stub check_user
        check_stub found_stub
    process_rpcmsg-missing right known missing = rw new (rw right (rw known (rw missing refl)))

    -- Accepted, and the procedure is there: the task.
    pub process_rpcmsg-scheduled :
        (stub : ℕ)
        → length content < size_mod
        → marked from body.body.head.xid r.xidmap ≡ true
        → (body.body.body.rpcvers == imouto_rpc_vers) ≡ true
        → (check_verify body.ident == 0) ≡ false
        → find_stub body.body.body.ident r.stubs ≡ some (some stub, find_success)
        → (m : List (ℕ × Bits)) × (process_rpcmsg check_verify reply_verify unset true from body
              (archive_block content)
              s
            ≡ some (record r {
              xidmap = m;
              threads =
                  record {
                    from = from;
                    reply = record (reply_of unset body) { ident = reply_verify body.ident };
                    stub = stub;
                    arguments = content;
                  }
                  ∷ r.threads;
            }))
    unfolding process_rpcmsg check_all check_rest check_version check_user_and_stub check_user
        check_stub found_stub
    process_rpcmsg-scheduled stub small is_marked right known there =
        let reply = record (reply_of unset body) { ident = reply_verify body.ident } in
        let (m, scheduled) = schedule_stub-steps from stub reply content r small is_marked in
        (m, rw new (rw right (rw known (rw there scheduled))))
