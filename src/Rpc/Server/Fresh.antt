-- ===== src/Rpc/Server/Fresh.antt =====
-- imou-rpc-server/imou-rpc-server/imouto_rpc_server.hpp: `_check_xid` of a xid that is new, and of
-- one that is out of reach of the bitmap.
use isu_net.Base.{
  ==_refl, Bool, List, Option-cases, ap, arith, false, inl, inr, none, not, put, refl, some, true,
  ℕ, ◌<◌, ◌∙◌, ◌≡◌, ◌≤◌,
}
use isu_net.Bitmap.Interface.{Bitset}
use isu_net.Bitmap.{set}
use isu_net.Bitmap.Growth.{grown, test_and_set_fault}
use isu_net.Rpc.{RpcCallBody, ReplyBody}
use isu_net.Rpc.Kernel.{done, fault, of_access, bitmap_of, store_bit, set_xid}
use isu_net.Rpc.Kernel.Marks.{marked, set_xid-marked}
use isu_net.Rpc.Server.{Server, check_xid, check_all, process_rpcmsg}

module _ {Bits : Type 0} ⦃B : Bitset Bits⦄ where
  set_xid-set :
      (from xid : ℕ) (old : Bool) (t : Bits) (m : List (ℕ × Bits))
      → set (bitmap_of from m) xid true ≡ some (old, t)
      → set_xid from xid true m ≡ done (old, put from t m)
  unfolding set_xid store_bit of_access
  set_xid-set from xid old t m is = rw (set_xid, store_bit, of_access, is) refl

  set_xid-fault :
      (from xid : ℕ) (m : List (ℕ × Bits))
      → set (bitmap_of from m) xid true ≡ none
      → set_xid from xid true m ≡ fault
  unfolding set_xid store_bit of_access
  set_xid-fault from xid m is = rw (set_xid, store_bit, of_access, is) refl

  check_xid-done :
      (from xid : ℕ) (old : Bool) (m : List (ℕ × Bits)) (s : Server Bits)
      → set_xid from xid true s.xidmap ≡ done (old, m)
      → check_xid from xid s ≡ some (not old, record s { xidmap = m })
  unfolding check_xid
  check_xid-done from xid old m s is = rw (check_xid, is) refl

  -- A new xid that one growth of the bitmap reaches passes, and is marked then.
  pub check_xid-new :
      (from xid : ℕ) (s : Server Bits)
      → marked from xid s.xidmap ≡ false
      → xid < grown (B.size (bitmap_of from s.xidmap))
      → (m : List (ℕ × Bits)) × (check_xid from xid s ≡ some (true, record s { xidmap = m }))
        × (marked from xid m ≡ true)
  check_xid-new from xid s new reach =
      let bits = bitmap_of from s.xidmap in
      elim (Option-cases (set bits xid true)) [
        | inl nothing ↦
            let far = ((test_and_set_fault bits xid).1 true).0 nothing in absurd (omega arith)
        | inr ((old, t), stored) ↦
            let is_done = set_xid-set from xid old t s.xidmap stored in
            let (was, marks) =
              set_xid-marked from xid true old s.xidmap (put from t s.xidmap) is_done in
            (
              put from t s.xidmap,
              check_xid-done from xid old (put from t s.xidmap) s is_done
                  ∙ ap (λ b. some (not b, record s { xidmap = put from t s.xidmap })) (was ∙ new),
              marks from xid ∙ (rw (==_refl from, ==_refl xid) refl),
            )
      ]

  check_xid-fault :
      (from xid : ℕ) (s : Server Bits)
      → set_xid from xid true s.xidmap ≡ fault
      → check_xid from xid s ≡ none
  unfolding check_xid
  check_xid-fault from xid s is = rw (check_xid, is) refl

  -- A message with a xid that one growth of its address's bitmap does not reach (32 or more for an
  -- address of which nothing has come) is an access past the end of the bitmap.
  pub process_rpcmsg_fault :
      (check_verify reply_verify : ℕ → ℕ) (unset : ReplyBody) (from : ℕ) (body : RpcCallBody)
      (memory : List ℕ) (s : Server Bits)
      → grown (B.size (bitmap_of from s.xidmap)) ≤ body.body.head.xid
      → process_rpcmsg check_verify reply_verify unset true from body memory s ≡ none
  unfolding process_rpcmsg check_all
  process_rpcmsg_fault check_verify reply_verify unset from body memory s far =
      let xid = body.body.head.xid in
      let nothing = ((test_and_set_fault (bitmap_of from s.xidmap) xid).1 true).1 far in
      rw (check_xid-fault from xid s (set_xid-fault from xid s.xidmap nothing)) refl
