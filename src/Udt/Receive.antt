-- ===== src/Udt/Receive.antt =====
-- isu-net/src/udt.cpp, `_insert` and `recv`.
use isu_net.Base.{
  Bool, List, Option, [], erase, find, if◌then◌else◌, none, put, some, true, ℕ, ◌>>=◌, ◌∷◌,
}
use isu_net.Slice.{Combination, combine, insert, accepted_all}
use isu_net.Udt.{Udt, GroupIdent, cancel_slice, erase_group}
use isu_net.Udt.Ident.{read_ident}

-- What `recv` of the core gives: of a packet that came to its end, the members of the ident that
-- are used; of one that came in, the bytes from `begin` to `end`; or an error.
pub data CoreResult : Type 0 where
  send_complete : (group_id node : ℕ) → (has_locker : Bool) → CoreResult
  accepted : (from : ℕ) → List ℕ → CoreResult
  failed : (error : ℕ) → CoreResult

-- A `udt_recv_result`.
pub data UdtRecvResult : Type 0 where
  message : (from : ℕ) → List ℕ → UdtRecvResult
  error : ℕ → UdtRecvResult

-- The bytes that a new block of some size happens to hold.
module _ (new_block : ℕ → List ℕ) where
  abbrev pub combin_of : GroupIdent → Option Combination → Combination
  combin_of ident none = combine (new_block ident.data_size)
  combin_of ident (some combin) = combin

  -- `_insert`: the message, once it is complete.
  unfoldable pub udt_insert : GroupIdent → List ℕ → Udt → Option (Option (List ℕ) × Udt)
  udt_insert ident content u = do
    combin ← insert ident.slice_start content (combin_of ident (find ident.group_id u.recv_groups))
    some (
        if accepted_all combin
        then (some combin.memory, record u { recv_groups = erase ident.group_id u.recv_groups })
        else (none, record u { recv_groups = put ident.group_id combin u.recv_groups }))

  -- `recv`, on what the core will give: the result, the rest of it, and the state. No result is
  -- waiting for more.
  unfoldable pub recv :
      List CoreResult → Udt → Option (Option (UdtRecvResult × List CoreResult) × Udt)
  unfolding udt_insert cancel_slice erase_group read_ident
  recv [] u = some (none, u)
  recv (send_complete group_id node has_locker ∷ rest) u =
      (if has_locker then cancel_slice node u else some u) >>= λ u1.
      erase_group group_id true u1 >>= λ u2. recv rest u2
  recv (accepted from bytes ∷ rest) u = read_ident bytes >>= λ d. udt_insert d.0 d.1 u >>= λ r.
      elim r.0 [ some memory ↦ some (some (message from memory, rest), r.1) | none ↦ recv rest r.1 ]
  recv (failed e ∷ rest) u = some (some (error e, rest), u)
