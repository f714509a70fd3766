-- ===== src/Trans/Seen.antt =====
-- isu-net/src/trans_core.cpp: which packets have been seen, delivered and queued, and what the map
-- `_received` says after an arrival.
use isu_net.Base.{
  >>=-eq-some, Bool, List, [], ap, arith, if◌then◌else◌, none, refl, some, true, ℕ, ◌&&◌, ◌++◌, ◌+◌,
  ◌==◌, ◌↔◌, ◌∷◌, ◌≡◌,
}
use isu_net.Bitmap.Interface.{Bitset}
use isu_net.Bitmap
use isu_net.Bitmap.Access.{test_and_set_lem}
use isu_net.Socket.{Sockaddr, sockaddr_key, lt_sockaddr, same_key}
use isu_net.Trans.State.{
  recv_complete, CompleteIoResult, Posted, received_at, received_put, received_test_and_set,
}
use isu_net.Trans.Receive.{completion}

pub same_key_iff : (a b : Sockaddr) → (same_key a b ≡ true) ↔ (sockaddr_key a ≡ sockaddr_key b)
unfolding same_key lt_sockaddr
same_key_iff a b = ground arith

pub same_key_refl : (a : Sockaddr) → same_key a a ≡ true
same_key_refl a = (same_key_iff a a).1 refl

-- 1 for a delivery of packet `i` from the peers that share the key of `a`, and 0 for all else.
abbrev pub is_delivery : Sockaddr → ℕ → CompleteIoResult → ℕ
is_delivery a i r =
    if (r.io_type == recv_complete) && same_key r.from a
    then elim r.memory [ none ↦ 0 | some p ↦ if p.head.id == i then 1 else 0 ]
    else 0

unfoldable pub deliveries : Sockaddr → ℕ → List CompleteIoResult → ℕ
deliveries a i [] = 0
deliveries a i (r ∷ rs) = is_delivery a i r + deliveries a i rs

pub deliveries-append :
    (a : Sockaddr) (i : ℕ) (xs ys : List CompleteIoResult)
    → deliveries a i (xs ++ ys) ≡ deliveries a i xs + deliveries a i ys
unfolding deliveries
deliveries-append a i [] ys = omega arith
deliveries-append a i (x ∷ xs) ys = omega (arith, deliveries-append a i xs ys)

-- The deliveries that still lie in the completion port.
unfoldable pub queued : Sockaddr → ℕ → List Posted → ℕ
queued a i [] = 0
queued a i (p ∷ ps) = is_delivery a i (completion p) + queued a i ps

pub queued-append_one :
    (a : Sockaddr) (i : ℕ) (ps : List Posted) (p : Posted)
    → queued a i (ps ++ p ∷ []) ≡ queued a i ps + is_delivery a i (completion p)
unfolding queued
queued-append_one a i [] p = omega arith
queued-append_one a i (x ∷ ps) p = omega (arith, queued-append_one a i ps p)

module _ {Bits : Type 0} ⦃B : Bitset Bits⦄ where
  -- `_received` has the bit of packet `i` for the key of `a`.
  abbrev pub seen : Sockaddr → ℕ → List (Sockaddr × Bits) → Bool
  seen a i m = Bitmap.have (received_at a m) i

  pub received_at-put :
      (a b : Sockaddr) (bits : Bits) (m : List (Sockaddr × Bits))
      → received_at b (received_put a bits m) ≡ (if same_key a b then bits else received_at b m)
  unfolding received_at received_put
  received_at-put a b bits [] = refl
  received_at-put a b bits ((c, old) ∷ m) =
      ground
        (arith, received_at-put a b bits m, same_key_iff a b, same_key_iff c a, same_key_iff c b)

  pub received_at-same_key :
      (a b : Sockaddr) (m : List (Sockaddr × Bits))
      → same_key a b ≡ true
      → received_at a m ≡ received_at b m
  unfolding received_at
  received_at-same_key a b [] h = refl
  received_at-same_key a b ((c, old) ∷ m) h =
      ground
        (arith, received_at-same_key a b m h, same_key_iff a b, same_key_iff c a, same_key_iff c b)

  pub seen-same_key :
      (a b : Sockaddr) (i : ℕ) (m : List (Sockaddr × Bits))
      → same_key a b ≡ true
      → seen a i m ≡ seen b i m
  seen-same_key a b i m h = ap (λ s. Bitmap.have s i) (received_at-same_key a b m h)

  pub seen-put :
      (a b : Sockaddr) (id j : ℕ) (m : List (Sockaddr × Bits)) (old : Bool) (bits : Bits)
      → Bitmap.test_and_set (received_at a m) id ≡ some (old, bits)
      → seen b j (received_put a bits m) ≡ (if same_key a b && (j == id) then true else seen b j m)
  seen-put a b id j m old bits e = ground (
    arith,
    ap (λ s. Bitmap.have s j) (received_at-put a b bits m),
    (test_and_set_lem (received_at a m) id old bits e).1 j,
    seen-same_key a b j m,
  )

  -- `_received[a].test_and_set(id)` reports the old bit, sets that bit and no other, for all
  -- addresses at once that share the key of `a`.
  pub received_test_and_set_lem :
      (a : Sockaddr) (id : ℕ) (m m' : List (Sockaddr × Bits)) (old : Bool)
      → received_test_and_set a id m ≡ some (old, m')
      → (old ≡ seen a id m)
        × ((b : Sockaddr) (j : ℕ)
            → seen b j m' ≡ (if same_key a b && (j == id) then true else seen b j m))
  unfolding received_test_and_set
  received_test_and_set_lem a id m m' old e =
      let (r, er, ee) = >>=-eq-some (Bitmap.test_and_set (received_at a m) id) _ e in
      (
        ground (arith, (test_and_set_lem (received_at a m) id r.0 r.1 er).0),
        λ b j. ground (arith, seen-put a b id j m r.0 r.1 er),
      )
