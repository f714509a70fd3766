-- ===== src/Rpc/Kernel/Marks.antt =====
-- imou-rpc-kernel/imou-rpc-kernel/imouto_rpc_kernel.hpp: which xids are marked, before and after.
use isu_net.Base.{
  ==_iff, ==_sym, Bool, Bool-cases, List, Option-cases, [], ap, arith, false, find, find-put,
  if◌then◌else◌, inl, inr, not, put, refl, some, sym, true, ℕ, ◌==◌, ◌∙◌, ◌≡◌, ◌⊎◌,
}
use isu_net.Bitmap.Interface.{Bitset}
use isu_net.Bitmap.{have, set, create, have_bit, just_set, just_test, try_extern}
use isu_net.Bitmap.Access.{set_lem}
use isu_net.Rpc.{same}
use isu_net.Rpc.Kernel.{
  Tried, invalid_argument, fault, done, of_access, bitmap_of, get_iter, store_bit, set_xid,
  verify_xid,
}

done-injective {ℓ} : {A : Type ℓ} {a b : A} → done a ≡ done b → a ≡ b
done-injective {a = a} e = ap (λ t. elim t [ done x ↦ x | _ ↦ a ]) e

pub Tried-cases {ℓ} :
    {A : Type ℓ} (t : Tried A) → ((a : A) × (t ≡ done a)) ⊎ (t ≡ invalid_argument) ⊎ (t ≡ fault)
Tried-cases (done a) = inl (a, refl)
Tried-cases invalid_argument = inr (inl refl)
Tried-cases fault = inr (inr refl)

module _ {Bits : Type 0} ⦃B : Bitset Bits⦄ where
  unfoldable pub marked : ℕ → ℕ → List (ℕ × Bits) → Bool
  unfolding bitmap_of have
  marked from xid m = have (bitmap_of from m) xid

  bitmap_of-put :
      (from f : ℕ) (s : Bits) (m : List (ℕ × Bits))
      → bitmap_of f (put from s m) ≡ (if from == f then s else bitmap_of f m)
  unfolding bitmap_of
  bitmap_of-put from f s m = elim (Bool-cases (from == f)) [
    | inl is ↦ rw (bitmap_of, find-put from f s m, is) refl
    | inr other ↦ rw (bitmap_of, find-put from f s m, other) refl
  ]

  marked-put :
      (from f x : ℕ) (s : Bits) (m : List (ℕ × Bits))
      → marked f x (put from s m) ≡ (if from == f then have s x else marked f x m)
  unfolding marked
  marked-put from f x s m =
      rw (bitmap_of-put from f s m)
        (elim (Bool-cases (from == f)) [ inl is ↦ rw is refl | inr other ↦ rw other refl ])

  -- The bit that is stored, in the map.
  stored-marked :
      (from xid : ℕ) (value old : Bool) (s : Bits) (m : List (ℕ × Bits))
      → set (bitmap_of from m) xid value ≡ some (old, s)
      → (old ≡ marked from xid m)
        × ((f x : ℕ)
            → marked f x (put from s m) ≡ (if same from xid f x then value else marked f x m))
  unfolding marked
  stored-marked from xid value old s m is =
      let (reported, bits) = set_lem (bitmap_of from m) xid value old s is in
      (
        reported,
        λ f x. marked-put from f x s m ∙ (elim (Bool-cases (from == f)) [
          | inr other ↦ rw other refl
          | inl at ↦
              let at_f : from ≡ f = (==_iff from f).0 at in rw (at, bits x, ==_sym x xid, at_f) refl
        ]),
      )

  -- A bit of one bitmap, which is that of the address as far as it is in the map, is stored.
  pub store_bit-marked :
      (from xid : ℕ) (value old : Bool) (m m1 : List (ℕ × Bits))
      → store_bit from xid value (bitmap_of from m) m ≡ done (old, m1)
      → (old ≡ marked from xid m)
        × ((f x : ℕ) → marked f x m1 ≡ (if same from xid f x then value else marked f x m))
  unfolding store_bit of_access
  store_bit-marked from xid value old m m1 is =
      elim (Option-cases (set (bitmap_of from m) xid value)) [
        | inl nothing ↦ let is_fault = rw nothing at is in absurd (cc)
        | inr ((reported, s), stored) ↦
            let now = done-injective (rw stored at is) in
            let (was, marks) = stored-marked from xid value reported s m stored in
            (
              sym (ap (λ r. r.0) now) ∙ was,
              λ f x. ap (marked f x) (sym (ap (λ r. r.1) now)) ∙ marks f x,
            )
      ]

  pub set_xid-marked :
      (from xid : ℕ) (value old : Bool) (m m1 : List (ℕ × Bits))
      → set_xid from xid value m ≡ done (old, m1)
      → (old ≡ marked from xid m)
        × ((f x : ℕ) → marked f x m1 ≡ (if same from xid f x then value else marked f x m))
  unfolding set_xid
  set_xid-marked from xid value old m m1 is = store_bit-marked from xid value old m m1 is

  have-create : (s : Bits) (j : ℕ) → s ≡ create 0 → have s j ≡ false
  unfolding have have_bit create
  have-create s j is = rw is (ground (arith, B.size-make 0))

  -- No bit is set in a map without bitmaps.
  pub marked-empty : (from xid : ℕ) (m : List (ℕ × Bits)) → m ≡ [] → marked from xid m ≡ false
  unfolding marked bitmap_of find
  marked-empty from xid m is = have-create (bitmap_of from m) xid (rw is refl)

  -- A marked xid has a bitmap, and a bit in it.
  marked-there :
      (from xid : ℕ) (m : List (ℕ × Bits))
      → marked from xid m ≡ true
      → (s : Bits) × (find from m ≡ some s) × (bitmap_of from m ≡ s) × (have s xid ≡ true)
  unfolding marked
  marked-there from xid m is = elim (Option-cases (find from m)) [
    | inl gone ↦
        let at : bitmap_of from m ≡ create 0 = rw (bitmap_of, gone) refl in
        let never = have-create (bitmap_of from m) xid at in absurd (cc)
    | inr (s, there) ↦
        let at : bitmap_of from m ≡ s = rw (bitmap_of, there) refl in (s, there, at, rw at at is)
  ]

  set-there :
      (s : Bits) (xid : ℕ)
      → have s xid ≡ true
      → (old : Bool) × (s1 : Bits) × (set s xid true ≡ some (old, s1))
  unfolding have have_bit set just_set just_test try_extern
  set-there s xid is = (B.test s xid, B.set s xid true, ground (arith, is))

  has_bit : (s : Bits) (xid : ℕ) → have s xid ≡ true → have_bit s xid ≡ true
  unfolding have have_bit
  has_bit s xid is = ground (arith, is)

  get_iter-there :
      (from xid : ℕ) (s : Bits) (m : List (ℕ × Bits))
      → find from m ≡ some s
      → have_bit s xid ≡ true
      → get_iter from xid m ≡ done s
  unfolding get_iter
  get_iter-there from xid s m there has = rw (get_iter, there) (rw has refl)

  verify_xid-steps :
      (from xid : ℕ) (old : Bool) (s s1 : Bits) (m : List (ℕ × Bits))
      → get_iter from xid m ≡ done s
      → set s xid true ≡ some (old, s1)
      → verify_xid from xid m ≡ done (not old, put from s1 m)
  unfolding verify_xid store_bit of_access
  verify_xid-steps from xid old s s1 m there stored =
      rw (verify_xid, there) (rw (store_bit, of_access, stored) refl)

  same-marked :
      (from xid f x : ℕ) (m : List (ℕ × Bits))
      → marked from xid m ≡ true
      → (if same from xid f x then true else marked f x m) ≡ marked f x m
  same-marked from xid f x m is = elim (Bool-cases (same from xid f x)) [
    | inr other ↦ rw other refl
    | inl is_same ↦
        let at : (from ≡ f) × (xid ≡ x) = ground (arith, is_same) in
        rw is_same (sym (rw (← at.0, ← at.1) is))
  ]

  -- Verifying a marked xid succeeds and changes no mark.
  pub verify_xid-marked :
      (from xid : ℕ) (m : List (ℕ × Bits))
      → marked from xid m ≡ true
      → (r : Bool × List (ℕ × Bits)) × (verify_xid from xid m ≡ done r)
        × ((f x : ℕ) → marked f x r.1 ≡ marked f x m)
  verify_xid-marked from xid m is =
      let (s, there, at, has) = marked-there from xid m is in
      let (old, s1, stored) = set-there s xid has in
      let (was, marks) =
        stored-marked from xid true old s1 m (ap (λ b. set b xid true) at ∙ stored) in
      (
        (not old, put from s1 m),
        verify_xid-steps from xid old s s1 m (get_iter-there from xid s m there (has_bit s xid has))
            stored,
        λ f x. marks f x ∙ same-marked from xid f x m is,
      )
