-- ===== src/Stubs/Registry.antt =====
-- imou-rpc-server/imou-rpc-server/server_stub_pool.hpp: what is found after what was registered.
use isu_net.Base.{
  ==_false, ==_iff, ==_ne, Bool, Bool-cases, Option-cases, arith, false, find, find-put,
  find-put_self, inl, inr, none, not, put, refl, some, true, ℕ, ◌==◌, ◌||◌, ◌≡◌, ◌≢◌, ◌⊎◌,
}
use isu_net.Stubs.{
  find_success, proc_mismatch, StubIdent, StubPool, enter_write, enter_read, find_stub, emplace,
  emplace_register, registe,
}

-- The key is of the pool's program and version.
abbrev pub IsKey : StubIdent → StubPool → Type 0
IsKey key s = (key.prog ≡ s.prog) × (key.vers ≡ s.ver)

IsKey-cases : (key : StubIdent) (s : StubPool) → IsKey key s ⊎ (IsKey key s → ⊥)
IsKey-cases key s = elim (Bool-cases (key.prog == s.prog)) [
  | inl prog ↦ elim (Bool-cases (key.vers == s.ver)) [
    | inl vers ↦ inl ((==_iff key.prog s.prog).0 prog, (==_iff key.vers s.ver).0 vers)
    | inr other ↦ inr (λ k. ==_false key.vers s.ver other k.1)
  ]
  | inr other ↦ inr (λ k. ==_false key.prog s.prog other k.0)
]

-- The guard of `emplace_register` and `unregister`.
guard_key :
    (key : StubIdent) (s : StubPool)
    → IsKey key s
    → (not (key.prog == s.prog) || not (key.vers == s.ver)) ≡ false
guard_key key s k = ground (arith, k)

guard_other :
    (key : StubIdent) (s : StubPool)
    → (IsKey key s → ⊥)
    → (not (key.prog == s.prog) || not (key.vers == s.ver)) ≡ true
guard_other key s k = elim (Bool-cases (key.prog == s.prog)) [
  | inl prog ↦ elim (Bool-cases (key.vers == s.ver)) [
    | inl vers ↦ absurd (k ((==_iff key.prog s.prog).0 prog, (==_iff key.vers s.ver).0 vers))
    | inr other ↦ rw (prog, other) refl
  ]
  | inr other ↦ rw other refl
]

-- `find` on a free pool looks at the procedure alone: a stub that is there is found with success
-- for every program and version asked, and a missing one is a mismatch of the procedure;
-- `prog_unknow` and `ver_mismatch` are never the answer.
pub find_stub_lem :
    (key : StubIdent) (s : StubPool)
    → s.spinlock ≡ false
    → ((stub : ℕ)
        → find key.proc s.stubs ≡ some stub
        → find_stub key s ≡ some (some stub, find_success))
      × (find key.proc s.stubs ≡ none → find_stub key s ≡ some (none, proc_mismatch))
unfolding find_stub enter_read
find_stub_lem key s free = (λ stub is. rw free (rw is refl), λ gone. rw free (rw gone refl))

-- Registering in a free pool by `emplace_register`: with a key of another program or version
-- nothing happens; otherwise the lock is free again, the procedure is found with the stub that was
-- first registered for it, and the answer says whether that is the new one. Other procedures are
-- found as before.
pub emplace_register_lem :
    (ident : StubIdent) (stub : ℕ) (s : StubPool)
    → s.spinlock ≡ false
    → ((IsKey ident s → ⊥) × (emplace_register ident stub s ≡ some ((none, false), s)))
      ⊎ ((t : StubPool) × (first : ℕ) × (fresh : Bool) × IsKey ident s
          × (emplace_register ident stub s ≡ some ((some first, fresh), t))
          × (t.spinlock ≡ false)
          × ((find ident.proc s.stubs ≡ some first) × (fresh ≡ false)
              ⊎ ((find ident.proc s.stubs ≡ none) × (first ≡ stub) × (fresh ≡ true)))
          × (find ident.proc t.stubs ≡ some first)
          × ((proc : ℕ) → ident.proc ≢ proc → find proc t.stubs ≡ find proc s.stubs))
unfolding emplace_register enter_write emplace
emplace_register_lem ident stub s free = elim (IsKey-cases ident s) [
  | inr other ↦ inl (other, rw (guard_other ident s other) refl)
  | inl key ↦ elim (Option-cases (find ident.proc s.stubs)) [
    | inr (old, there) ↦ inr (
      record s { spinlock = false },
      old,
      false,
      key,
      rw (guard_key ident s key, free) (rw (emplace, there) refl),
      refl,
      inl (there, refl),
      there,
      λ proc ne. refl,
    )
    | inl gone ↦ inr (
      record s { spinlock = false; stubs = put ident.proc stub s.stubs },
      stub,
      true,
      key,
      rw (guard_key ident s key, free) (rw (emplace, gone) refl),
      refl,
      inr (gone, refl, refl),
      find-put_self ident.proc stub s.stubs,
      λ proc ne. rw (find-put ident.proc proc stub s.stubs) (rw (==_ne ident.proc proc ne) refl),
    )
  ]
]

-- `registe` takes the lock and calls `emplace_register`, which takes it again: on a free pool the
-- call never returns when the key is of the pool's program and version, and otherwise returns that
-- nothing was registered. No call of it registers a stub.
pub registe_lem :
    (ident : StubIdent) (stub : ℕ) (s : StubPool)
    → s.spinlock ≡ false
    → (IsKey ident s × (registe ident stub s ≡ none))
      ⊎ ((IsKey ident s → ⊥) × (registe ident stub s ≡ some ((none, false), s)))
unfolding registe enter_write emplace_register
registe_lem ident stub s free = elim (IsKey-cases ident s) [
  | inl key ↦ inl (key, rw free (rw (guard_key ident s key) refl))
  | inr other ↦ inr (other, rw free (rw (guard_other ident s other) refl))
]
