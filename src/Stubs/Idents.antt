-- ===== src/Stubs/Idents.antt =====
-- imou-rpc-server/src/server_stub_pool.cpp, `stub_ident_allocer`: what is allocated, and what a
-- pool makes of it.
use isu_net.Base.{
  ==_refl, Bool-cases, List, [], false, inl, inr, none, refl, some, sym, true, ℕ, ◌↔◌, ◌∙◌, ◌∷◌,
  ◌≡◌, ◌≢◌,
}
use isu_net.Stubs.{
  StubIdent, StubPool, emplace_register, StubIdentAllocer, same_ident, was_alloced, remove_ident,
  ident_of, try_alloc, erase_ident, find_ident,
}
use isu_net.Stubs.Registry.{emplace_register_lem}

same_ident_refl : (i : StubIdent) → same_ident i i ≡ true
unfolding same_ident
same_ident_refl i = rw (==_refl i.prog, ==_refl i.vers, ==_refl i.proc) refl

remove_ident-gone :
    (i : StubIdent) (js : List StubIdent) → was_alloced i (remove_ident i js) ≡ false
unfolding was_alloced remove_ident
remove_ident-gone i [] = refl
remove_ident-gone i (j ∷ js) = elim (Bool-cases (same_ident j i)) [
  | inl same ↦ rw same (remove_ident-gone i js)
  | inr other ↦ rw other (rw other (remove_ident-gone i js))
]

-- What `try_alloc` allocates is found, and is not allocated a second time; it is new exactly if it
-- was not found before; and after `erase` it is not found any more.
try_alloc_lem :
    (procid ver : ℕ) (a : StubIdentAllocer)
    → let r = try_alloc procid ver a in
      (find_ident procid ver r.1 ≡ some r.0.0)
      × ((try_alloc procid ver r.1).0 ≡ (r.0.0, false))
      × ((r.0.1 ≡ true) ↔ (find_ident procid ver a ≡ none))
      × (find_ident procid ver (erase_ident procid ver r.1) ≡ none)
unfolding try_alloc find_ident erase_ident ident_of was_alloced
try_alloc_lem procid ver a =
    let i = ident_of procid ver a in
    elim (Bool-cases (was_alloced i a.alloced)) [
      | inl old ↦ rw old (
        rw old refl,
        rw old refl,
        (λ e. absurd (cc), λ e. absurd (cc)),
        rw (remove_ident-gone i a.alloced) refl,
      )
      | inr new ↦ rw new (
        rw (same_ident_refl i) refl,
        rw (same_ident_refl i) refl,
        (λ e. refl, λ e. refl),
        rw (remove_ident-gone i (i ∷ a.alloced)) refl,
      )
    ]

-- An ident allocated for a procedure and a version is refused by the pool of this program and
-- version, unless the procedure's number is the version's: the two numbers are exchanged on the
-- way.
pub try_alloc-emplace_register :
    (procid ver stub : ℕ) (a : StubIdentAllocer) (s : StubPool)
    → s.spinlock ≡ false
    → s.ver ≡ ver
    → procid ≢ ver
    → emplace_register (try_alloc procid ver a).0.0 stub s ≡ some ((none, false), s)
unfolding try_alloc ident_of
try_alloc-emplace_register procid ver stub a s free of_ver ne =
    let i = ident_of procid ver a in
    elim (Bool-cases (was_alloced i a.alloced)) [
      | inl old ↦ rw old (refused i refl)
      | inr new ↦ rw new (refused i refl)
    ]
  where
    refused :
        (i : StubIdent) → i.vers ≡ procid → emplace_register i stub s ≡ some ((none, false), s)
    refused i is = elim (emplace_register_lem i stub s free) [
      | inl (other, refuses) ↦ refuses
      | inr (t, first, fresh, key, _, _, _, _, _) ↦ absurd (ne (sym is ∙ key.1 ∙ of_ver))
    ]
