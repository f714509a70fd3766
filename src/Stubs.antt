-- ===== src/Stubs.antt =====
-- imou-rpc-server/imou-rpc-server/server_stub_pool.hpp and
-- imou-rpc-server/src/server_stub_pool.cpp: `stub_pool`, the procedures of one program and version,
-- and `stub_ident_allocer`. A stub is the number of its object, and an iterator is the stub it
-- points at, `none` for `end()`. `none` of an operation on the pool is a thread that waits for the
-- spinlock for ever: the lock is not recursive, and nobody else is going to unlock what the caller
-- holds.
pub mod Registry
pub mod Idents
use isu_net.Base.{
  Bool, List, Option, [], erase, false, find, if◌then◌else◌, length, none, not, put, some, true, ℕ,
  ◌&&◌, ◌==◌, ◌>>=◌, ◌||◌, ◌∷◌,
}

pub data FindStat : Type 0 where
  find_success : FindStat
  prog_unknow : FindStat
  proc_mismatch : FindStat
  ver_mismatch : FindStat

pub record StubIdent : Type 0 where
  pub prog : ℕ
  pub vers : ℕ
  pub proc : ℕ

pub record StubPool : Type 0 where
  pub prog : ℕ
  pub ver : ℕ
  pub spinlock : Bool
  pub stubs : List (ℕ × ℕ)

unfoldable pub make_pool : ℕ → ℕ → StubPool
make_pool prog ver = record { prog = prog; ver = ver; spinlock = false; stubs = [] }

-- `_enter_write`: the lock is taken, the function runs, and the lock is free again.
unfoldable pub enter_write {ℓ} :
    {A : Type ℓ} → (StubPool → Option (A × StubPool)) → StubPool → Option (A × StubPool)
enter_write fn s =
    if s.spinlock
    then none
    else (fn (record s { spinlock = true }) >>= λ r. some (r.0, record r.1 { spinlock = false }))

-- `_enter_read`.
unfoldable pub enter_read {ℓ} : {A : Type ℓ} → (StubPool → A) → StubPool → Option A
enter_read fn s = if s.spinlock then none else some (fn s)

-- What the statistic is before the map is looked up.
unfoldable pub key_stat : StubIdent → StubPool → FindStat
key_stat key s =
    if not (s.prog == key.prog)
    then prog_unknow
    else if not (s.ver == key.vers)
    then ver_mismatch
    else find_success

-- `find`, which shares its name with the library's lookup here.
unfoldable pub find_stub : StubIdent → StubPool → Option (Option ℕ × FindStat)
unfolding key_stat enter_read
find_stub key s =
    let second = key_stat key s in
    enter_read
      (λ s. elim (find key.proc s.stubs) [
        | none ↦ (none, proc_mismatch)
        | some stub ↦ (some stub, find_success)
      ])
      s

-- The template writes `key.ver` for the field `vers`.
unfoldable pub unregister : StubIdent → StubPool → Option StubPool
unfolding enter_write
unregister key s =
    if not (key.prog == s.prog) || not (key.vers == s.ver)
    then some s
    else (enter_write {A = Bool} (λ s. some (true, record s { stubs = erase key.proc s.stubs })) s
        >>= λ r. some r.1)

-- `hash_map::emplace`: the entry that is there, or the new one, and whether it is new.
unfoldable pub emplace : ℕ → ℕ → List (ℕ × ℕ) → (ℕ × Bool) × List (ℕ × ℕ)
emplace proc stub stubs = elim (find proc stubs) [
  | some old ↦ ((old, false), stubs)
  | none ↦ ((stub, true), put proc stub stubs)
]

-- The iterator, and whether the stub was registered.
unfoldable pub emplace_register : StubIdent → ℕ → StubPool → Option ((Option ℕ × Bool) × StubPool)
unfolding enter_write emplace
emplace_register ident stub s =
    if not (ident.prog == s.prog) || not (ident.vers == s.ver)
    then some ((none, false), s)
    else enter_write
        (λ s.
          let r = emplace ident.proc stub s.stubs in
          some ((some r.0.0, r.0.1), record s { stubs = r.1 }))
        s

unfoldable pub registe : StubIdent → ℕ → StubPool → Option ((Option ℕ × Bool) × StubPool)
unfolding enter_write emplace_register
registe ident stub s = enter_write (emplace_register ident stub) s

unfoldable pub size : StubPool → Option ℕ
unfolding enter_read
size s = enter_read (λ s. length s.stubs) s

-- stub_ident.hpp, `operator==`: the bytes of the three words. The set of the allocer takes the same
-- idents for equal, since its order compares the same bytes.
unfoldable pub same_ident : StubIdent → StubIdent → Bool
same_ident a b = (a.prog == b.prog) && (a.vers == b.vers) && (a.proc == b.proc)

pub record StubIdentAllocer : Type 0 where
  pub progid : ℕ
  pub default_ver : ℕ
  pub alloced : List StubIdent

unfoldable pub was_alloced : StubIdent → List StubIdent → Bool
was_alloced i [] = false
was_alloced i (j ∷ js) = if same_ident j i then true else was_alloced i js

unfoldable pub remove_ident : StubIdent → List StubIdent → List StubIdent
remove_ident i [] = []
remove_ident i (j ∷ js) = if same_ident j i then remove_ident i js else j ∷ remove_ident i js

-- `stub_ident(_progid, procid, ver)`: the constructor's second parameter is the version, its third
-- the procedure.
unfoldable pub ident_of : ℕ → ℕ → StubIdentAllocer → StubIdent
ident_of procid ver a = record { prog = a.progid; vers = procid; proc = ver }

-- `try_alloc`: the ident in the set, and whether it is new.
unfoldable pub try_alloc : ℕ → ℕ → StubIdentAllocer → (StubIdent × Bool) × StubIdentAllocer
unfolding ident_of was_alloced
try_alloc procid ver a =
    let i = ident_of procid ver a in
    if was_alloced i a.alloced
    then ((i, false), a)
    else ((i, true), record a { alloced = i ∷ a.alloced })

unfoldable pub try_alloc_default : ℕ → StubIdentAllocer → (StubIdent × Bool) × StubIdentAllocer
unfolding try_alloc
try_alloc_default procid a = try_alloc procid a.default_ver a

unfoldable pub erase_ident : ℕ → ℕ → StubIdentAllocer → StubIdentAllocer
unfolding ident_of remove_ident
erase_ident procid ver a = record a { alloced = remove_ident (ident_of procid ver a) a.alloced }

-- `ident`, `none` for `end()`.
unfoldable pub find_ident : ℕ → ℕ → StubIdentAllocer → Option StubIdent
unfolding ident_of was_alloced
find_ident procid ver a =
    if was_alloced (ident_of procid ver a) a.alloced then some (ident_of procid ver a) else none
