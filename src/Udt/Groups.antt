-- ===== src/Udt/Groups.antt =====
-- isu-net/src/udt.cpp, `_insert`: an abstract receiver of slices, and a run of the detailed one.
use isu_net.Base.{
  ==_iff, All, Bool-cases, List, Option, [], ap, false, find, if◌then◌else◌, inl, inr, length, none,
  refl, size_mod, some, subst, ℕ, ◌<◌, ◌==◌, ◌>>=◌, ◌∷◌, ◌≡◌,
}
use mathlib.Core.List.{Memᴰ}
use isu_net.Slice.{Block, bytes_of}
use isu_net.Slice.Pieces.{Chain}
use isu_net.Slice.Layout.{Slices, all_seen, HasData}
use isu_net.Slice.Account.{now_seen}
use isu_net.Udt.{GroupIdent, Udt}
use isu_net.Udt.Receive.{udt_insert}
use isu_net.Udt.Follows.{Follows, insert-Follows}

-- What the groups carry: the message of each group, and the slices it was cut into.
pub record Traffic : Type 0 where
  pub messages : ℕ → List ℕ
  pub slices : ℕ → Slices

-- The slices of a group follow each other from the start of its message to the end.
pub record IsCut (t : Traffic) : Type 0 where
  pub chain : (g : ℕ) → Chain 0 (t.slices g) (length (t.messages g))
  pub filled : (g : ℕ) → All HasData (t.slices g)
  pub small : (g : ℕ) → length (t.messages g) < size_mod

-- A slice on its way.
pub record Arrival : Type 0 where
  pub group : ℕ
  pub slice : List ℕ × Block

abbrev pub IsArrival : Traffic → Arrival → Type 0
IsArrival t a = Memᴰ a.slice (t.slices a.group)

abbrev pub ident_of : Traffic → Arrival → GroupIdent
ident_of t a = record {
  group_id = a.group;
  slice_start = a.slice.1.start;
  data_size = length (t.messages a.group);
}

-- The abstract receiver knows the starts seen of each group. It hands a message over when
-- every slice of its group has come, and forgets the group.
abbrev pub forget : ℕ → List ℕ → (ℕ → List ℕ) → (ℕ → List ℕ)
forget group now seen g = if group == g then now else seen g

unfoldable pub abstract_insert : Traffic → Arrival → (ℕ → List ℕ) → Option (List ℕ) × (ℕ → List ℕ)
abstract_insert t a seen =
    let now = now_seen a.slice.1.start (seen a.group) in
    if all_seen now (t.slices a.group)
    then (some (t.messages a.group), forget a.group [] seen)
    else (none, forget a.group now seen)

-- A run of arrivals, with the messages handed over.
unfoldable pub abstract_run : Traffic → List Arrival → (ℕ → List ℕ) → List (Option (List ℕ))
unfolding abstract_insert
abstract_run t [] seen = []
abstract_run t (a ∷ arrivals) seen =
    let r = abstract_insert t a seen in r.0 ∷ abstract_run t arrivals r.1

unfoldable pub udt_run :
    (ℕ → List ℕ) → Traffic → List Arrival → Udt → Option (List (Option (List ℕ)) × Udt)
unfolding udt_insert
udt_run new_block t [] u = some ([], u)
udt_run new_block t (a ∷ arrivals) u =
    udt_insert new_block (ident_of t a) (bytes_of (t.messages a.group) a.slice.1) u >>= λ r.
    udt_run new_block t arrivals r.1 >>= λ rest. some (r.0 ∷ rest.0, rest.1)

module _ (new_block : ℕ → List ℕ) (t : Traffic) where
  -- The groups hold what the abstract receiver has seen.
  abbrev Simulates : (ℕ → List ℕ) → Udt → Type 0
  Simulates seen u = (g : ℕ) → Follows (t.messages g) (t.slices g) (seen g) (find g u.recv_groups)

  -- One slice: both receivers answer the same, and the groups still follow.
  insert-Simulates :
      (seen : ℕ → List ℕ) (a : Arrival) (u : Udt)
      → ((n : ℕ) → length (new_block n) ≡ n)
      → IsCut t
      → IsArrival t a
      → Simulates seen u
      → (r : Option (List ℕ) × Udt) × (udt_insert new_block
            (ident_of t a)
            (bytes_of (t.messages a.group) a.slice.1)
            u
          ≡ some r)
        × (r.0 ≡ (abstract_insert t a seen).0)
        × Simulates (abstract_insert t a seen).1 r.1
  unfolding abstract_insert
  insert-Simulates seen a u fresh cut there v =
      let g = a.group in
      let now = now_seen a.slice.1.start (seen g) in
      let (r, is, out, mine, others, gone) =
        insert-Follows new_block (t.messages g) (t.slices g) g a.slice (seen g) u fresh
          (cut.chain g) (cut.filled g) (cut.small g) there (v g) in
      elim (Bool-cases (all_seen now (t.slices g))) [
        | inl every ↦
            let out1 = rw every at out in
            let mine1 = rw every at mine in
            (r, is, rw every out1, rw every (λ h. held r [] mine1 others h))
        | inr some_left ↦
            let out1 = rw some_left at out in
            let mine1 = rw some_left at mine in
            (r, is, rw some_left out1, rw some_left (λ h. held r now mine1 others h))
      ]
    where
      held :
          (r : Option (List ℕ) × Udt) (now : List ℕ)
          → Follows (t.messages a.group) (t.slices a.group) now (find a.group r.1.recv_groups)
          → ((h : ℕ) → (a.group == h) ≡ false → find h r.1.recv_groups ≡ find h u.recv_groups)
          → (h : ℕ)
          → Follows (t.messages h) (t.slices h) (forget a.group now seen h) (find h r.1.recv_groups)
      held r now mine others h = elim (Bool-cases (a.group == h)) [
        | inl same ↦
            let e = (==_iff a.group h).0 same in
            rw same
              (subst (λ k. Follows (t.messages k) (t.slices k) now (find k r.1.recv_groups)) e mine)
        | inr differ ↦ rw (differ, others h differ) (v h)
      ]

  run-Simulates :
      (arrivals : List Arrival) (seen : ℕ → List ℕ) (u : Udt)
      → ((n : ℕ) → length (new_block n) ≡ n)
      → IsCut t
      → All (IsArrival t) arrivals
      → Simulates seen u
      → (u1 : Udt) × (udt_run new_block t arrivals u ≡ some (abstract_run t arrivals seen, u1))
  unfolding udt_run abstract_run
  run-Simulates [] seen u fresh cut there v = (u, refl)
  run-Simulates (a ∷ arrivals) seen u fresh cut there v =
      let (r, is, out, v1) = insert-Simulates seen a u fresh cut there.0 v in
      let (u1, rest) =
        run-Simulates arrivals (abstract_insert t a seen).1 r.1 fresh cut there.1 v1 in
      (
        u1,
        rw is (
            rw rest
              (ap (λ o. some (o ∷ abstract_run t arrivals (abstract_insert t a seen).1, u1)) out)),
      )

-- Messages of many groups, each below 2^32 bytes and cut into slices that follow each other and are
-- not empty; their slices come in any order, mixed and repeated, at a `udt` that holds no group,
-- and a new block has the size asked for. No `_insert` faults, and the messages handed over, and
-- the places where they are, are those of the abstract receiver, which hands a group's message over
-- when the last of its slices has come.
pub udt_run_lem :
    (new_block : ℕ → List ℕ) (t : Traffic) (arrivals : List Arrival) (u : Udt)
    → ((n : ℕ) → length (new_block n) ≡ n)
    → IsCut t
    → All (IsArrival t) arrivals
    → u.recv_groups ≡ []
    → (u1 : Udt) × (udt_run new_block t arrivals u ≡ some (abstract_run t arrivals (λ g. []), u1))
unfolding Follows find
udt_run_lem new_block t arrivals u fresh cut there empty =
    run-Simulates new_block t arrivals (λ g. []) u fresh cut there (λ g. rw empty refl)
