-- ===== src/Udt/Follows.antt =====
-- isu-net/src/udt.cpp, `_insert`: one slice of one group, and what `_recv_groups` holds of it.
use isu_net.Base.{
  ==_refl, All, Bool-cases, List, Option, [], ap, erase, false, find, find-erase, find-put,
  find-put_self, if◌then◌else◌, inl, inr, length, none, put, refl, size_mod, some, true, ℕ, ◌<◌,
  ◌==◌, ◌≡◌,
}
use mathlib.Core.List.{Memᴰ}
use isu_net.Slice.{Block, bytes_of, Combination}
use isu_net.Slice.Pieces.{Chain}
use isu_net.Slice.Layout.{Slices, all_seen, HasData}
use isu_net.Slice.Account.{
  now_seen, Partly, insert-Partly, accepted_all-all_seen, all_seen-message, combine-Partly,
}
use isu_net.Udt.{GroupIdent, Udt}
use isu_net.Udt.Receive.{combin_of, udt_insert}

-- What `_recv_groups` holds for a group, and the starts seen.
unfoldable pub Follows : List ℕ → Slices → List ℕ → Option Combination → Type 0
Follows message slices seen none = seen ≡ []
Follows message slices seen (some c) = Partly message slices seen c

abbrev pub ident_in : ℕ → List ℕ → ℕ → GroupIdent
ident_in g message start = record { group_id = g; slice_start = start; data_size = length message }

module _ (new_block : ℕ → List ℕ) (message : List ℕ) (slices : Slices) where
  combin_of-Partly :
      (g start : ℕ) (seen : List ℕ) (o : Option Combination)
      → ((n : ℕ) → length (new_block n) ≡ n)
      → Follows message slices seen o
      → Partly message slices seen (combin_of new_block (ident_in g message start) o)
  unfolding Follows
  combin_of-Partly g start seen none fresh nothing =
      rw nothing (combine-Partly message slices _ (fresh _))
  combin_of-Partly g start seen (some c) fresh partly = partly

  -- One slice of a group: what comes out, and what is held of it and of the others.
  pub insert-Follows :
      (g : ℕ) (s : List ℕ × Block) (seen : List ℕ) (u : Udt)
      → ((n : ℕ) → length (new_block n) ≡ n)
      → Chain 0 slices (length message)
      → All HasData slices
      → length message < size_mod
      → Memᴰ s slices
      → Follows message slices seen (find g u.recv_groups)
      → (r : Option (List ℕ) × Udt) × (udt_insert new_block
            (ident_in g message s.1.start)
            (bytes_of message s.1)
            u
          ≡ some r)
        × (r.0 ≡ (if all_seen (now_seen s.1.start seen) slices then some message else none))
        × Follows message slices
            (if all_seen (now_seen s.1.start seen) slices then [] else now_seen s.1.start seen)
            (find g r.1.recv_groups)
        × ((h : ℕ) → (g == h) ≡ false → find h r.1.recv_groups ≡ find h u.recv_groups)
        × (all_seen (now_seen s.1.start seen) slices ≡ true → find g r.1.recv_groups ≡ none)
  unfolding Follows udt_insert
  insert-Follows g s seen u fresh chain filled small there v =
      let (c1, is, partly) =
        insert-Partly message slices s seen
          (combin_of new_block (ident_in g message s.1.start) (find g u.recv_groups)) chain filled
          small there (combin_of-Partly g s.1.start seen (find g u.recv_groups) fresh v) in
      let now = now_seen s.1.start seen in
      let done = accepted_all-all_seen message slices now c1 chain filled partly in
      elim (Bool-cases (all_seen now slices)) [
        | inl every ↦ (
          (some c1.memory, record u { recv_groups = erase g u.recv_groups }),
          rw is (rw (done, every) refl),
          rw every (ap some (all_seen-message message slices now c1 chain filled partly every)),
          rw (find-erase g g u.recv_groups, every, ==_refl g) refl,
          λ h differ. rw (find-erase g h u.recv_groups, differ) refl,
          λ e. rw (find-erase g g u.recv_groups, ==_refl g) refl,
        )
        | inr some_left ↦ (
          (none, record u { recv_groups = put g c1 u.recv_groups }),
          rw is (rw (done, some_left) refl),
          rw some_left refl,
          rw (find-put_self g c1 u.recv_groups, some_left) partly,
          λ h differ. rw (find-put g h c1 u.recv_groups, differ) refl,
          λ e. absurd (cc),
        )
      ]
