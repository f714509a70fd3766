-- ===== src/Slice/Account.antt =====
-- ex-utility/src/slice.cpp, `combination`: what it holds of a message of which some slices have
-- come.
use isu_net.Base.{
  ==_iff, ==_ne, All, Bool-cases, List, Option-cases, [], add_size, ap, arith, drop, if◌then◌else◌,
  inl, inr, length, length-drop, length-take, mymemcpy, refl, size_mod, some, some-injective, subst,
  sym, take, true, ℕ, ◌+◌, ◌<◌, ◌∙◌, ◌∷◌, ◌≡◌, ◌≤◌,
}
use mathlib.Core.List.{Memᴰ}
use isu_net.Slice.{Block, bytes_of, Combination, combine, insert, accepted_all, was_recved}
use isu_net.Slice.Pieces.{Chain}
use isu_net.Slice.Positions.{get_elem?-ext}
use isu_net.Slice.Together.{Agrees, IsPart, insert_step}
use isu_net.Slice.Layout.{
  Slices, size_at, seen_size, all_seen, HasData, seen_size-bound, all_seen-full, full-all_seen,
  Mem-Chain, seen_size-cons, size_at-Mem, all_seen-covers,
}

-- The starts seen, after another.
abbrev pub now_seen : ℕ → List ℕ → List ℕ
now_seen start seen = if was_recved start seen then seen else start ∷ seen

-- A group that is being put together.
pub record Partly (message : List ℕ) (slices : Slices) (seen : List ℕ) (c : Combination)
    : Type 0 where
  pub starts : c.recved ≡ seen
  pub agrees : Agrees message (size_at slices) c
  pub taken : c.avaliable_memory ≡ seen_size seen slices
  pub whole : c.data_size ≡ length message

-- What `insert` keeps account of.
insert-account :
    (start : ℕ) (content : List ℕ) (c c1 : Combination)
    → insert start content c ≡ some c1
    → (c1.recved ≡ now_seen start c.recved)
      × (c1.avaliable_memory ≡ (
          if was_recved start c.recved
          then c.avaliable_memory
          else add_size c.avaliable_memory (length content)))
      × (c1.data_size ≡ c.data_size)
unfolding insert
insert-account start content c c1 h = elim (Bool-cases (was_recved start c.recved)) [
  | inl old ↦
      let is = some-injective (rw old at h) in
      rw old (
        subst
          (λ x.
            (x.recved ≡ c.recved)
            × (x.avaliable_memory ≡ c.avaliable_memory)
            × (x.data_size ≡ c.data_size))
          is (refl, refl, refl))
  | inr new ↦ elim (Option-cases (mymemcpy c.memory start content (length content))) [
    | inl stops ↦ let none_is = rw (new, stops) at h in absurd (cc)
    | inr (block, copied) ↦
        let is = some-injective (rw (new, copied) at h) in
        rw new (
          subst
            (λ x.
              (x.recved ≡ start ∷ c.recved)
              × (x.avaliable_memory ≡ add_size c.avaliable_memory (length content))
              × (x.data_size ≡ c.data_size))
            is (refl, refl, refl))
  ]
]

slice_size-fits :
    (message : List ℕ) (b : Block)
    → b.start + b.size ≤ length message
    → length (bytes_of message b) ≡ b.size
slice_size-fits message b h =
    omega (arith, length-take b.size (drop b.start message), length-drop b.start message)

seen_size-none : (slices : Slices) → seen_size [] slices ≡ 0
unfolding was_recved
seen_size-none [] = refl
seen_size-none (s ∷ slices) = omega (arith, seen_size-none slices)

module _ (message : List ℕ) (slices : Slices) where
  -- The account of a slice that comes in is that of the starts seen.
  taken-lem :
      (s : List ℕ × Block) (seen recved : List ℕ) (taken n taken1 : ℕ)
      → Chain 0 slices (length message)
      → All HasData slices
      → length message < size_mod
      → Memᴰ s slices
      → taken ≡ seen_size seen slices
      → recved ≡ seen
      → n ≡ s.1.size
      → taken1 ≡ (if was_recved s.1.start recved then taken else add_size taken n)
      → taken1 ≡ seen_size (now_seen s.1.start seen) slices
  taken-lem s seen recved taken n taken1 h d k there e same size account =
      elim (Bool-cases (was_recved s.1.start seen)) [
        | inl old ↦ let now = rw (same, old) at account in rw old (now ∙ e)
        | inr new ↦
            let more = seen_size-cons s seen 0 slices (length message) h d there new in
            let bound = seen_size-bound (s.1.start ∷ seen) 0 slices (length message) h in
            let now = rw (same, new) at account in
            rw new (omega (arith, more, bound, e, k, now, size))
      ]

  -- A slice that is put into its group.
  pub insert-Partly :
      (s : List ℕ × Block) (seen : List ℕ) (c : Combination)
      → Chain 0 slices (length message)
      → All HasData slices
      → length message < size_mod
      → Memᴰ s slices
      → Partly message slices seen c
      → (c1 : Combination) × (insert s.1.start (bytes_of message s.1) c ≡ some c1)
        × Partly message slices (now_seen s.1.start seen) c1
  insert-Partly s seen c h d k there v =
      let (low, high) = Mem-Chain s 0 slices (length message) h there in
      let sized = size_at-Mem s 0 slices (length message) h d there in
      let fits = slice_size-fits message s.1 high in
      let part : IsPart message (size_at slices) (s.1.start, bytes_of message s.1) = record {
        content = ap (λ n. take n (drop s.1.start message)) (sym sized);
        sized = fits ∙ sym sized;
        inside = omega (arith, sized, high);
      } in
      let (c1, is, agrees, got, kept) =
        insert_step message (size_at slices) (s.1.start, bytes_of message s.1) c part v.agrees in
      let (starts, taken, whole) = insert-account s.1.start (bytes_of message s.1) c c1 is in
      (
        c1,
        is,
        record {
          starts = starts ∙ ap (now_seen s.1.start) v.starts;
          agrees = agrees;
          taken =
              taken-lem s seen c.recved c.avaliable_memory (length (bytes_of message s.1))
                c1.avaliable_memory h d k there v.taken v.starts fits taken;
          whole = whole ∙ v.whole;
        },
      )

  -- The bytes taken in are the message's length when every slice has come.
  pub accepted_all-all_seen :
      (seen : List ℕ) (c : Combination)
      → Chain 0 slices (length message)
      → All HasData slices
      → Partly message slices seen c
      → accepted_all c ≡ all_seen seen slices
  unfolding accepted_all
  accepted_all-all_seen seen c h d v = elim (Bool-cases (all_seen seen slices)) [
    | inl every ↦
        let sum = full-all_seen seen 0 slices (length message) h every in
        rw every ((==_iff c.avaliable_memory c.data_size).1 (omega (arith, v.taken, sum, v.whole)))
    | inr some_left ↦ rw some_left (
        ==_ne c.avaliable_memory c.data_size (λ e.
          let every =
            all_seen-full seen 0 slices (length message) h d (omega (arith, e, v.taken, v.whole)) in
          absurd (cc)))
  ]

  pub all_seen-message :
      (seen : List ℕ) (c : Combination)
      → Chain 0 slices (length message)
      → All HasData slices
      → Partly message slices seen c
      → all_seen seen slices ≡ true
      → c.memory ≡ message
  all_seen-message seen c h d v every = get_elem?-ext c.memory message v.agrees.sized (λ i k.
      let (s, there, got, low, high) =
        all_seen-covers i seen 0 slices (length message) h every (omega arith)
          (omega (arith, v.agrees.sized)) in
      let sized = size_at-Mem s 0 slices (length message) h d there in
      v.agrees.same s.1.start (rw v.starts got) i low (omega (arith, sized, high)))

-- The block that a new group gets.
pub combine-Partly :
    (message : List ℕ) (slices : Slices) (block : List ℕ)
    → length block ≡ length message
    → Partly message slices [] (combine block)
unfolding combine was_recved
combine-Partly message slices block h = record {
  starts = refl;
  agrees = record { sized = h; same = λ start got. absurd (cc) };
  taken = sym (seen_size-none slices);
  whole = h;
}
