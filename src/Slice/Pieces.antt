-- ===== src/Slice/Pieces.antt =====
-- ex-utility/src/slice.cpp, `slicer`: the slices that `generic_all` makes.
use isu_net.Base.{
  ==_false, ==_iff, ==_ne, All, All-append, Bool-cases, List, Option-cases, [], add_size, ap,
  append-nil, append_assoc, arith, drop, false, if◌then◌else◌, inl, inr, length, ltb, min, none,
  refl, size_mod, some, sub_size, suc, sym, take, take_all, zero, ℕ, ◌++◌, ◌+◌, ◌-◌, ◌<◌, ◌==◌,
  ◌>>=◌, ◌∙◌, ◌∷◌, ◌≡◌, ◌≢◌, ◌≤◌,
}
use isu_net.Slice.{
  Block, bytes_of, sizeof_slice_head, ceil_div, how_many_slice, compute_seralize_size, Slicer,
  new_slicer, make_slicer, slice_end, generic, generic_all, generic_to,
}

-- The data of the slices, one after the other.
abbrev pub contents : List ℕ → List (List ℕ × Block) → List ℕ
contents memory [] = []
contents memory (s ∷ slices) = bytes_of memory s.1 ++ contents memory slices

-- Each slice starts where the one before it ends; the last ends at `end`.
abbrev pub Chain : ℕ → List (List ℕ × Block) → ℕ → Type 0
Chain from [] end = from ≡ end
Chain from (s ∷ slices) end = (s.1.start ≡ from) × Chain (from + s.1.size) slices end

-- A packet: the head that was generated for its start, and some data, in one slice's size.
abbrev pub IsPacket : (ℕ → ℕ → List ℕ) → ℕ → List ℕ × Block → Type 0
IsPacket gen slice_size s =
    (s.0 ≡ gen 0 s.1.start) × (0 < s.1.size) × (length s.0 + s.1.size ≤ slice_size)

take_nil : (n : ℕ) → take {A = ℕ} n [] ≡ []
take_nil zero = refl
take_nil (suc n) = refl

take-append_more : (u n : ℕ) (xs : List ℕ) → take u xs ++ take n (drop u xs) ≡ take (u + n) xs
take-append_more zero n xs = let same : n ≡ zero + n = omega arith in ap (λ k. take k xs) same
take-append_more (suc u) n [] = take_nil n ∙ sym (take_nil (suc u + n))
take-append_more (suc u) n (x ∷ xs) =
    let same : suc (u + n) ≡ suc u + n = omega arith in
    ap (◌∷◌ x) (take-append_more u n xs) ∙ ap (λ k. take k (x ∷ xs)) same

-- What a slice takes: what is left, or the room behind the head.
data_size_lem :
    (len used room head : ℕ)
    → used ≤ len
    → len < size_mod
    → head < room
    → room < size_mod
    → (if ltb (sub_size len used) (sub_size room head)
        then sub_size len used
        else sub_size room head)
      ≡ min (len - used) (room - head)
data_size_lem len used room head h i j k = ground arith

Chain-append :
    (from mid : ℕ) (xs : List (List ℕ × Block)) (s : List ℕ × Block)
    → Chain from xs mid
    → s.1.start ≡ mid
    → Chain from (xs ++ s ∷ []) (mid + s.1.size)
Chain-append from mid [] s h e = (e ∙ sym h, ap (λ k. k + s.1.size) h)
Chain-append from mid (x ∷ xs) s h e = (h.0, Chain-append (from + x.1.size) mid xs s h.1 e)

contents_append :
    (memory : List ℕ) (xs : List (List ℕ × Block)) (s : List ℕ × Block)
    → contents memory (xs ++ s ∷ []) ≡ contents memory xs ++ bytes_of memory s.1
contents_append memory [] s = append-nil (bytes_of memory s.1)
contents_append memory (x ∷ xs) s =
    ap (λ l. bytes_of memory x.1 ++ l) (contents_append memory xs s)
    ∙ sym (append_assoc (bytes_of memory x.1) (contents memory xs) (bytes_of memory s.1))

module _ (gen : ℕ → ℕ → List ℕ) (memory : List ℕ) (slice_size : ℕ) where
  -- The slices so far are the memory used.
  pub record IsSliced (s : Slicer) : Type 0 where
    pub same : s.memory ≡ memory
    pub sized : s.slice_size ≡ slice_size
    pub first : s.current_slice_id ≡ 0
    pub inside : s.used_memory ≤ length memory
    pub filled : contents memory s.slices ≡ take s.used_memory memory
    pub chain : Chain 0 s.slices s.used_memory
    pub packets : All (IsPacket gen slice_size) s.slices

  generic_step :
      (s : Slicer)
      → ((start : ℕ) → length (gen 0 start) < slice_size)
      → slice_size < size_mod
      → length memory < size_mod
      → IsSliced s
      → s.used_memory < length memory
      → (s1 : Slicer) × (generic gen s ≡ some s1) × IsSliced s1 × (s.used_memory < s1.used_memory)
  unfolding generic
  generic_step s small k j v less =
      let head = gen s.current_slice_id s.used_memory in
      let whole : length s.memory ≡ length memory = ap length v.same in
      let head_small : length head < slice_size = rw v.first (small s.used_memory) in
      let n = min (length s.memory - s.used_memory) (s.slice_size - length head) in
      let total : add_size s.used_memory n ≡ s.used_memory + n = omega (arith, v.inside) in
      let inside : ltb (length s.memory) s.used_memory ≡ false = ground (arith, whole) in
      let size =
        data_size_lem (length s.memory) s.used_memory s.slice_size (length head)
          (omega (arith, whole)) (omega (arith, whole)) (omega (arith, v.sized))
          (omega (arith, v.sized)) in
      let b : Block = record { start = s.used_memory; size = n } in
      let s1 : Slicer = record s {
        slices = s.slices ++ (head, b) ∷ [];
        used_memory = s.used_memory + n;
      } in
      (
        s1,
        rw (inside, size, total) refl,
        record {
          same = v.same;
          sized = v.sized;
          first = v.first;
          inside = omega (arith, whole);
          filled =
              contents_append memory s.slices (head, b)
              ∙ ap (λ l. l ++ bytes_of memory b) v.filled
              ∙ take-append_more s.used_memory n memory;
          chain = Chain-append 0 s.used_memory s.slices (head, b) v.chain refl;
          packets = All-append (IsPacket gen slice_size) s.slices ((head, b) ∷ []) v.packets (
            (
              ap (λ i. gen i s.used_memory) v.first,
              omega (arith, whole, v.sized),
              omega (arith, v.sized),
            ),
            tt,
          );
        },
        omega (arith, whole, v.sized),
      )

  all-IsSliced :
      (fuel : ℕ) (s : Slicer)
      → ((start : ℕ) → length (gen 0 start) < slice_size)
      → slice_size < size_mod
      → length memory < size_mod
      → IsSliced s
      → length memory < s.used_memory + fuel
      → (s1 : Slicer) × (generic_all gen fuel s ≡ some s1)
        × IsSliced s1
        × (s1.used_memory ≡ length memory)
  unfolding generic_all slice_end
  all-IsSliced zero s small k j v h = absurd (omega (arith, v.inside))
  all-IsSliced (suc fuel) s small k j v h =
      let whole : length s.memory ≡ length memory = ap length v.same in
      elim (Bool-cases (s.used_memory == length s.memory)) [
        | inl end ↦ (s, rw end refl, v, (==_iff s.used_memory (length s.memory)).0 end ∙ whole)
        | inr more ↦
            let less : s.used_memory < length memory =
              omega (arith, whole, ==_false s.used_memory (length s.memory) more, v.inside) in
            let (s1, one, v1, grows) = generic_step s small k j v less in
            let (s2, rest, v2, end) = all-IsSliced fuel s1 small k j v1 (omega arith) in
            (s2, rw more (rw one rest), v2, end)
      ]

-- With room for data in a slice the constructor does not throw.
make_slicer_lem :
    (memory : List ℕ) (slice_size keep : ℕ)
    → keep + sizeof_slice_head < slice_size
    → slice_size < size_mod
    → make_slicer memory slice_size keep ≡ some (new_slicer memory slice_size)
unfolding make_slicer compute_seralize_size how_many_slice ceil_div
make_slicer_lem memory slice_size keep room small =
    let head = keep + sizeof_slice_head in
    let d : slice_size - head ≡ suc (slice_size - head - 1) = omega arith in
    let whole : add_size keep sizeof_slice_head ≡ head = omega arith in
    let fits : ltb slice_size head ≡ false = ground arith in rw (whole, fits, d) refl

-- With a reserve and a `slice_head` that leave room for data in a slice, heads for id 0 that are
-- shorter than a slice, and sizes below 2^32, the constructor does not throw, and `generic_all` of
-- the new slicer ends: one round for each byte, and one more, is enough. The slices follow each
-- other from the start of the memory to its end, their data together is the memory, none is empty,
-- each has the head generated for its start, and fits a packet.
pub generic_all_lem :
    (gen : ℕ → ℕ → List ℕ) (memory : List ℕ) (slice_size keep : ℕ)
    → ((start : ℕ) → length (gen 0 start) < slice_size)
    → keep + sizeof_slice_head < slice_size
    → slice_size < size_mod
    → length memory < size_mod
    → (s : Slicer) × ((make_slicer memory slice_size keep >>= generic_all gen (length memory + 1))
        ≡ some s)
      × (contents memory s.slices ≡ memory)
      × Chain 0 s.slices (length memory)
      × All (IsPacket gen slice_size) s.slices
generic_all_lem gen memory slice_size keep small room k j =
    let start : IsSliced gen memory slice_size (new_slicer memory slice_size) = record {
      same = refl;
      sized = refl;
      first = refl;
      inside = omega arith;
      filled = refl;
      chain = refl;
      packets = tt;
    } in
    let (s, is, v, end) =
      all-IsSliced gen memory slice_size (length memory + 1) (new_slicer memory slice_size) small k
        j start (omega arith) in
    (
      s,
      ap (λ o. o >>= generic_all gen (length memory + 1))
            (make_slicer_lem memory slice_size keep room k)
          ∙ is,
      v.filled ∙ take_all s.used_memory memory (omega arith),
      rw end at v.chain,
      v.packets,
    )

generic-id :
    (gen : ℕ → ℕ → List ℕ) (s s1 : Slicer)
    → generic gen s ≡ some s1
    → s.current_slice_id ≡ s1.current_slice_id
unfolding generic
generic-id gen s s1 h = elim (Bool-cases (ltb (length s.memory) s.used_memory)) [
  | inl beyond ↦ let none_is = rw beyond at h in cc
  | inr inside ↦
      let some_is = rw inside at h in
      ap (λ o. elim o [ none ↦ 0 | some x ↦ x.current_slice_id ]) some_is
]

-- `_generic_to` never reaches a number of slices other than 0, since no slice moves the id.
generic_to_lem :
    (gen : ℕ → ℕ → List ℕ) (fuel slice_count : ℕ) (s : Slicer)
    → s.current_slice_id ≢ slice_count
    → generic_to gen fuel slice_count s ≡ none
unfolding generic_to
generic_to_lem gen zero slice_count s h = refl
generic_to_lem gen (suc fuel) slice_count s h =
    rw (==_ne s.current_slice_id slice_count h) (elim (Option-cases (generic gen s)) [
      | inl stops ↦ rw stops refl
      | inr (s1, is) ↦
          rw is (generic_to_lem gen fuel slice_count s1 (λ e. h (generic-id gen s s1 is ∙ e)))
    ])
