-- ===== src/Udt/Transfer.antt =====
-- isu-net/src/udt.cpp: a message from the `slicer` of `send_block` to `recv` at the peer.
use isu_net.Base.{
  All, Bool-cases, List, Option, [], ap, arith, drop, false, find, inl, inr, length, none, refl,
  size_mod, some, some-injective, subst, sym, true, ℕ, ◌++◌, ◌+◌, ◌<◌, ◌==◌, ◌>>=◌, ◌∙◌, ◌∷◌, ◌≡◌,
}
use mathlib.Core.List.{Memᴰ}
use isu_net.Slice.{
  Block, Slicer, sizeof_slice_head, sizeof_slicer_head, bytes_of, make_slicer, generic_all,
  was_recved,
}
use isu_net.Slice.Pieces.{Chain, IsPacket, generic_all_lem}
use isu_net.Slice.Layout.{Mem-Chain, Slices, all_seen, HasData}
use isu_net.Slice.Account.{now_seen}
use isu_net.Udt.{Udt}
use isu_net.Udt.Ident.{
  sizeof_group_ident, slicer_head_gen, read_ident, read_ident-slicer_head_gen,
  length-slicer_head_gen,
}
use isu_net.Udt.Receive.{CoreResult, accepted, udt_insert, recv, message}
use isu_net.Udt.Follows.{Follows, ident_in, insert-Follows}

-- What the core hands over for a slice, and for slices in the order that they come: the packet is
-- the head and the data, and `begin` is behind the bytes that are reserved for the core's own head.
abbrev pub arrives : ℕ → ℕ → List ℕ → List ℕ × Block → CoreResult
arrives from reserve memory s = accepted from (drop reserve (s.0 ++ bytes_of memory s.1))

abbrev pub inbox : ℕ → ℕ → List ℕ → Slices → List CoreResult → List CoreResult
inbox from reserve memory [] rest = rest
inbox from reserve memory (s ∷ arrivals) rest =
    arrives from reserve memory s ∷ inbox from reserve memory arrivals rest

-- `recv` reads the ident of the slice and its data.
abbrev pub IsRead : ℕ → ℕ → List ℕ → List ℕ × Block → Type 0
IsRead group_id reserve memory s =
    read_ident (drop reserve (s.0 ++ bytes_of memory s.1))
    ≡ some (ident_in group_id memory s.1.start, bytes_of memory s.1)

-- The starts seen after some arrivals.
abbrev pub seen_after : Slices → List ℕ → List ℕ
seen_after [] seen = seen
seen_after (s ∷ arrivals) seen = seen_after arrivals (now_seen s.1.start seen)

IsHasData :
    (gen : ℕ → ℕ → List ℕ) (slice_size : ℕ) (slices : Slices)
    → All (IsPacket gen slice_size) slices
    → All HasData slices
IsHasData gen slice_size [] p = tt
IsHasData gen slice_size (s ∷ slices) p = (p.0.1, IsHasData gen slice_size slices p.1)

was_recved-now_seen :
    (i start : ℕ) (seen : List ℕ)
    → was_recved i seen ≡ true
    → was_recved i (now_seen start seen) ≡ true
unfolding was_recved
was_recved-now_seen i start seen h = ground arith

all_seen-now_seen :
    (start : ℕ) (seen : List ℕ) (slices : Slices)
    → all_seen seen slices ≡ true
    → all_seen (now_seen start seen) slices ≡ true
all_seen-now_seen start seen [] h = refl
all_seen-now_seen start seen (s ∷ slices) h = elim (Bool-cases (was_recved s.1.start seen)) [
  | inl old ↦
      let rest = rw old at h in
      rw (was_recved-now_seen s.1.start start seen old) (all_seen-now_seen start seen slices rest)
  | inr new ↦ let rest = rw new at h in absurd (cc)
]

all_seen-seen_after :
    (arrivals : Slices) (seen : List ℕ) (slices : Slices)
    → all_seen seen slices ≡ true
    → all_seen (seen_after arrivals seen) slices ≡ true
all_seen-seen_after [] seen slices h = h
all_seen-seen_after (s ∷ arrivals) seen slices h =
    all_seen-seen_after arrivals (now_seen s.1.start seen) slices
      (all_seen-now_seen s.1.start seen slices h)

-- The packets that the slicer makes are read back.
reads_lem :
    (reserve links memory : List ℕ) (group_id slice_size : ℕ) (slices : Slices) (from end : ℕ)
    → length links ≡ 16
    → group_id < size_mod
    → length memory < size_mod
    → end < size_mod
    → Chain from slices end
    → All (IsPacket (slicer_head_gen reserve links group_id (length memory)) slice_size) slices
    → (s : List ℕ × Block) → Memᴰ s slices
    → IsRead group_id (length reserve) memory s
reads_lem reserve links memory group_id slice_size [] from end len g d e chain packets s there =
    elim there [ ]
reads_lem reserve links memory group_id slice_size (x ∷ slices) from end len g d e chain packets s
      (Memᴰ.head is) =
    let low = Mem-Chain s from (x ∷ slices) end chain (Memᴰ.head is) in
    let head : s.0 ≡ slicer_head_gen reserve links group_id (length memory) 0 s.1.start =
      ap (λ y. y.0) is
      ∙ packets.0.0
      ∙ ap (λ y. slicer_head_gen reserve links group_id (length memory) 0 y.1.start) (sym is) in
    ap (λ h. read_ident (drop (length reserve) (h ++ bytes_of memory s.1))) head
    ∙ read_ident-slicer_head_gen reserve links (bytes_of memory s.1) group_id (length memory) 0
        s.1.start len g (omega (arith, low.1)) d
reads_lem reserve links memory group_id slice_size (x ∷ slices) from end len g d e chain packets s
      (Memᴰ.tail there) =
    reads_lem reserve links memory group_id slice_size slices (from + x.1.size) end len g d e
      chain.1 packets.1 s there

module _ (new_block : ℕ → List ℕ) (memory : List ℕ) (slices : Slices) (from group_id reserve : ℕ)
    (last : List ℕ × Block) (rest : List CoreResult) where
  recv-waits :
      (s : List ℕ × Block) (o : Option (List ℕ)) (u u1 : Udt) (later : List CoreResult)
      → IsRead group_id reserve memory s
      → udt_insert new_block (ident_in group_id memory s.1.start) (bytes_of memory s.1) u
        ≡ some (o, u1)
      → o ≡ none
      → recv new_block (arrives from reserve memory s ∷ later) u ≡ recv new_block later u1
  unfolding recv
  recv-waits s o u u1 later read is out = rw read (rw is (rw out refl))

  recv-answers :
      (s : List ℕ × Block) (o : Option (List ℕ)) (u u1 : Udt) (later : List CoreResult)
      → IsRead group_id reserve memory s
      → udt_insert new_block (ident_in group_id memory s.1.start) (bytes_of memory s.1) u
        ≡ some (o, u1)
      → o ≡ some memory
      → recv new_block (arrives from reserve memory s ∷ later) u
        ≡ some (some (message from memory, later), u1)
  unfolding recv
  recv-answers s o u u1 later read is out = rw read (rw is (rw out refl))

  recv_slices :
      (arrivals : Slices) (seen : List ℕ) (u : Udt)
      → ((n : ℕ) → length (new_block n) ≡ n)
      → Chain 0 slices (length memory)
      → All HasData slices
      → ((s : List ℕ × Block) → Memᴰ s slices → IsRead group_id reserve memory s)
      → length memory < size_mod
      → All (λ s. Memᴰ s slices) arrivals
      → Memᴰ last slices
      → all_seen (seen_after arrivals seen) slices ≡ false
      → all_seen (now_seen last.1.start (seen_after arrivals seen)) slices ≡ true
      → Follows memory slices seen (find group_id u.recv_groups)
      → (u1 : Udt) × (recv new_block
            (inbox from reserve memory arrivals (arrives from reserve memory last ∷ rest))
            u
          ≡ some (some (message from memory, rest), u1))
        × (find group_id u1.recv_groups ≡ none)
        × ((h : ℕ) → (group_id == h) ≡ false → find h u1.recv_groups ≡ find h u.recv_groups)
  recv_slices [] seen u fresh chain filled reads small there end before after v =
      let (r, is, out, mine, others, gone) =
        insert-Follows new_block memory slices group_id last seen u fresh chain filled small end
          v in
      let whole : r.0 ≡ some memory = rw after at out in
      (r.1, recv-answers last r.0 u r.1 rest (reads last end) is whole, gone after, others)
  recv_slices (s ∷ arrivals) seen u fresh chain filled reads small there end before after v =
      let (r, is, out, mine, others, gone) =
        insert-Follows new_block memory slices group_id s seen u fresh chain filled small there.0
          v in
      elim (Bool-cases (all_seen (now_seen s.1.start seen) slices)) [
        | inl early ↦
            let whole = all_seen-seen_after arrivals (now_seen s.1.start seen) slices early in
            absurd (cc)
        | inr part ↦
            let waits : r.0 ≡ none = rw part at out in
            let (u1, result, empty, kept) =
              recv_slices arrivals (now_seen s.1.start seen) r.1 fresh chain filled reads small
                there.1 end before after (rw part at mine) in
            (
              u1,
              recv-waits s r.0 u r.1 _ (reads s there.0) is waits ∙ result,
              empty,
              λ h differ. kept h differ ∙ others h differ,
            )
      ]

-- A message below 2^32 bytes, of a group whose id is below 2^32 too, is cut by the slicer of
-- `send_block`, with its head generator, a reserve of some bytes and idents of 28 bytes, into
-- slices below 2^32 bytes that have room for both, the `slicer_head`, the `slice_head` and data;
-- its slices come in some order, perhaps repeated, and the last is the first to complete them. A
-- `udt` that holds nothing of the group, and whose blocks have the size asked for, reads the
-- idents, waits for the last slice, and then returns the message with the sender's address;
-- afterwards it holds nothing of the group, and the other groups are as they were.
pub recv-generic_all :
    (new_block : ℕ → List ℕ) (reserve links memory : List ℕ) (slice_size keep from group_id : ℕ)
    (s : Slicer) (arrivals : Slices) (last : List ℕ × Block) (rest : List CoreResult) (u : Udt)
    → ((n : ℕ) → length (new_block n) ≡ n)
    → length links ≡ 16
    → keep ≡ length reserve + sizeof_group_ident + sizeof_slicer_head
    → keep + sizeof_slice_head < slice_size
    → slice_size < size_mod
    → length memory < size_mod
    → group_id < size_mod
    → (make_slicer memory slice_size keep
        >>= generic_all
            (slicer_head_gen reserve links group_id (length memory))
            (length memory + 1))
      ≡ some s
    → All (λ a. Memᴰ a s.slices) arrivals
    → Memᴰ last s.slices
    → all_seen (seen_after arrivals []) s.slices ≡ false
    → all_seen (now_seen last.1.start (seen_after arrivals [])) s.slices ≡ true
    → find group_id u.recv_groups ≡ none
    → (u1 : Udt) × (recv new_block
          (inbox from
            (length reserve)
            memory
            arrivals
            (arrives from (length reserve) memory last ∷ rest))
          u
        ≡ some (some (message from memory, rest), u1))
      × (find group_id u1.recv_groups ≡ none)
      × ((h : ℕ) → (group_id == h) ≡ false → find h u1.recv_groups ≡ find h u.recv_groups)
unfolding Follows
recv-generic_all new_block reserve links memory slice_size keep from group_id s arrivals last rest u
      fresh len kept room fits small g cut there end before after absent =
    let gen = slicer_head_gen reserve links group_id (length memory) in
    let heads : (start : ℕ) → length (gen 0 start) < slice_size = λ start.
      omega (arith, length-slicer_head_gen reserve links group_id (length memory) 0 start len) in
    let (made, is, whole, chain, packets) =
      generic_all_lem gen memory slice_size keep heads room fits small in
    let same : made ≡ s = some-injective (sym is ∙ cut) in
    let chain_s = subst (λ x. Chain 0 x.slices (length memory)) same chain in
    let packets_s = subst (λ x. All (IsPacket gen slice_size) x.slices) same packets in
    recv_slices new_block memory s.slices from group_id (length reserve) last rest arrivals [] u
      fresh chain_s (IsHasData gen slice_size s.slices packets_s)
      (reads_lem reserve links memory group_id slice_size s.slices 0 (length memory) len g small
        small chain_s packets_s)
      small there end before after (rw absent refl)
