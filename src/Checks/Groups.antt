-- ===== src/Checks/Groups.antt =====
-- Groups of slices on their way through isu-net/src/udt.cpp.
use isu_net.Base.{
  List, [], arith, false, find, length-replicate, none, refl, replicate, some, true, ℕ, ◌++◌, ◌==◌,
  ◌>>=◌, ◌∷◌, ◌≡◌,
}
use mathlib.Core.List.{Memᴰ}
use isu_net.Slice.{
  Block, Slicer, make_slicer, generic, generic_all, slice_end, was_recved, compute_seralize_size,
  how_many_slice, ceil_div,
}
use isu_net.Udt.Ident.{ident_bytes, slicer_head_gen}
use isu_net.Slice.Layout.{Slices, all_seen}
use isu_net.Slice.Account.{now_seen}
use isu_net.Udt.{Udt}
use isu_net.Udt.Receive.{message, recv}
use isu_net.Udt.Groups.{Traffic, IsCut, Arrival, abstract_run, udt_run, udt_run_lem}
use isu_net.Udt.Transfer.{arrives, inbox, seen_after, recv-generic_all}

abbrev five : List ℕ
five = 1 ∷ 2 ∷ 3 ∷ 4 ∷ 5 ∷ []

abbrev slice_at : ℕ → ℕ → List ℕ × Block
slice_at start size = (start ∷ [], record { start = start; size = size })

-- `five` in slices of three bytes, one of them the head.
abbrev cut : Slices
cut = slice_at 0 2 ∷ slice_at 2 2 ∷ slice_at 4 1 ∷ []

first_there : Memᴰ (slice_at 0 2) cut
first_there = Memᴰ.head refl

second_there : Memᴰ (slice_at 2 2) cut
second_there = Memᴰ.tail (Memᴰ.head refl)

third_there : Memᴰ (slice_at 4 1) cut
third_there = Memᴰ.tail (Memᴰ.tail (Memᴰ.head refl))

abbrev idle : Udt
idle = record {
  nodes = [];
  missions = [];
  groups = [];
  sending_groups = [];
  recv_groups = [];
  group_id_allocer = 0;
  has_send_callback = true;
  has_bad_send = true;
  cancelled = [];
  sent = [];
  bad_sends = [];
}

abbrev zeros : ℕ → List ℕ
zeros n = replicate n 0

-- A longer message, in slices of 47 bytes: 2 for the core's head, 28 for the ident, and 17 of data.
abbrev long : List ℕ
long = replicate 17 1 ++ (replicate 17 2 ++ replicate 6 3)

abbrev reserve : List ℕ
reserve = 0 ∷ 0 ∷ []

abbrev links : List ℕ
links = replicate 16 0

abbrev piece : ℕ → ℕ → List ℕ × Block
piece start size =
    (slicer_head_gen reserve links 7 40 0 start, record { start = start; size = size })

abbrev pieces : Slices
pieces = piece 0 17 ∷ piece 17 17 ∷ piece 34 6 ∷ []

abbrev sliced : Slicer
sliced = record {
  memory = long;
  slice_size = 47;
  slices = pieces;
  used_memory = 40;
  current_slice_id = 0;
}

sliced-generic_all :
    (make_slicer long 47 34 >>= generic_all (slicer_head_gen reserve links 7 40) 41) ≡ some sliced
unfolding generic_all generic slice_end make_slicer slicer_head_gen ident_bytes
    compute_seralize_size how_many_slice ceil_div
sliced-generic_all = refl

-- The third slice, the first one twice, and then the second.
abbrev early : Slices
early = piece 34 6 ∷ piece 0 17 ∷ piece 0 17 ∷ []

early-all_seen :
    (all_seen (seen_after early []) pieces ≡ false)
    × (all_seen (now_seen 17 (seen_after early [])) pieces ≡ true)
unfolding was_recved
early-all_seen = (refl, refl)

recv-generic_all_example :
    (u1 : Udt) × (recv zeros (inbox 9 2 long early (arrives 9 2 long (piece 17 17) ∷ [])) idle
      ≡ some (some (message 9 long, []), u1))
    × (find 7 u1.recv_groups ≡ none)
    × ((h : ℕ) → (7 == h) ≡ false → find h u1.recv_groups ≡ find h idle.recv_groups)
unfolding find
recv-generic_all_example =
    recv-generic_all zeros reserve links long 47 34 9 7 sliced early (piece 17 17) [] idle
      (λ n. length-replicate n 0) refl refl (omega arith) (omega arith) (omega arith) (omega arith)
      sliced-generic_all
      (Memᴰ.tail (Memᴰ.tail (Memᴰ.head refl)), (Memᴰ.head refl, (Memᴰ.head refl, tt)))
      (Memᴰ.tail (Memᴰ.head refl)) early-all_seen.0 early-all_seen.1 refl

-- Every group carries the same message.
abbrev fives : Traffic
fives = record { messages = λ g. five; slices = λ g. cut }

fives-IsCut : IsCut fives
fives-IsCut = record {
  chain = λ g. (refl, (refl, (refl, refl)));
  filled = λ g. (omega arith, (omega arith, (omega arith, tt)));
  small = λ g. omega arith;
}

abbrev mixed : List Arrival
mixed =
    record { group = 1; slice = slice_at 2 2 }
    ∷ record { group = 2; slice = slice_at 0 2 }
    ∷ record { group = 1; slice = slice_at 0 2 }
    ∷ record { group = 2; slice = slice_at 0 2 }
    ∷ record { group = 1; slice = slice_at 4 1 }
    ∷ []

udt_run_lem_example :
    (u1 : Udt) × (udt_run zeros fives mixed idle ≡ some (abstract_run fives mixed (λ g. []), u1))
udt_run_lem_example =
    udt_run_lem zeros fives mixed idle (λ n. length-replicate n 0) fives-IsCut
      (second_there, (first_there, (first_there, (first_there, (third_there, tt))))) refl
