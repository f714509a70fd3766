-- ===== src/Checks/Streams.antt =====
-- Two messages over a stream that is read in odd pieces, for isu-net/src/datagram_tcp.cpp.
use isu_net.Base.{
  Bool-cases, List, Option, [], ap, arith, if◌then◌else◌, inl, inr, length, length-replicate, ltb,
  ltb→lt, none, refl, replicate, some, sym, ℕ, ◌<◌, ◌∙◌, ◌∷◌, ◌≡◌,
}
use isu_net.Stream.{ok, Allocator, StreamAnalysis, fresh, push, tcp_recv, frame, frames}
use isu_net.Stream.Analysis.{fresh-IsValid}
use isu_net.Stream.Framing.{Reading, push_lem}
use isu_net.Stream.Connection.{tcp_recv-send}

abbrev small_block : ℕ → Option (List ℕ)
small_block n = if ltb n 1000 then some (replicate n 0) else none

small_block_lem : (n : ℕ) (b : List ℕ) → small_block n ≡ some b → (length b ≡ n) × (n < 1000)
small_block_lem n b h = elim (Bool-cases (ltb n 1000)) [
  | inl small ↦
      let is = rw small at h in
      let same : replicate n 0 ≡ b = cc in
      (ap length (sym same) ∙ length-replicate n 0, ltb→lt n 1000 small)
  | inr big ↦ let no = rw big at h in absurd (cc)
]

abbrev small_blocks : Allocator
small_blocks = record {
  alloc = small_block;
  length-alloc = λ n b h. (small_block_lem n b h).0;
  alloc_small = λ n b h. omega (arith, (small_block_lem n b h).1);
}

abbrev head : List ℕ
head = 0 ∷ 0 ∷ 0 ∷ 0 ∷ []

abbrev messages : List (List ℕ)
messages = (7 ∷ 8 ∷ []) ∷ (9 ∷ []) ∷ []

abbrev reads_of : List (List ℕ)
reads_of = (2 ∷ 0 ∷ []) ∷ (0 ∷ 0 ∷ 7 ∷ 8 ∷ 1 ∷ []) ∷ (0 ∷ 0 ∷ 0 ∷ 9 ∷ []) ∷ []

tcp_recv-send_example :
    (a : StreamAnalysis) × (tcp_recv small_blocks reads_of (fresh head) ≡ ok (messages, a))
unfolding frames frame
tcp_recv-send_example =
    tcp_recv-send small_blocks head messages reads_of refl
      ((omega arith, omega arith, λ e. cc), ((omega arith, omega arith, λ e. cc), tt))
      (ground arith) refl

push_lem_example :
    Reading small_blocks
      (fresh head)
      (2 ∷ 0 ∷ 0 ∷ 0 ∷ 7 ∷ [])
      (push small_blocks (2 ∷ 0 ∷ 0 ∷ 0 ∷ 7 ∷ []) (fresh head))
push_lem_example =
    push_lem small_blocks (2 ∷ 0 ∷ 0 ∷ 0 ∷ 7 ∷ []) (fresh head) (fresh-IsValid head refl)
      (ground arith) (omega arith)
