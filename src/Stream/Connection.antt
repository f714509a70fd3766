-- ===== src/Stream/Connection.antt =====
-- isu-net/src/datagram_tcp.cpp, `_tcp_recv` and `send`: a whole connection.
use isu_net.Base.{
  All, IsByte, List, [], ap, append-injective_left, append-injective_right, append-nil,
  append_assoc, arith, drop, le_bytes, le_value, le_value-le_bytes, length, length-append,
  length-take, none, refl, size_mod, some, sym, take_all, ℕ, ◌++◌, ◌<◌, ◌^◌, ◌∙◌, ◌∷◌, ◌≡◌, ◌≢◌,
}
use isu_net.Stream.{
  ok, Allocator, set_stream, cleanup, StreamAnalysis, fresh, tcp_recv, frame, frames,
}
use isu_net.Stream.Collect.{collected}
use isu_net.Stream.Analysis.{heading, bodying, IsValid, pending, fresh-IsValid}
use isu_net.Stream.Body.{IsBrief}
use isu_net.Stream.Framing.{Reading, reads, stops, push_lem, joins}

-- What the reads of a connection deliver, in order.
abbrev pub flatten : List (List ℕ) → List ℕ
flatten [] = []
flatten (chunk ∷ chunks) = chunk ++ flatten chunks

-- One read fills at most the buffer of the socket.
abbrev pub IsChunk : List ℕ → Type 0
IsChunk chunk = All IsByte chunk × (length chunk < 2 ^ 31)

-- A message of one byte at least, for which the receiver has memory.
abbrev pub Fits : Allocator → List ℕ → Type 0
Fits m msg = (0 < length msg) × (length msg < size_mod) × (m.alloc (length msg) ≢ none)

pub tcp_recv_lem :
    (m : Allocator) (chunks : List (List ℕ)) (a : StreamAnalysis)
    → IsValid a
    → All IsChunk chunks
    → Reading m a (flatten chunks) (tcp_recv m chunks a)
unfolding tcp_recv frames
tcp_recv_lem m [] a v h = reads [] a refl v tt (append-nil (pending a))
tcp_recv_lem m (chunk ∷ chunks) a v h = elim (push_lem m chunk a v h.0.0 h.0.1) [
  | reads msgs next is v1 brief same ↦ rw is (
      joins m a next (chunk ++ flatten chunks) (flatten chunks) msgs _ brief
        (sym (append_assoc (pending a) chunk (flatten chunks))
          ∙ ap (λ l. l ++ flatten chunks) same
          ∙ append_assoc (frames msgs) (pending next) (flatten chunks))
        (tcp_recv_lem m chunks next v1 h.1))
  | stops msgs n tail is none_left word brief same ↦
      stops msgs n (tail ++ flatten chunks) (rw is refl) none_left word brief (
        sym (append_assoc (pending a) chunk (flatten chunks))
        ∙ ap (λ l. l ++ flatten chunks) same
        ∙ append_assoc (frames msgs) (le_bytes n ++ tail) (flatten chunks))
]

le_bytes-injective :
    (n k : ℕ) (xs ys : List ℕ)
    → n < size_mod
    → k < size_mod
    → le_bytes n ++ xs ≡ le_bytes k ++ ys
    → n ≡ k
le_bytes-injective n k xs ys h j e =
    let same : some n ≡ some k =
      sym (le_value-le_bytes n xs h) ∙ ap le_value e ∙ le_value-le_bytes k ys j in
    cc

-- What is pending starts no message that it could end.
pending_short :
    (a : StreamAnalysis) (msg tail : List ℕ)
    → IsValid a
    → 0 < length msg
    → length msg < size_mod
    → frame msg ++ tail ≢ pending a
unfolding frame
pending_short a msg tail v some_bytes word e =
    let sizes = ap length e in
    let lens = length-append (frame msg) tail in
    let all_lens = length-append (collected a.head_wrap) (collected a.wrap) in
    let one = length-take a.head_wrap.was_append a.head_wrap.stream in
    let two = length-take a.wrap.was_append a.wrap.stream in
    elim v.mode [
      | heading less none_open ↦ omega (arith, sizes, all_lens, one, two)
      | bodying full size part ↦
          let head : collected a.head_wrap ≡ le_bytes a.wrap.maxinum =
            take_all a.head_wrap.was_append a.head_wrap.stream (omega (arith, v.head.sized, v.four))
            ∙ size in
          let n_is =
            le_bytes-injective (length msg) a.wrap.maxinum (msg ++ tail) (collected a.wrap) word
              (omega (arith, v.body.small)) (e ∙ ap (λ l. l ++ collected a.wrap) head) in
          omega (arith, sizes, all_lens, one, two, n_is, length-append msg tail, part)
    ]

-- Messages that fit are cut out of their frames in one way: no more bytes are pending, and no other
-- size follows.
cuts :
    (m : Allocator) (sent got : List (List ℕ)) (a : StreamAnalysis)
    → IsValid a
    → All (Fits m) sent
    → All IsBrief got
    → frames sent ≡ frames got ++ pending a
    → sent ≡ got
unfolding frames frame
cuts m [] [] a v f b e = refl
cuts m [] (g ∷ got) a v f b e = absurd (omega (arith, ap length e))
cuts m (s ∷ sent) [] a v f b e = absurd (pending_short a s (frames sent) v f.0.0 f.0.1 e)
cuts m (s ∷ sent) (g ∷ got) a v f b e =
    let n_is =
      le_bytes-injective (length s) (length g) (s ++ frames sent) ((g ++ frames got) ++ pending a)
        f.0.1 b.0 e in
    let tails : s ++ frames sent ≡ g ++ (frames got ++ pending a) =
      ap (drop 4) e ∙ append_assoc g (frames got) (pending a) in
    ap (λ l. l ∷ sent)
      (append-injective_left s g (frames sent) (frames got ++ pending a) n_is tails)
    ∙ ap (◌∷◌ g) (
        cuts m sent got a v f.1 b.1
          (append-injective_right s g (frames sent) (frames got ++ pending a) n_is tails))

-- No size that is not the size of a message sent follows whole messages.
sizes_sent :
    (m : Allocator) (sent got : List (List ℕ)) (n : ℕ) (tail : List ℕ)
    → All (Fits m) sent
    → All IsBrief got
    → n < size_mod
    → m.alloc n ≡ none
    → frames sent ≢ frames got ++ (le_bytes n ++ tail)
unfolding frames frame
sizes_sent m [] [] n tail f b h none_left e = omega (arith, ap length e)
sizes_sent m [] (g ∷ got) n tail f b h none_left e = omega (arith, ap length e)
sizes_sent m (s ∷ sent) [] n tail f b h none_left e =
    let n_is = le_bytes-injective (length s) n (s ++ frames sent) tail f.0.1 h e in
    f.0.2 (ap m.alloc n_is ∙ none_left)
sizes_sent m (s ∷ sent) (g ∷ got) n tail f b h none_left e =
    let more = le_bytes n ++ tail in
    let n_is =
      le_bytes-injective (length s) (length g) (s ++ frames sent) ((g ++ frames got) ++ more) f.0.1
        b.0 e in
    sizes_sent m sent got n tail f.1 b.1 h none_left (
      append-injective_right s g (frames sent) (frames got ++ more) n_is
        (ap (drop 4) e ∙ append_assoc g (frames got) more))

-- However the connection cuts, into reads below 2^31 bytes, the frames of the messages, the
-- receiver passes on these messages, in order, when it has memory for each and none is empty.
pub tcp_recv-send :
    (m : Allocator) (head : List ℕ) (sent chunks : List (List ℕ))
    → length head ≡ 4
    → All (Fits m) sent
    → All IsChunk chunks
    → flatten chunks ≡ frames sent
    → (a : StreamAnalysis) × (tcp_recv m chunks (fresh head) ≡ ok (sent, a))
unfolding fresh set_stream cleanup
tcp_recv-send m head sent chunks h f c same =
    elim (tcp_recv_lem m chunks (fresh head) (fresh-IsValid head h) c) [
      | reads got next is v brief e ↦ (next, rw (cuts m sent got next v f brief (sym same ∙ e)) is)
      | stops got n tail is none_left word brief e ↦
          absurd (sizes_sent m sent got n tail f brief word none_left (sym same ∙ e))
    ]
