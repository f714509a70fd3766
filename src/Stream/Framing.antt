-- ===== src/Stream/Framing.antt =====
-- isu-net/src/datagram_tcp.cpp, `push`: the whole loop over one buffer.
use isu_net.Base.{
  All, All-append, IsByte, List, [], ap, append_assoc, arith, le_bytes, length, none, refl,
  size_mod, suc, sym, zero, ℕ, ◌*◌, ◌++◌, ◌+◌, ◌<◌, ◌^◌, ◌∙◌, ◌∷◌, ◌≡◌,
}
use isu_net.Stream.{
  Attempt, ok, bad_alloc, ◌>>!◌, Allocator, StreamAnalysis, push_loop, push, frame, frames,
}
use isu_net.Stream.Analysis.{IsValid, pending, work, ready, waits, refused, head_step}
use isu_net.Stream.Body.{IsBrief, body_step}

-- What reading the bytes comes to: the messages and the bytes that are pending make up what came
-- in; or the allocator refuses the size that follows the messages.
pub data Reading (m : Allocator) (a : StreamAnalysis) (buffer : List ℕ)
    (r : Attempt (List (List ℕ) × StreamAnalysis)) : Type 0 where
  reads :
      (msgs : List (List ℕ)) (next : StreamAnalysis)
      → r ≡ ok (msgs, next)
      → IsValid next
      → All IsBrief msgs
      → pending a ++ buffer ≡ frames msgs ++ pending next
      → Reading m a buffer r
  stops :
      (msgs : List (List ℕ)) (n : ℕ) (tail : List ℕ)
      → r ≡ bad_alloc
      → m.alloc n ≡ none
      → n < size_mod
      → All IsBrief msgs
      → pending a ++ buffer ≡ frames msgs ++ (le_bytes n ++ tail)
      → Reading m a buffer r

pub frames-append : (ms ns : List (List ℕ)) → frames (ms ++ ns) ≡ frames ms ++ frames ns
unfolding frames
frames-append [] ns = refl
frames-append (x ∷ ms) ns =
    ap (λ l. frame x ++ l) (frames-append ms ns)
    ∙ sym (append_assoc (frame x) (frames ms) (frames ns))

-- Two stretches of reading, one after the other.
after :
    (p rest : List ℕ) (ms ns : List (List ℕ)) (q end : List ℕ)
    → p ≡ frames ms ++ (q ++ rest)
    → q ++ rest ≡ frames ns ++ end
    → p ≡ frames (ms ++ ns) ++ end
after p rest ms ns q end e f =
    e
    ∙ ap (λ l. frames ms ++ l) f
    ∙ sym (append_assoc (frames ms) (frames ns) end)
    ∙ ap (λ l. l ++ end) (sym (frames-append ms ns))

module _ (m : Allocator) where
  -- What is read after some messages adds to them.
  pub joins :
      (a next : StreamAnalysis) (buffer rest : List ℕ) (msgs : List (List ℕ))
      (r : Attempt (List (List ℕ) × StreamAnalysis))
      → All IsBrief msgs
      → pending a ++ buffer ≡ frames msgs ++ (pending next ++ rest)
      → Reading m next rest r
      → Reading m a buffer (r >>! λ q. ok (msgs ++ q.0, q.1))
  joins a next buffer rest msgs r s e (reads more last is v t f) =
      reads (msgs ++ more) last (rw is refl) v (All-append IsBrief msgs more s t)
        (after (pending a ++ buffer) rest msgs more (pending next) (pending last) e f)
  joins a next buffer rest msgs r s e (stops more n tail is none_left word t f) =
      stops (msgs ++ more) n tail (rw is refl) none_left word (All-append IsBrief msgs more s t)
        (after (pending a ++ buffer) rest msgs more (pending next) (le_bytes n ++ tail) e f)

  push-loop_lem :
      (fuel : ℕ) (buffer : List ℕ) (a : StreamAnalysis)
      → IsValid a
      → All IsByte buffer
      → length buffer < 2 ^ 31
      → work buffer a < fuel
      → Reading m a buffer (push_loop m fuel buffer a)
  unfolding push_loop frames
  push-loop_lem zero buffer a v bb short h = absurd (omega arith)
  push-loop_lem (suc fuel) buffer a v bb short h = elim (head_step m buffer a v bb short) [
    | waits rest a1 is v1 same ↦ reads [] a1 (rw is refl) v1 tt same
    | refused n tail is none_left word same ↦ stops [] n tail (rw is refl) none_left word tt same
    | ready rest a1 is v1 four same shorter less rb ↦
        let b = body_step m rest a1 v1 four rb (omega arith) in
        let more =
          push-loop_lem fuel b.rest b.next b.valid b.bytes (omega (arith, b.shorter))
            (omega (arith, b.less, less)) in
        rw is (rw b.result (joins a b.next buffer b.rest b.msgs _ b.brief (same ∙ b.same) more))
  ]

  -- `push` of a buffer of bytes below 2^31 on a valid analysis ends and faults at no access: the
  -- messages that it passes on, framed, and the bytes that stay pending are the bytes that were
  -- pending and came in; or the allocation fails, at a size that stands in these bytes behind the
  -- messages passed on.
  pub push_lem :
      (buffer : List ℕ) (a : StreamAnalysis)
      → IsValid a
      → All IsByte buffer
      → length buffer < 2 ^ 31
      → Reading m a buffer (push m buffer a)
  unfolding push
  push_lem buffer a v bb short =
      push-loop_lem (2 * length buffer + 2) buffer a v bb short (ground arith)
