-- ===== src/Stream/Collect.antt =====
-- isu-net/src/datagram_tcp.cpp, `stream_wrap`: what `append` takes and what is collected.
use isu_net.Base.{
  List, add_size, ap, arith, length, length-overlay, length-take, min, mymemcpy_lem, overlay, refl,
  some, sym, take, take-overlay, ℕ, ◌++◌, ◌+◌, ◌-◌, ◌<◌, ◌^◌, ◌∙◌, ◌≡◌, ◌≤◌,
}
use isu_net.Stream.{StreamWrap, need_copy, append}

-- The block has the promised size, which is below 2^31, and is filled from the front.
pub record IsWrap (w : StreamWrap) : Type 0 where
  pub sized : length w.stream ≡ w.maxinum
  pub filled : w.was_append ≤ w.maxinum
  pub small : w.maxinum < 2 ^ 31

-- The bytes that have come in.
abbrev pub collected : StreamWrap → List ℕ
collected w = take w.was_append w.stream

pub need_copy_lem :
    (w : StreamWrap) (size : ℕ)
    → IsWrap w
    → size < 2 ^ 31
    → need_copy w size ≡ min size (w.maxinum - w.was_append)
unfolding need_copy
need_copy_lem w size v h = ground arith

-- On a block of the promised size, below 2^31 and filled from the front, `append` of a buffer below
-- 2^31 bytes takes as much as fits, does not fault, and collects what it takes.
pub append_lem :
    (buffer : List ℕ) (w : StreamWrap)
    → IsWrap w
    → length buffer < 2 ^ 31
    → let n = min (length buffer) (w.maxinum - w.was_append) in
      (w' : StreamWrap) × (append buffer w ≡ some (n, w'))
      × IsWrap w'
      × (w'.maxinum ≡ w.maxinum)
      × (w'.was_append ≡ w.was_append + n)
      × (collected w' ≡ collected w ++ take n buffer)
unfolding append
append_lem buffer w v h =
    let n = min (length buffer) (w.maxinum - w.was_append) in
    let w' : StreamWrap = record w {
      stream = overlay w.stream w.was_append (take n buffer);
      was_append = w.was_append + n;
    } in
    let total : add_size w.was_append n ≡ w.was_append + n = omega arith in
    let taken : length (take n buffer) ≡ n = omega (arith, length-take n buffer) in
    let inside : w.was_append + length (take n buffer) ≤ length w.stream = omega arith in
    (
      w',
      rw (need_copy_lem w (length buffer) v h) (
          rw (mymemcpy_lem w.stream w.was_append buffer n (omega arith) (omega arith))
            (rw total refl)),
      record {
        sized = length-overlay w.stream (take n buffer) w.was_append inside ∙ v.sized;
        filled = omega arith;
        small = v.small;
      },
      refl,
      refl,
      ap (λ k. take (w.was_append + k) w'.stream) (sym taken)
          ∙ take-overlay w.stream (take n buffer) w.was_append inside,
    )
