-- ===== src/Stream/Body.antt =====
-- isu-net/src/datagram_tcp.cpp, `_copy_and_try_call`: the bytes of the open message.
use isu_net.Base.{
  ==_ne, All, All-drop, Bool-cases, IsByte, List, [], ap, append-nil, append_assoc, arith, drop,
  drop_all, false, inl, inr, le_bytes, length, length-drop, min, refl, size_mod, sym, take,
  take-append-drop, take_all, ℕ, ◌*◌, ◌++◌, ◌-◌, ◌<◌, ◌==◌, ◌^◌, ◌∙◌, ◌∷◌, ◌≡◌, ◌≤◌, ◌⊎◌,
}
use isu_net.Stream.{
  Attempt, ok, or_fault, Allocator, set_stream, cleanup, is_complete, StreamAnalysis, reset_head,
  check_safe, copy_and_try_call, frame, frames,
}
use isu_net.Stream.Collect.{collected, append_lem}
use isu_net.Stream.Analysis.{heading, bodying, IsValid, pending, work}

-- What the length field of a message can say.
abbrev pub IsBrief : List ℕ → Type 0
IsBrief msg = length msg < size_mod

-- What a round comes to: what is left of the buffer, and the message that it ends.
pub record BodyStep (buffer : List ℕ) (a : StreamAnalysis)
    (r : Attempt (List ℕ × List (List ℕ) × StreamAnalysis)) : Type 0 where
  pub rest : List ℕ
  pub msgs : List (List ℕ)
  pub next : StreamAnalysis
  pub result : r ≡ ok (rest, msgs, next)
  pub valid : IsValid next
  pub brief : All IsBrief msgs
  pub same : pending a ++ buffer ≡ frames msgs ++ (pending next ++ rest)
  pub less : (work rest next ≤ 1) ⊎ (work rest next ≤ 2 * length buffer)
  pub shorter : length rest ≤ length buffer
  pub bytes : All IsByte rest

-- The size that the complete head holds.
size_of :
    (a : StreamAnalysis)
    → IsValid a
    → a.head_wrap.was_append ≡ 4
    → a.head_wrap.stream ≡ le_bytes a.wrap.maxinum
size_of a v h = elim v.mode [
  | heading less none_open ↦ absurd (omega arith)
  | bodying full size part ↦ size
]

-- The pending bytes of an open message, with n more.
pending_body :
    (a : StreamAnalysis) (buffer : List ℕ) (n : ℕ)
    → pending a ++ buffer
      ≡ (collected a.head_wrap ++ (collected a.wrap ++ take n buffer)) ++ drop n buffer
pending_body a buffer n =
    ap (λ l. pending a ++ l) (sym (take-append-drop n buffer))
    ∙ sym (append_assoc (pending a) (take n buffer) (drop n buffer))
    ∙ ap (λ l. l ++ drop n buffer)
        (append_assoc (collected a.head_wrap) (collected a.wrap) (take n buffer))

reset-IsValid :
    (a : StreamAnalysis) → IsValid a → IsValid (reset_head (record a { wrap = cleanup }))
unfolding reset_head cleanup set_stream
reset-IsValid a v = record {
  head = record { sized = v.head.sized ∙ v.four; filled = omega arith; small = omega arith };
  four = refl;
  body = omega arith;
  bytes = tt;
  mode = heading (omega arith) refl;
}

copies :
    (buffer : List ℕ) (a : StreamAnalysis)
    → IsValid a
    → a.head_wrap.was_append ≡ 4
    → All IsByte buffer
    → 0 < length buffer
    → length buffer < 2 ^ 31
    → (m : Allocator) → BodyStep buffer a (copy_and_try_call m buffer a)
unfolding copy_and_try_call check_safe is_complete frames frame reset_head
copies buffer a v four bb some_left short m =
    let n = min (length buffer) (a.wrap.maxinum - a.wrap.was_append) in
    let (w, took, vw, size, was, coll) = append_lem buffer a.wrap v.body short in
    let same : pending a ++ buffer ≡ (collected a.head_wrap ++ collected w) ++ drop n buffer =
      pending_body a buffer n
      ∙ ap (λ l. (collected a.head_wrap ++ l) ++ drop n buffer) (sym coll) in
    let filled_buffer : (length buffer == 0) ≡ false = ==_ne (length buffer) 0 (omega arith) in
    elim (Bool-cases (w.maxinum == w.was_append)) [
      | inl full ↦
          let whole : collected w ≡ w.stream =
            take_all w.was_append w.stream (ground (arith, vw.sized)) in
          let head : collected a.head_wrap ≡ le_bytes (length w.stream) =
            take_all a.head_wrap.was_append a.head_wrap.stream (omega (arith, v.head.sized, v.four))
            ∙ size_of a v four
            ∙ ap le_bytes (sym (vw.sized ∙ size)) in
          record {
            rest = drop n buffer;
            msgs = w.stream ∷ [];
            next = reset_head (record a { wrap = cleanup });
            result = rw filled_buffer (rw (took, or_fault) (rw full refl));
            valid = reset-IsValid a v;
            brief = (omega (arith, vw.sized, vw.small), tt);
            same =
                same
                ∙ ap (λ l. l ++ drop n buffer)
                    (ap (λ l. l ++ collected w) head
                      ∙ ap (λ l. le_bytes (length w.stream) ++ l) whole
                      ∙ sym (append-nil (frame w.stream)));
            less = inr (omega (arith, length-drop n buffer));
            shorter = omega (arith, length-drop n buffer);
            bytes = All-drop IsByte n buffer bb;
          }
      | inr part ↦
          let used : length buffer ≤ n = ground (arith, v.body.filled) in
          let gone : drop n buffer ≡ [] = drop_all n buffer used in
          let size_now : a.head_wrap.stream ≡ le_bytes w.maxinum = rw size (size_of a v four) in
          record {
            rest = drop n buffer;
            msgs = [];
            next = record a { wrap = w };
            result = rw filled_buffer (rw (took, or_fault) (rw part refl));
            valid = record {
              head = v.head;
              four = v.four;
              body = vw;
              bytes = v.bytes;
              mode = bodying four size_now (inl (ground (arith, vw.filled)));
            };
            brief = tt;
            same = same;
            less = inl (rw gone (ground arith));
            shorter = omega (arith, length-drop n buffer);
            bytes = All-drop IsByte n buffer bb;
          }
    ]

pub body_step :
    (m : Allocator) (buffer : List ℕ) (a : StreamAnalysis)
    → IsValid a
    → a.head_wrap.was_append ≡ 4
    → All IsByte buffer
    → length buffer < 2 ^ 31
    → BodyStep buffer a (copy_and_try_call m buffer a)
unfolding copy_and_try_call check_safe frames
body_step m [] a v four bb short = record {
  rest = [];
  msgs = [];
  next = a;
  result = refl;
  valid = v;
  brief = tt;
  same = refl;
  less = inl (ground arith);
  shorter = omega arith;
  bytes = tt;
}
body_step m (x ∷ buffer) a v four bb short = copies (x ∷ buffer) a v four bb (omega arith) short m
