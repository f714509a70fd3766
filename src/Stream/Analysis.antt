-- ===== src/Stream/Analysis.antt =====
-- isu-net/src/datagram_tcp.cpp, `stream_analysis`: valid states, the bytes that are pending in
-- them, and what `_try_analysis_head` makes of a buffer.
use isu_net.Base.{
  ==_ne, ==_refl, All, All-append, All-drop, All-take, Bool, Bool-cases, IsByte, List, Option-cases,
  [], ap, append-nil, append_assoc, arith, drop, drop_all, false, if◌then◌else◌, inl, inr, le_bytes,
  le_bytes-le_value, le_value, length, length-drop, min, none, refl, size_mod, some, suc, sym, take,
  take-append-drop, take_all, true, zero, ℕ, ◌*◌, ◌++◌, ◌+◌, ◌-◌, ◌<◌, ◌==◌, ◌^◌, ◌∙◌, ◌∷◌, ◌≡◌,
  ◌≤◌, ◌⊎◌,
}
use isu_net.Stream.{
  Attempt, ok, bad_alloc, ◌>>!◌, or_fault, Allocator, set_stream, cleanup, is_complete,
  StreamAnalysis, fresh, check_safe, open_message, try_analysis_head,
}
use isu_net.Stream.Collect.{IsWrap, collected, append_lem}

-- Where the analysis stands: the head is not complete and no message is open; or the head is
-- complete and holds the size of the open message, which is not complete unless it is empty.
pub data Mode (a : StreamAnalysis) : Type 0 where
  heading : a.head_wrap.was_append < 4 → a.wrap.was_append ≡ 0 → Mode a
  bodying :
      a.head_wrap.was_append ≡ 4
      → a.head_wrap.stream ≡ le_bytes a.wrap.maxinum
      → (a.wrap.was_append < a.wrap.maxinum) ⊎ (a.wrap.maxinum ≡ 0)
      → Mode a

pub record IsValid (a : StreamAnalysis) : Type 0 where
  pub head : IsWrap a.head_wrap
  pub four : a.head_wrap.maxinum ≡ 4
  pub body : IsWrap a.wrap
  pub bytes : All IsByte (collected a.head_wrap)
  pub mode : Mode a

-- The bytes that came in and belong to no message passed on.
abbrev pub pending : StreamAnalysis → List ℕ
pending a = collected a.head_wrap ++ collected a.wrap

-- The fuel that a round takes with the buffer.
abbrev pub work : List ℕ → StreamAnalysis → ℕ
work buffer a = 2 * length buffer + (if a.head_wrap.was_append == 4 then 1 else 0)

pub fresh-IsValid : (head : List ℕ) → length head ≡ 4 → IsValid (fresh head)
unfolding fresh set_stream cleanup
fresh-IsValid head h = record {
  head = omega arith;
  four = refl;
  body = omega arith;
  bytes = tt;
  mode = heading (omega arith) refl;
}

-- Four bytes are the bytes of the number that they hold.
le_value_of_four :
    (l : List ℕ)
    → length l ≡ 4
    → All IsByte l
    → (n : ℕ) × (le_value l ≡ some n) × (l ≡ le_bytes n) × (n < size_mod)
le_value_of_four [] h b = absurd (omega arith)
le_value_of_four (x ∷ []) h b = absurd (omega arith)
le_value_of_four (x ∷ y ∷ []) h b = absurd (omega arith)
le_value_of_four (x ∷ y ∷ z ∷ []) h b = absurd (omega arith)
le_value_of_four (x ∷ y ∷ z ∷ w ∷ []) h b =
    (x + 256 * y + 65536 * z + 16777216 * w, refl, sym (le_bytes-le_value x y z w b), ground arith)
le_value_of_four (x ∷ y ∷ z ∷ w ∷ u ∷ l) h b = absurd (omega arith)

-- What comes of `_try_analysis_head` with the buffer: a head is there; the buffer is used up; or
-- the allocator refuses the size that the bytes start with.
pub data HeadStep (m : Allocator) (buffer : List ℕ) (a : StreamAnalysis)
    (r : Attempt (Bool × List ℕ × StreamAnalysis)) : Type 0 where
  ready :
      (rest : List ℕ) (a' : StreamAnalysis)
      → r ≡ ok (true, rest, a')
      → IsValid a'
      → a'.head_wrap.was_append ≡ 4
      → pending a ++ buffer ≡ pending a' ++ rest
      → length rest ≤ length buffer
      → (2 * length rest + 1 ≤ work buffer a) × (2 ≤ work buffer a)
      → All IsByte rest
      → HeadStep m buffer a r
  waits :
      (rest : List ℕ) (a' : StreamAnalysis)
      → r ≡ ok (false, rest, a')
      → IsValid a'
      → pending a ++ buffer ≡ pending a'
      → HeadStep m buffer a r
  refused :
      (n : ℕ) (tail : List ℕ)
      → r ≡ bad_alloc
      → m.alloc n ≡ none
      → n < size_mod
      → pending a ++ buffer ≡ le_bytes n ++ tail
      → HeadStep m buffer a r

pos_or_zero : (n : ℕ) → (0 < n) ⊎ (n ≡ 0)
pos_or_zero zero = inr refl
pos_or_zero (suc n) = inl (omega arith)

-- A head that is not complete has no message open.
heading_of :
    (a : StreamAnalysis) → IsValid a → is_complete a.head_wrap ≡ false → a.wrap.was_append ≡ 0
unfolding is_complete
heading_of a v h = elim v.mode [
  | heading less none_open ↦ none_open
  | bodying full size part ↦ absurd (ground (arith, v.four))
]

-- Where nothing of a message is collected, the pending bytes are those of the head.
pending_head :
    (a : StreamAnalysis) (buffer : List ℕ) (n : ℕ)
    → a.wrap.was_append ≡ 0
    → pending a ++ buffer ≡ (collected a.head_wrap ++ take n buffer) ++ drop n buffer
pending_head a buffer n h =
    ap (λ k. (collected a.head_wrap ++ take k a.wrap.stream) ++ buffer) h
    ∙ ap (λ l. l ++ buffer) (append-nil (collected a.head_wrap))
    ∙ ap (λ l. collected a.head_wrap ++ l) (sym (take-append-drop n buffer))
    ∙ sym (append_assoc (collected a.head_wrap) (take n buffer) (drop n buffer))

module _ (m : Allocator) where
  -- The head has just become complete.
  opens :
      (rest buffer : List ℕ) (a a1 : StreamAnalysis)
      → IsWrap a1.head_wrap
      → a1.head_wrap.maxinum ≡ 4
      → a1.head_wrap.was_append ≡ 4
      → All IsByte (collected a1.head_wrap)
      → pending a ++ buffer ≡ collected a1.head_wrap ++ rest
      → length rest < length buffer
      → All IsByte rest
      → HeadStep m buffer a (open_message m a1 >>! λ a2. ok (true, rest, a2))
  unfolding open_message set_stream
  opens rest buffer a a1 v four full bytes same less rb =
      let whole : collected a1.head_wrap ≡ a1.head_wrap.stream =
        take_all a1.head_wrap.was_append a1.head_wrap.stream (omega arith) in
      let (n, value, is_bytes, word) =
        le_value_of_four a1.head_wrap.stream (omega arith) (rw whole at bytes) in
      elim (Option-cases (m.alloc n)) [
        | inl none_left ↦
            refused n rest (rw (value, open_message) (rw (none_left, open_message) refl)) none_left
              word (same ∙ ap (λ l. l ++ rest) (whole ∙ is_bytes))
        | inr (block, got) ↦
            ready rest (record a1 { wrap = set_stream block n })
              (rw (value, open_message) (rw (got, open_message) refl))
              (record {
                head = v;
                four = four;
                body = record {
                  sized = m.length-alloc n block got;
                  filled = omega arith;
                  small = m.alloc_small n block got;
                };
                bytes = bytes;
                mode = bodying full is_bytes (pos_or_zero n);
              })
              full (same ∙ ap (λ l. l ++ rest) (sym (append-nil (collected a1.head_wrap))))
              (omega arith) (omega arith, omega arith) rb
      ]

  -- The buffer holds what is missing of the head, or is used up by it.
  fills :
      (buffer : List ℕ) (a : StreamAnalysis)
      → IsValid a
      → All IsByte buffer
      → 0 < length buffer
      → length buffer < 2 ^ 31
      → is_complete a.head_wrap ≡ false
      → HeadStep m buffer a (try_analysis_head m buffer a)
  unfolding try_analysis_head check_safe is_complete
  fills buffer a v bb some_left short h =
      let n = min (length buffer) (a.head_wrap.maxinum - a.head_wrap.was_append) in
      let (w, took, vw, size, was, coll) = append_lem buffer a.head_wrap v.head short in
      let same =
        pending_head a buffer n (heading_of a v h) ∙ ap (λ l. l ++ drop n buffer) (sym coll) in
      let a1 : StreamAnalysis = record a { head_wrap = w } in
      let collb : All IsByte (collected w) = rw coll (
        All-append IsByte (collected a.head_wrap) (take n buffer) v.bytes
          (All-take IsByte n buffer bb)) in
      let filled_buffer : (length buffer == 0) ≡ false = ==_ne (length buffer) 0 (omega arith) in
      elim (Bool-cases (w.maxinum == w.was_append)) [
        | inl full ↦
            let four : w.was_append ≡ 4 = ground (arith, v.four) in
            rw (filled_buffer, h)
              (rw (took, or_fault)
                (rw full (
                  opens (drop n buffer) buffer a a1 vw (size ∙ v.four) four collb same
                    (ground (arith, length-drop n buffer, v.four)) (All-drop IsByte n buffer bb))))
        | inr part ↦
            let used : length buffer ≤ n = ground (arith, v.four) in
            waits (drop n buffer) a1 (rw (filled_buffer, h) (rw (took, or_fault) (rw part refl)))
              (record {
                head = vw;
                four = size ∙ v.four;
                body = v.body;
                bytes = collb;
                mode = heading (ground (arith, v.four)) (heading_of a v h);
              })
              (same
                ∙ ap (λ l. collected w ++ l)
                    (drop_all n buffer used
                      ∙ sym (ap (λ k. take k a.wrap.stream) (heading_of a v h))))
      ]

  pub head_step :
      (buffer : List ℕ) (a : StreamAnalysis)
      → IsValid a
      → All IsByte buffer
      → length buffer < 2 ^ 31
      → HeadStep m buffer a (try_analysis_head m buffer a)
  unfolding try_analysis_head check_safe is_complete
  head_step [] a v bb short = waits [] a refl v (append-nil (pending a))
  head_step (x ∷ buffer) a v bb short = elim (Bool-cases (is_complete a.head_wrap)) [
    | inl full ↦
        let four : a.head_wrap.was_append ≡ 4 = ground (arith, v.four) in
        let holds : (a.head_wrap.was_append == 4) ≡ true = rw four (==_refl 4) in
        ready (x ∷ buffer) a (rw (==_ne (length (x ∷ buffer)) 0 (omega arith), full) refl) v four
          refl (omega arith) (rw holds (omega arith, omega arith)) bb
    | inr part ↦ fills (x ∷ buffer) a v bb (omega arith) short part
  ]
