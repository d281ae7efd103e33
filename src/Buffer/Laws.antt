-- ===== src/Buffer/Laws.antt =====
-- What a write to a buffer of src/buffer.c does, and a sequence of them.
use mathlib.Core.Path.{subst}
use muddled.Base.{
  ℕ, ◌+◌, ◌≤◌, ◌<◌, Bool, true, false, List, [], ◌∷◌, ◌++◌, append_assoc, append-nil, ◌⊎◌, inl, inr,
  Option, none, some, ◌≡◌, refl, sym, ap, ◌∙◌, arith, Text, length, take, length-append,
  length-take,
}
use muddled.Buffer.{
  BufT, buffer_safe, buffer_overflow, Buffer, buf_size, buf_add_len, buf_add, buf_addln, grow_fuel,
}
use muddled.Buffer.Sizes.{IsIn, grow_loop_lem, larger-buf_size}

-- the size is one of the table, and the text and its terminator fit
abbrev pub IsBuffer : Buffer → Type 0
IsBuffer b = IsIn buf_size b.size × (length b.string < b.size)

-- how a write of `s` can end
abbrev pub IsAdded : Buffer → Text → Buffer → Bool → Type 0
IsAdded b s b' ok =
    ((b.state ≡ buffer_overflow) × (b' ≡ b) × (ok ≡ false))
    ⊎ (((b.state ≡ buffer_safe)
          × (16384 ≤ length b.string + length s + 1)
          × (b' ≡ record b { state = buffer_overflow })
          × (ok ≡ false))
        ⊎ ((b.state ≡ buffer_safe)
            × (b' ≡ record b { size = b'.size; string = b.string ++ s })
            × (length b.string + length s + 1 < b'.size)
            × (ok ≡ true)))

state_cases : (s : BufT) → (s ≡ buffer_safe) ⊎ (s ≡ buffer_overflow)
state_cases buffer_safe = inl refl
state_cases buffer_overflow = inr refl

-- A write of at most the bytes of `s` to a well-formed buffer ends, leaves a well-formed buffer, and
-- does one of three things: nothing, when the buffer has overflowed before; mark it as overflowed,
-- when the largest size is too small; or append the bytes.
pub buf_add_len_lem :
    (b : Buffer) (s : Text) (k : ℕ)
    → IsBuffer b
    → k ≤ length s
    → (b' : Buffer) × (ok : Bool) × (buf_add_len b s k ≡ some (b', ok))
      × IsBuffer b'
      × IsAdded b (take k s) b' ok
unfolding buf_add_len
buf_add_len_lem b s k (i, fit) h = elim (state_cases b.state) [
  | inr over ↦ (
    b,
    false,
    rw (buf_add_len, over) (ap (λ st. some (record b { state = st }, false)) over),
    (i, fit),
    inl (over, refl, refl),
  )
  | inl safe ↦
      elim (grow_loop_lem grow_fuel (length b.string + k + 1) b.size (larger-buf_size b.size) i) [
        | inl (e, long) ↦ (
          record b { state = buffer_overflow },
          false,
          rw (buf_add_len, safe, e) refl,
          (i, fit),
          inr (inl (safe, omega (arith, length-take k s), refl, refl)),
        )
        | inr (n, e, lt, at) ↦ (
          record b { size = n; string = b.string ++ take k s },
          true,
          rw (buf_add_len, safe, e)
              (ap
                (λ st. some (record { state = st; size = n; string = b.string ++ take k s }, true))
                safe),
          (at, omega (arith, length-append b.string (take k s), length-take k s)),
          inr (inr (safe, refl, omega (arith, length-take k s), refl)),
        )
      ]
]

take_all : (s : Text) → take (length s) s ≡ s
take_all [] = refl
take_all (c ∷ s) = ap (λ r. c ∷ r) (take_all s)

buf_add_lem :
    (b : Buffer) (s : Text)
    → IsBuffer b
    → (b' : Buffer) × (ok : Bool) × (buf_add b s ≡ some (b', ok)) × IsBuffer b' × IsAdded b s b' ok
unfolding buf_add
buf_add_lem b s inv =
    let (b', ok, e, inv', what) = buf_add_len_lem b s (length s) inv (omega arith) in
    (b', ok, e, inv', subst (λ x. IsAdded b x b' ok) (take_all s) what)

-- a sequence of writes, with what each returned
abbrev pub add_all : Buffer → List Text → Option Buffer
add_all b [] = some b
add_all b (s ∷ ss) = elim (buf_add b s) [ none ↦ none | some (b', ok) ↦ add_all b' ss ]

abbrev pub concat : List Text → Text
concat [] = []
concat (s ∷ ss) = s ++ concat ss

add_all_step :
    (b : Buffer) (s : Text) (ss : List Text) (b' : Buffer) (ok : Bool)
    → buf_add b s ≡ some (b', ok)
    → add_all b (s ∷ ss) ≡ add_all b' ss
add_all_step b s ss b' ok e = rw (add_all, e) refl

-- Writes to a well-formed buffer that has not overflowed give the text and all that was written, if
-- that is shorter than the largest size by two bytes or more.
pub add_all_lem :
    (b : Buffer) (ss : List Text)
    → IsBuffer b
    → b.state ≡ buffer_safe
    → length b.string + length (concat ss) + 1 < 16384
    → (b' : Buffer) × (add_all b ss ≡ some b')
      × IsBuffer b'
      × (b'.state ≡ buffer_safe)
      × (b'.string ≡ b.string ++ concat ss)
add_all_lem b [] inv safe room = (b, refl, inv, safe, sym (append-nil b.string))
add_all_lem b (s ∷ ss) inv safe room =
    let total = length-append s (concat ss) in
    let (b', ok, e, inv', what) = buf_add_lem b s inv in
    elim what [
      | inl (over, _, _) ↦ absurd (ground (arith, safe, over))
      | inr what' ↦ elim what' [
        | inl (_, long, _, _) ↦ absurd (omega (arith, total))
        | inr (_, eb, fits, _) ↦
            let text : b'.string ≡ b.string ++ s = ap (λ (x : Buffer). x.string) eb in
            let safe' : b'.state ≡ buffer_safe = ap (λ (x : Buffer). x.state) eb ∙ safe in
            let room' : length b'.string + length (concat ss) + 1 < 16384 =
              rw (text) (omega (arith, total, length-append b.string s)) in
            let (b2, e2, inv2, safe2, text2) = add_all_lem b' ss inv' safe' room' in
            (
              b2,
              add_all_step b s ss b' ok e ∙ e2,
              inv2,
              safe2,
              text2 ∙ ap (λ x. x ++ concat ss) text ∙ append_assoc b.string s (concat ss),
            )
      ]
    ]

added_text :
    (b b' : Buffer) (s : Text) (ok : Bool)
    → IsAdded b s b' ok
    → ((ok ≡ true) × (b'.string ≡ b.string ++ s)) ⊎ ((ok ≡ false) × (b'.string ≡ b.string))
added_text b b' s ok (inl (_, e, failed)) = inr (failed, ap (λ (x : Buffer). x.string) e)
added_text b b' s ok (inr (inl (_, _, e, failed))) = inr (failed, ap (λ (x : Buffer). x.string) e)
added_text b b' s ok (inr (inr (_, e, _, done))) = inl (done, ap (λ (x : Buffer). x.string) e)

-- `buf_addln` to a well-formed buffer ends and leaves a well-formed buffer. Where it returns true
-- the text and the end of the line were appended; else the text was, or nothing.
pub buf_addln_lem :
    (b : Buffer) (s : Text)
    → IsBuffer b
    → (b' : Buffer) × (ok : Bool) × (buf_addln b s ≡ some (b', ok))
      × IsBuffer b'
      × (((ok ≡ true) × (b'.string ≡ (b.string ++ s) ++ (b'\n' ∷ b'\r' ∷ [])))
          ⊎ ((ok ≡ false) × ((b'.string ≡ b.string ++ s) ⊎ (b'.string ≡ b.string))))
unfolding buf_addln
buf_addln_lem b s inv =
    let (b1, ok1, e1, inv1, what1) = buf_add_lem b s inv in
    let (b2, ok2, e2, inv2, what2) = buf_add_lem b1 (b'\n' ∷ b'\r' ∷ []) inv1 in
    elim (added_text b b1 s ok1 what1) [
      | inr (failed, t1) ↦ (b1, false, rw (buf_addln, e1, failed) refl, inv1, inr (refl, inr t1))
      | inl (done, t1) ↦ elim (added_text b1 b2 (b'\n' ∷ b'\r' ∷ []) ok2 what2) [
        | inr (failed, t2) ↦
            (b2, ok2, rw (buf_addln, e1, done) e2, inv2, inr (failed, inl (t2 ∙ t1)))
        | inl (yes2, t2) ↦ (
          b2,
          ok2,
          rw (buf_addln, e1, done) e2,
          inv2,
          inl (yes2, t2 ∙ ap (λ x. x ++ (b'\n' ∷ b'\r' ∷ [])) t1),
        )
      ]
    ]
