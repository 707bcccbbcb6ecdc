-- ===== src/Md5/Rfc.antt =====
-- RFC 1321, 3.4: the four rounds as lists of operations [abcd k s i] on four registers that keep their
-- places, with the tables written out. The source turns the registers instead.
use acos_chat.Base.{
  ℕ, zero, suc, ◌+◌, ◌*◌, ◌/◌, ◌%◌, ◌≤◌, ◌<◌, ◌≡◌, refl, ap, ◌∙◌, List, [], ◌∷◌, ◌==◌, ==_iff, All,
  ltb, ◌&&◌, all_below_sound, arith,
}
use acos_chat.Md5.{Registers, nth, word, shifts, stored_shift, get_k_from_i, md5round, step, steps}
use acos_chat.Md5.Functions.{bit_by_bit, round_bit, funcs_lem}
use acos_chat.Md5.Words.{rotated, rotate_left_lem, word_at, from_le_lem}

-- The word that the operation `i` reads.
abbrev pub words : List ℕ
words =
    0 ∷ 1 ∷ 2 ∷ 3 ∷ 4 ∷ 5 ∷ 6 ∷ 7 ∷ 8 ∷ 9 ∷ 10 ∷ 11 ∷ 12 ∷ 13 ∷ 14 ∷ 15 ∷ 1 ∷ 6 ∷ 11 ∷ 0 ∷ 5 ∷ 10
    ∷ 15 ∷ 4 ∷ 9 ∷ 14 ∷ 3 ∷ 8 ∷ 13 ∷ 2 ∷ 7 ∷ 12 ∷ 5 ∷ 8 ∷ 11 ∷ 14 ∷ 1 ∷ 4 ∷ 7 ∷ 10 ∷ 13 ∷ 0 ∷ 3 ∷ 6
    ∷ 9 ∷ 12 ∷ 15 ∷ 2 ∷ 0 ∷ 7 ∷ 14 ∷ 5 ∷ 12 ∷ 3 ∷ 10 ∷ 1 ∷ 8 ∷ 15 ∷ 6 ∷ 13 ∷ 4 ∷ 11 ∷ 2 ∷ 9 ∷ []

-- And the distance of its rotation.
abbrev pub distances : List ℕ
distances =
    7 ∷ 12 ∷ 17 ∷ 22 ∷ 7 ∷ 12 ∷ 17 ∷ 22 ∷ 7 ∷ 12 ∷ 17 ∷ 22 ∷ 7 ∷ 12 ∷ 17 ∷ 22 ∷ 5 ∷ 9 ∷ 14 ∷ 20 ∷ 5
    ∷ 9 ∷ 14 ∷ 20 ∷ 5 ∷ 9 ∷ 14 ∷ 20 ∷ 5 ∷ 9 ∷ 14 ∷ 20 ∷ 4 ∷ 11 ∷ 16 ∷ 23 ∷ 4 ∷ 11 ∷ 16 ∷ 23 ∷ 4 ∷ 11
    ∷ 16 ∷ 23 ∷ 4 ∷ 11 ∷ 16 ∷ 23 ∷ 6 ∷ 10 ∷ 15 ∷ 21 ∷ 6 ∷ 10 ∷ 15 ∷ 21 ∷ 6 ∷ 10 ∷ 15 ∷ 21 ∷ 6 ∷ 10
    ∷ 15 ∷ 21 ∷ []

module _ (sines : ℕ → ℕ) (block : List ℕ) where
  -- a = b + ((a + F(b, c, d) + X[k] + T[i]) <<< s)
  abbrev pub operation : ℕ → ℕ → ℕ → ℕ → ℕ → ℕ
  operation a b c d i =
      let function = bit_by_bit 32 (round_bit (i / 16)) b c d in
      let sum = (a + function + word_at block (4 * nth words i) + sines i) % word in
      (b + rotated sum (nth distances i)) % word

  -- [ABCD] [DABC] [CDAB] [BCDA]
  unfoldable pub four : ℕ → Registers → Registers
  four i r =
      let a = operation r.a r.b r.c r.d i in
      let d = operation r.d a r.b r.c (suc i) in
      let c = operation r.c d a r.b (suc (suc i)) in
      let b = operation r.b c d a (suc (suc (suc i))) in record { a = a; b = b; c = c; d = d }

  -- `n` lines of four operations, from the operation `i` on.
  unfoldable pub lines : ℕ → ℕ → Registers → Registers
  lines zero i r = r
  lines (suc n) i r = lines n (suc (suc (suc (suc i)))) (four i r)

shifts-distances : (i : ℕ) → i < 64 → nth (shifts 64) i ≡ nth distances i
unfolding shifts stored_shift
shifts-distances i h =
    (==_iff (nth (shifts 64) i) (nth distances i)).0
      (all_below_sound 64 (λ (m : ℕ). nth (shifts 64) m == nth distances m) i refl h)

get_k_from_i-words : (i : ℕ) → i < 64 → get_k_from_i i ≡ nth words i
unfolding get_k_from_i
get_k_from_i-words i h =
    (==_iff (get_k_from_i i) (nth words i)).0
      (all_below_sound 64 (λ (m : ℕ). get_k_from_i m == nth words m) i refl h)

distance_small : (i : ℕ) → i < 64 → (0 < nth distances i) × (nth distances i < 32)
distance_small i h =
    let check =
      all_below_sound 64 (λ (m : ℕ). ltb 0 (nth distances m) && ltb (nth distances m) 32) i refl
        h in
    (ground (arith, check), ground (arith, check))

-- The registers are words.
abbrev pub AreWords : Registers → Type 0
AreWords r = (r.a < word) × (r.b < word) × (r.c < word) × (r.d < word)

module _ (sines : ℕ → ℕ) (block : List ℕ) (bytes : All (λ b. b < 256) block) where
  step-operation :
      (i : ℕ) (r : Registers)
      → i < 64
      → AreWords r
      → step sines block i r
        ≡ record { a = r.d; b = operation sines block r.a r.b r.c r.d i; c = r.b; d = r.c }
  unfolding step md5round
  step-operation i r h (a, b, c, d) =
      let small = distance_small i h in
      rw (
        step,
        md5round,
        shifts-distances i h,
        get_k_from_i-words i h,
        funcs_lem (i / 16) r.b r.c r.d b c d,
        from_le_lem block (4 * nth words i) bytes,
        rotate_left_lem
            ((r.a
                + bit_by_bit 32 (round_bit (i / 16)) r.b r.c r.d
                + word_at block (4 * nth words i)
                + sines i)
              % word)
            (nth distances i) (omega arith) small.0 small.1,
      )

  steps_zero : (i : ℕ) (r : Registers) → steps sines 0 block i r ≡ r
  unfolding steps
  steps_zero i r = refl

  four-AreWords : (i : ℕ) (r : Registers) → AreWords (four sines block i r)
  unfolding four
  four-AreWords i r = (omega arith, omega arith, omega arith, omega arith)

  steps-four :
      (n i : ℕ) (r : Registers)
      → i + 3 < 64
      → AreWords r
      → steps sines (suc (suc (suc (suc n)))) block i r
        ≡ steps sines n block (suc (suc (suc (suc i)))) (four sines block i r)
  unfolding steps four
  steps-four n i r h w =
      let a = operation sines block r.a r.b r.c r.d i in
      let d = operation sines block r.d a r.b r.c (suc i) in
      let c = operation sines block r.c d a r.b (suc (suc i)) in
      rw (
        steps,
        step-operation i r (omega arith) w,
        step-operation (suc i) (record { a = r.d; b = a; c = r.b; d = r.c }) (omega arith)
            (w.3, omega arith, w.1, w.2),
        step-operation (suc (suc i)) (record { a = r.c; b = d; c = a; d = r.b }) (omega arith)
            (w.2, omega arith, omega arith, w.1),
        step-operation (suc (suc (suc i))) (record { a = r.b; b = c; c = d; d = a }) (omega arith)
            (w.1, omega arith, omega arith, omega arith),
        four,
      )

  steps-lines :
      (n i : ℕ) (r : Registers)
      → 4 * n + i ≤ 64
      → AreWords r
      → steps sines (4 * n) block i r ≡ lines sines block n i r
  unfolding lines
  steps-lines zero i r h w = steps_zero i r
  steps-lines (suc n) i r h w =
      let count : 4 * suc n ≡ suc (suc (suc (suc (4 * n)))) = omega arith in
      ap (λ m. steps sines m block i r) count
      ∙ steps-four (4 * n) i r (omega arith) w
      ∙ steps-lines n (suc (suc (suc (suc i)))) (four sines block i r) (omega arith)
          (four-AreWords i r)

  -- For every block of bytes, table of sines and words in the registers, the loop over `i`
  -- computes the 64 operations of RFC 1321 in their order, with F, G, H and I given bit by bit,
  -- the rotation and the words of the block in numbers, and the order of the words and the
  -- distances written out.
  pub steps-rfc : (r : Registers) → AreWords r → steps sines 64 block 0 r ≡ lines sines block 16 0 r
  steps-rfc r w = steps-lines 16 0 r (omega arith) w
