-- ===== src/Md5/Padding.antt =====
-- The array that `md5sum` hashes.
use acos_chat.Base.{
  ℕ, zero, suc, ◌+◌, ◌-◌, ◌*◌, ◌%◌, ◌^◌, ◌≤◌, ◌<◌, ◌≡◌, refl, sym, ap, ap₂, ◌∙◌, List, [], ◌∷◌,
  ◌++◌, length, take, drop, length-append, replicate, length-replicate, append_assoc, arith,
}
use acos_chat.Message.Bytes.{take-length, drop-length}
use acos_chat.Md5.{message_size, padded, le64}

-- For every text, the size is a multiple of 64 that has room for the text, the byte 0x80 and eight bytes,
-- and the least one.
pub message_size_lem :
    (n : ℕ) → (message_size n % 64 ≡ 0) × (n + 9 ≤ message_size n) × (message_size n < n + 9 + 64)
unfolding message_size
message_size_lem n = omega arith

take-append : (xs ys : List ℕ) (n : ℕ) → take (length xs + n) (xs ++ ys) ≡ xs ++ take n ys
take-append [] ys n = let same : 0 + n ≡ n = omega arith in rw same refl
take-append (x ∷ xs) ys n =
    let same : suc (length xs) + n ≡ suc (length xs + n) = omega arith in
    rw same (ap (◌∷◌ x) (take-append xs ys n))

take-replicate : (n m x : ℕ) → n ≤ m → take n (replicate m x) ≡ replicate n x
take-replicate zero m x h = refl
take-replicate (suc n) zero x h = absurd (omega arith)
take-replicate (suc n) (suc m) x h = ap (◌∷◌ x) (take-replicate n m x (omega arith))

-- The room between the text and its length.
abbrev pub zeros : List ℕ → ℕ
zeros str = message_size (length str) - (length str + 9)

pub padded_lem :
    (str : List ℕ) → padded str ≡ (str ++ 0x80 ∷ replicate (zeros str) 0) ++ le64 (length str * 8)
unfolding padded
padded_lem str =
    let size = message_size_lem (length str) in
    let cut : message_size (length str) - 8 ≡ length str + suc (zeros str) = omega arith in
    rw (
      cut,
      take-append str (0x80 ∷ replicate (message_size (length str) - (length str + 1)) 0)
          (suc (zeros str)),
      take-replicate (zeros str) (message_size (length str) - (length str + 1)) 0 (omega arith),
    )

length-le64 : (n : ℕ) → length (le64 n) ≡ 8
unfolding le64
length-le64 n = refl

length-front : (str : List ℕ) (n : ℕ) → length (str ++ 0x80 ∷ replicate n 0) ≡ length str + 1 + n
length-front str n =
    omega (arith, length-append str (0x80 ∷ replicate n 0), length-replicate {A = ℕ} n 0)

pub length-padded : (str : List ℕ) → length (padded str) ≡ message_size (length str)
length-padded str =
    let size = message_size_lem (length str) in
    ap length (padded_lem str)
    ∙ omega (
      arith,
      length-append (str ++ 0x80 ∷ replicate (zeros str) 0) (le64 (length str * 8)),
      length-front str (zeros str),
      length-le64 (length str * 8),
    )

abbrev of_le64 : List ℕ → ℕ
of_le64 (a ∷ b ∷ c ∷ d ∷ e ∷ f ∷ g ∷ h ∷ []) =
    a + 2 ^ 8 * b + 2 ^ 16 * c + 2 ^ 24 * d + 2 ^ 32 * e + 2 ^ 40 * f + 2 ^ 48 * g + 2 ^ 56 * h
of_le64 _ = 0

of_le64-le64 : (n : ℕ) → n < 2 ^ 64 → of_le64 (le64 n) ≡ n
unfolding le64
of_le64-le64 n h = omega arith

-- The tail that the size leaves.
abbrev ending : List ℕ → List ℕ
ending bytes = drop (length bytes - 8) bytes

ending-padded : (str : List ℕ) → ending (padded str) ≡ le64 (length str * 8)
ending-padded str =
    let front : List ℕ = str ++ 0x80 ∷ replicate (zeros str) 0 in
    let len : length (padded str) - 8 ≡ length front = omega (
      arith,
      ap length (padded_lem str),
      length-append front (le64 (length str * 8)),
      length-le64 (length str * 8),
    ) in
    ap (λ n. drop n (padded str)) len
    ∙ ap (drop (length front)) (padded_lem str)
    ∙ drop-length front (le64 (length str * 8))

take-padded : (str : List ℕ) → take (length str) (padded str) ≡ str
take-padded str =
    ap (take (length str)) (padded_lem str ∙ append_assoc str _ _)
    ∙ take-length str ((0x80 ∷ replicate (zeros str) 0) ++ le64 (length str * 8))

-- Two texts shorter than 2 ^ 28 bytes that are padded to the same bytes are the same.
pub padded_inj :
    (str str' : List ℕ)
    → length str < 2 ^ 28
    → length str' < 2 ^ 28
    → padded str ≡ padded str'
    → str ≡ str'
padded_inj str str' h h' e =
    let bits : le64 (length str * 8) ≡ le64 (length str' * 8) =
      sym (ending-padded str) ∙ ap ending e ∙ ending-padded str' in
    let same : length str * 8 ≡ length str' * 8 =
      sym (of_le64-le64 (length str * 8) (omega arith))
      ∙ ap of_le64 bits
      ∙ of_le64-le64 (length str' * 8) (omega arith) in
    let len : length str ≡ length str' = omega arith in
    sym (take-padded str) ∙ ap₂ take len e ∙ take-padded str'
