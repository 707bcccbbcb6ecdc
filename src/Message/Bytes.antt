-- ===== src/Message/Bytes.antt =====
-- Buffers cut at a position, and the bytes of an `int`.
use acos_chat.Base.{
  ℕ, ◌/◌, ◌%◌, ◌^◌, ◌<◌, ◌≡◌, refl, ap, List, [], ◌∷◌, ◌++◌, some, length, take, drop, arith,
}
use acos_chat.Message.{be32, be64, of_be, read_int}

pub of_be-be32 :
    (n : ℕ)
    → n < 2 ^ 32
    → of_be ((n / 16777216) % 256) ((n / 65536) % 256) ((n / 256) % 256) (n % 256) ≡ n
of_be-be32 n h = omega arith

pub length-be32 : (n : ℕ) → length (be32 n) ≡ 4
unfolding be32
length-be32 n = refl

pub length-be64 : (n : ℕ) → length (be64 n) ≡ 8
unfolding be64 be32
length-be64 n = refl

pub read_int-be32 : (n : ℕ) (rest : List ℕ) → n < 2 ^ 32 → read_int (be32 n ++ rest) ≡ some n
unfolding be32
read_int-be32 n rest h = ap some (of_be-be32 n h)

module _ {ℓ} {A : Type ℓ} where
  pub drop-length : (xs ys : List A) → drop (length xs) (xs ++ ys) ≡ ys
  drop-length [] ys = refl
  drop-length (x ∷ xs) ys = drop-length xs ys

  pub take-length : (xs ys : List A) → take (length xs) (xs ++ ys) ≡ xs
  take-length [] ys = refl
  take-length (x ∷ xs) ys = ap (◌∷◌ x) (take-length xs ys)

  pub take_all : (xs : List A) → take (length xs) xs ≡ xs
  take_all [] = refl
  take_all (x ∷ xs) = ap (◌∷◌ x) (take_all xs)
