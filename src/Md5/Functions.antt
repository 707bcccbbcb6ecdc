-- ===== src/Md5/Functions.antt =====
-- The functions of RFC 1321 on words, bit by bit, and what the source makes of them.
use acos_chat.Base.{
  ℕ, zero, suc, ◌+◌, ◌-◌, ◌*◌, ◌/◌, ◌%◌, ◌^◌, ◌<◌, ◌≡◌, refl, ap, ◌∙◌, ◌||◌, ◌==◌, if◌then◌else◌,
  arith,
}
use Prim.Native.Nat.{min, max, differ, bit_and, bit_or, bit_xor}
use native.Mathlib.Nat.{pow-suc}
use acos_chat.Md5.{word, func_f, func_g, func_h, func_i, funcs}
use acos_chat.Md5.Bits.{and_lowest, or_lowest, xor_lowest}

-- The lowest `n` bits, each by itself.
abbrev pub bit_by_bit : ℕ → (ℕ → ℕ → ℕ → ℕ) → ℕ → ℕ → ℕ → ℕ
bit_by_bit zero f x y z = 0
bit_by_bit (suc n) f x y z = bit_by_bit n f (x / 2) (y / 2) (z / 2) * 2 + f (x % 2) (y % 2) (z % 2)

-- F: if X then Y else Z.
abbrev pub f_bit : ℕ → ℕ → ℕ → ℕ
f_bit x y z = if x == 1 then y else z

-- G: if Z then X else Y.
abbrev pub g_bit : ℕ → ℕ → ℕ → ℕ
g_bit x y z = if z == 1 then x else y

-- H: the parity.
abbrev pub h_bit : ℕ → ℕ → ℕ → ℕ
h_bit x y z = (x + y + z) % 2

-- I: Y, or its opposite if X or not Z.
abbrev pub i_bit : ℕ → ℕ → ℕ → ℕ
i_bit x y z = if (x == 1) || (z == 0) then 1 - y else y

-- The function of a round, from 0 on.
abbrev pub round_bit : ℕ → ℕ → ℕ → ℕ → ℕ
round_bit zero = f_bit
round_bit (suc zero) = g_bit
round_bit (suc (suc zero)) = h_bit
round_bit (suc (suc (suc n))) = i_bit

half_not : (n x : ℕ) → x < 2 ^ suc n → (2 ^ suc n - 1 - x) / 2 ≡ 2 ^ n - 1 - x / 2
half_not n x h = omega (arith, pow-suc 2 n)

low_not : (n x : ℕ) → x < 2 ^ suc n → (2 ^ suc n - 1 - x) % 2 ≡ 1 - x % 2
low_not n x h = omega (arith, pow-suc 2 n)

half_less : (n x : ℕ) → x < 2 ^ suc n → x / 2 < 2 ^ n
half_less n x h = omega (arith, pow-suc 2 n)

half : (a d : ℕ) → d < 2 → (a * 2 + d) / 2 ≡ a
half a d h = omega arith

low : (a d : ℕ) → d < 2 → (a * 2 + d) % 2 ≡ d
low a d h = omega arith

-- `(x & y) | (v & z)`
or_of_ands :
    (x y v z : ℕ)
    → bit_or (bit_and x y) (bit_and v z)
      ≡ bit_or (bit_and (x / 2) (y / 2)) (bit_and (v / 2) (z / 2)) * 2
        + max (min (x % 2) (y % 2)) (min (v % 2) (z % 2))
or_of_ands x y v z =
    rw (and_lowest x y, and_lowest v z)
      (or_lowest (bit_and (x / 2) (y / 2) * 2 + min (x % 2) (y % 2))
          (bit_and (v / 2) (z / 2) * 2 + min (v % 2) (z % 2))
        ∙ rw
            (
              half (bit_and (x / 2) (y / 2)) (min (x % 2) (y % 2)) (omega arith),
              low (bit_and (x / 2) (y / 2)) (min (x % 2) (y % 2)) (omega arith),
              half (bit_and (v / 2) (z / 2)) (min (v % 2) (z % 2)) (omega arith),
              low (bit_and (v / 2) (z / 2)) (min (v % 2) (z % 2)) (omega arith),
            )
            refl)

f_bits :
    (n x y z : ℕ)
    → x < 2 ^ n
    → y < 2 ^ n
    → z < 2 ^ n
    → bit_or (bit_and x y) (bit_and (2 ^ n - 1 - x) z) ≡ bit_by_bit n f_bit x y z
f_bits zero x y z p q r =
    let ex : x ≡ 0 = omega arith in
    let ey : y ≡ 0 = omega arith in let ez : z ≡ 0 = omega arith in rw (ex, ey, ez) refl
f_bits (suc n) x y z p q r =
    or_of_ands x y (2 ^ suc n - 1 - x) z
    ∙ rw
        (
          half_not n x p,
          low_not n x p,
          f_bits n (x / 2) (y / 2) (z / 2) (half_less n x p) (half_less n y q) (half_less n z r),
        )
        (ap (λ d. bit_by_bit n f_bit (x / 2) (y / 2) (z / 2) * 2 + d) (ground arith))

g_bits :
    (n x y z : ℕ)
    → x < 2 ^ n
    → y < 2 ^ n
    → z < 2 ^ n
    → bit_or (bit_and x z) (bit_and (2 ^ n - 1 - z) y) ≡ bit_by_bit n g_bit x y z
g_bits zero x y z p q r =
    let ex : x ≡ 0 = omega arith in
    let ey : y ≡ 0 = omega arith in let ez : z ≡ 0 = omega arith in rw (ex, ey, ez) refl
g_bits (suc n) x y z p q r =
    or_of_ands x z (2 ^ suc n - 1 - z) y
    ∙ rw
        (
          half_not n z r,
          low_not n z r,
          g_bits n (x / 2) (y / 2) (z / 2) (half_less n x p) (half_less n y q) (half_less n z r),
        )
        (ap (λ d. bit_by_bit n g_bit (x / 2) (y / 2) (z / 2) * 2 + d) (ground arith))

differ_less : (a b : ℕ) → a < 2 → b < 2 → differ a b < 2
differ_less zero b p q = q
differ_less (suc a) zero p q = p
differ_less (suc zero) (suc zero) p q = omega arith
differ_less (suc zero) (suc (suc b)) p q = absurd (omega arith)
differ_less (suc (suc a)) (suc b) p q = absurd (omega arith)

parity : (a b : ℕ) → a < 2 → b < 2 → differ a b ≡ (a + b) % 2
parity zero b p q = omega arith
parity (suc zero) zero p q = refl
parity (suc zero) (suc zero) p q = refl
parity (suc zero) (suc (suc b)) p q = absurd (omega arith)
parity (suc (suc a)) b p q = absurd (omega arith)

h_bits :
    (n x y z : ℕ)
    → x < 2 ^ n
    → y < 2 ^ n
    → z < 2 ^ n
    → bit_xor (bit_xor x y) z ≡ bit_by_bit n h_bit x y z
h_bits zero x y z p q r =
    let ex : x ≡ 0 = omega arith in
    let ey : y ≡ 0 = omega arith in let ez : z ≡ 0 = omega arith in rw (ex, ey, ez) refl
h_bits (suc n) x y z p q r =
    let inner = bit_xor (x / 2) (y / 2) in
    let d = differ (x % 2) (y % 2) in
    let small : d < 2 = differ_less (x % 2) (y % 2) (omega arith) (omega arith) in
    let ih =
      h_bits n (x / 2) (y / 2) (z / 2) (half_less n x p) (half_less n y q) (half_less n z r) in
    ap (λ a. bit_xor a z) (xor_lowest x y)
    ∙ xor_lowest (inner * 2 + d) z
    ∙ rw (half inner d small, low inner d small, ih)
        (ap (λ e. bit_by_bit n h_bit (x / 2) (y / 2) (z / 2) * 2 + e)
          (parity d (z % 2) small (omega arith)
            ∙ omega (arith, parity (x % 2) (y % 2) (omega arith) (omega arith))))

i_bits :
    (n x y z : ℕ)
    → x < 2 ^ n
    → y < 2 ^ n
    → z < 2 ^ n
    → bit_xor y (bit_or (2 ^ n - 1 - z) x) ≡ bit_by_bit n i_bit x y z
i_bits zero x y z p q r =
    let ex : x ≡ 0 = omega arith in
    let ey : y ≡ 0 = omega arith in let ez : z ≡ 0 = omega arith in rw (ex, ey, ez) refl
i_bits (suc n) x y z p q r =
    let inner = bit_or (2 ^ n - 1 - z / 2) (x / 2) in
    let d = max (1 - z % 2) (x % 2) in
    let small : d < 2 = omega arith in
    let ih =
      i_bits n (x / 2) (y / 2) (z / 2) (half_less n x p) (half_less n y q) (half_less n z r) in
    ap (bit_xor y) (or_lowest (2 ^ suc n - 1 - z) x ∙ rw (half_not n z r, low_not n z r) refl)
    ∙ xor_lowest y (inner * 2 + d)
    ∙ rw (half inner d small, low inner d small, ih)
        (ap (λ e. bit_by_bit n i_bit (x / 2) (y / 2) (z / 2) * 2 + e)
          (parity (y % 2) d (omega arith) small ∙ ground arith))

-- The functions of the source are those of the RFC.
pub funcs_lem :
    (k x y z : ℕ)
    → x < word
    → y < word
    → z < word
    → funcs k x y z ≡ bit_by_bit 32 (round_bit k) x y z
unfolding funcs func_f func_g func_h func_i
funcs_lem zero x y z p q r = f_bits 32 x y z p q r
funcs_lem (suc zero) x y z p q r = g_bits 32 x y z p q r
funcs_lem (suc (suc zero)) x y z p q r = h_bits 32 x y z p q r
funcs_lem (suc (suc (suc n))) x y z p q r = i_bits 32 x y z p q r
