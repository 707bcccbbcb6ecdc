-- ===== src/Md5/Words.antt =====
-- The rotation of a word and the words of a block, in numbers.
use acos_chat.Base.{
  ℕ, zero, suc, ◌+◌, ◌-◌, ◌*◌, ◌/◌, ◌%◌, ◌^◌, ◌<◌, ◌≡◌, refl, sym, ap, ◌∙◌, List, [], ◌∷◌, All,
  ◌==◌, ==_iff, all_below_sound, arith,
}
use Prim.Native.Nat.{bit_or}
use native.Mathlib.Nat.{
  one-le-pow, div-lt_iff_lt-mul, div-add-mod, mul-add-mod_self_left, mod-eq_of_lt, mod-lt,
  mul-lt-mul_of_pos_right,
}
use acos_chat.Md5.{nth, word, rotate_left, from_le}
use acos_chat.Md5.Bits.{or_fields}

-- The lower bits move up by `s` places, the `s` upper ones come in below.
abbrev pub rotated : ℕ → ℕ → ℕ
rotated x s = (x % 2 ^ (32 - s)) * 2 ^ s + x / 2 ^ (32 - s)

pow_split : (s : ℕ) → s < 33 → 2 ^ (32 - s) * 2 ^ s ≡ word
pow_split s h =
    (==_iff (2 ^ (32 - s) * 2 ^ s) word).0
      (all_below_sound 33 (λ (m : ℕ). 2 ^ (32 - m) * 2 ^ m == word) s refl h)

shifted : (x m k : ℕ) → 0 < m → 0 < k → (x * k) % (m * k) ≡ (x % m) * k
shifted x m k p q =
    let whole : x * k ≡ (m * k) * (x / m) + (x % m) * k =
      ap (λ t. t * k) (sym (div-add-mod x m)) ∙ grind arith in
    ap (λ t. t % (m * k)) whole
    ∙ mul-add-mod_self_left (m * k) (x / m) ((x % m) * k)
    ∙ mod-eq_of_lt (mul-lt-mul_of_pos_right (mod-lt x p) q)

pub rotate_left_lem : (x s : ℕ) → x < word → 0 < s → s < 32 → rotate_left x s ≡ rotated x s
unfolding rotate_left
rotate_left_lem x s h p q =
    let up : s % 32 ≡ s = omega arith in
    let down : (32 - s) % 32 ≡ 32 - s = omega arith in
    let m = 2 ^ (32 - s) in
    let k = 2 ^ s in
    let pm : 0 < m = one-le-pow (32 - s) 2 (omega arith) in
    let pk : 0 < k = one-le-pow s 2 (omega arith) in
    let split : m * k ≡ word = pow_split s (omega arith) in
    let left : (x * k) % word ≡ (x % m) * k =
      ap (λ w. (x * k) % w) (sym split) ∙ shifted x m k pm pk in
    let fits : x / m < k = (div-lt_iff_lt-mul pm).1 (grind (arith, split, h)) in
    rw (up, down, left) (or_fields s (x % m) (x / m) fits)

-- Four bytes, the lowest first.
abbrev pub word_at : List ℕ → ℕ → ℕ
word_at block i =
    nth block i
    + 2 ^ 8 * nth block (i + 1)
    + 2 ^ 16 * nth block (i + 2)
    + 2 ^ 24 * nth block (i + 3)

nth_less : (block : List ℕ) (i : ℕ) → All (λ b. b < 256) block → nth block i < 256
nth_less [] i h = omega arith
nth_less (b ∷ block) zero h = h.0
nth_less (b ∷ block) (suc i) h = nth_less block i h.1

shift_in : (a b : ℕ) → a < 2 ^ 24 → b < 256 → bit_or ((a * 256) % word) b ≡ a * 256 + b
shift_in a b p q =
    let small : (a * 256) % word ≡ a * 2 ^ 8 = omega arith in
    rw small (or_fields 8 a b q ∙ omega arith)

pub from_le_lem :
    (block : List ℕ) (i : ℕ) → All (λ b. b < 256) block → from_le block i ≡ word_at block i
unfolding from_le
from_le_lem block i h =
    let b0 = nth_less block (i + 0) h in
    let b1 = nth_less block (i + 1) h in
    let b2 = nth_less block (i + 2) h in
    let b3 = nth_less block (i + 3) h in
    let zeroth : nth block (i + 0) ≡ nth block i = ap (nth block) (omega arith) in
    rw
      (
        shift_in 0 (nth block (i + 3)) (omega arith) b3,
        shift_in (0 * 256 + nth block (i + 3)) (nth block (i + 2)) (omega arith) b2,
        shift_in ((0 * 256 + nth block (i + 3)) * 256 + nth block (i + 2)) (nth block (i + 1))
            (omega arith) b1,
        shift_in
            (((0 * 256 + nth block (i + 3)) * 256 + nth block (i + 2)) * 256 + nth block (i + 1))
            (nth block (i + 0)) (omega arith) b0,
      )
      (omega (arith, zeroth))
