-- ===== src/Md5.antt =====
-- lib/xenon_md5/src/xenon_md5.c. A `char *` is its bytes without the final zero, a `u32` a number
-- below 2 ^ 32. The table `T`, which the source fills with `sin`, is the argument `sines`. The
-- length of a text stays below 2 ^ 28, so that no `int` and no shifted length wraps around.
pub mod Padding
pub mod Hex
pub mod Bits
pub mod Functions
pub mod Words
pub mod Rfc
use acos_chat.Base.{
  ℕ, zero, suc, ◌+◌, ◌-◌, ◌*◌, ◌/◌, ◌%◌, ◌^◌, List, [], ◌∷◌, ◌++◌, length, take, drop, codes,
  replicate, ltb, ◌==◌, if◌then◌else◌,
}
use Prim.Native.Nat.{bit_and, bit_or, bit_xor}

abbrev pub nth : List ℕ → ℕ → ℕ
nth [] i = 0
nth (x ∷ xs) zero = x
nth (x ∷ xs) (suc i) = nth xs i

-- `S[i]` before the second loop of `init_xenonmd5`.
unfoldable pub stored_shift : ℕ → ℕ
stored_shift i =
    if ltb i 4
    then nth (7 ∷ 12 ∷ 17 ∷ 22 ∷ []) i
    else if ltb i 16
    then 0
    else if ltb i 20
    then nth (5 ∷ 9 ∷ 14 ∷ 20 ∷ []) (i - 16)
    else if ltb i 32
    then 0
    else if ltb i 36
    then nth (4 ∷ 11 ∷ 16 ∷ 23 ∷ []) (i - 32)
    else if ltb i 48
    then 0
    else nth (6 ∷ 10 ∷ 15 ∷ 21 ∷ []) (i - 48)

-- The first `n` entries of `S` after that loop has set them.
unfoldable pub shifts : ℕ → List ℕ
shifts zero = []
shifts (suc n) =
    let before = shifts n in
    before ++ (if stored_shift n == 0 then nth before (n - 4) else stored_shift n) ∷ []

abbrev pub word : ℕ
word = 2 ^ 32

-- `~x`
abbrev pub bit_not : ℕ → ℕ
bit_not x = word - 1 - x

unfoldable pub func_f : ℕ → ℕ → ℕ → ℕ
func_f x y z = bit_or (bit_and x y) (bit_and (bit_not x) z)

unfoldable pub func_g : ℕ → ℕ → ℕ → ℕ
func_g x y z = bit_or (bit_and x z) (bit_and (bit_not z) y)

unfoldable pub func_h : ℕ → ℕ → ℕ → ℕ
func_h x y z = bit_xor (bit_xor x y) z

unfoldable pub func_i : ℕ → ℕ → ℕ → ℕ
func_i x y z = bit_xor y (bit_or (bit_not z) x)

-- `funcs[n]`
unfoldable pub funcs : ℕ → ℕ → ℕ → ℕ → ℕ
funcs zero = func_f
funcs (suc zero) = func_g
funcs (suc (suc zero)) = func_h
funcs (suc (suc (suc n))) = func_i

unfoldable pub rotate_left : ℕ → ℕ → ℕ
rotate_left n shift = bit_or ((n * 2 ^ (shift % 32)) % word) (n / 2 ^ ((32 - shift % 32) % 32))

-- The loop of `fromLE` goes from the fourth byte to the first.
unfoldable pub from_le : List ℕ → ℕ → ℕ
from_le arr offset =
    let add = λ (ans i : ℕ). bit_or ((ans * 256) % word) (nth arr (offset + i)) in
    add (add (add (add 0 3) 2) 1) 0

unfoldable pub get_k_from_i : ℕ → ℕ
get_k_from_i i =
    if ltb i 16
    then i % 16
    else if ltb i 32
    then (5 * i + 1) % 16
    else if ltb i 48
    then (3 * i + 5) % 16
    else (7 * i) % 16

pub record Registers : Type 0 where
  pub a : ℕ
  pub b : ℕ
  pub c : ℕ
  pub d : ℕ

unfoldable pub message_size : ℕ → ℕ
message_size length = ((length + 8) / 64 + 1) * 64

-- The eight bytes of a `u64`, the lowest first.
unfoldable pub le64 : ℕ → List ℕ
le64 n =
    n % 256
    ∷ (n / 2 ^ 8) % 256
    ∷ (n / 2 ^ 16) % 256
    ∷ (n / 2 ^ 24) % 256
    ∷ (n / 2 ^ 32) % 256
    ∷ (n / 2 ^ 40) % 256
    ∷ (n / 2 ^ 48) % 256
    ∷ (n / 2 ^ 56) % 256
    ∷ []

-- The array `message`: the text, the byte 0x80 and zeros, and then the last eight bytes written over.
unfoldable pub padded : List ℕ → List ℕ
padded str =
    let size = message_size (length str) in
    let filled = str ++ 0x80 ∷ replicate (size - (length str + 1)) 0 in
    take (size - 8) filled ++ le64 (length str * 8)

-- The bytes of a `u32` in memory.
unfoldable pub le32 : ℕ → List ℕ
le32 n = n % 256 ∷ (n / 2 ^ 8) % 256 ∷ (n / 2 ^ 16) % 256 ∷ (n / 2 ^ 24) % 256 ∷ []

unfoldable pub start : Registers
start = record { a = 0x67452301; b = 0xefcdab89; c = 0x98badcfe; d = 0x10325476 }

unfoldable pub digest : Registers → List ℕ
digest r = le32 r.a ++ (le32 r.b ++ (le32 r.c ++ le32 r.d))

unfoldable pub hex_digit : ℕ → ℕ
hex_digit n = nth (codes "0123456789ABCDEF") n

-- The loop of `md5hex`.
unfoldable pub hex : List ℕ → List ℕ
hex [] = []
hex (byte ∷ bytes) = hex_digit ((byte / 16) % 16) ∷ hex_digit (byte % 16) ∷ hex bytes

module _ (sines : ℕ → ℕ) where
  -- What it stores in `*a`.
  unfoldable pub md5round : ℕ → ℕ → ℕ → ℕ → ℕ → ℕ → ℕ → List ℕ → ℕ
  md5round a b c d k s i block =
      (b + rotate_left ((a + funcs (i / 16) b c d + from_le block (4 * k) + sines i) % word) s)
      % word

  -- The body of the loop over `i`.
  unfoldable pub step : List ℕ → ℕ → Registers → Registers
  step block i r = record {
    a = r.d;
    b = md5round r.a r.b r.c r.d (get_k_from_i i) (nth (shifts 64) i) i block;
    c = r.b;
    d = r.c;
  }

  -- That loop, from `i` on, `n` times.
  unfoldable pub steps : ℕ → List ℕ → ℕ → Registers → Registers
  steps zero block i r = r
  steps (suc n) block i r = steps n block (suc i) (step block i r)

  unfoldable pub add_block : List ℕ → Registers → Registers
  add_block block r =
      let new = steps 64 block 0 r in
      record {
        a = (new.a + r.a) % word;
        b = (new.b + r.b) % word;
        c = (new.c + r.c) % word;
        d = (new.d + r.d) % word;
      }

  -- The loop over the blocks, of which `n` are left.
  unfoldable pub add_blocks : ℕ → List ℕ → Registers → Registers
  add_blocks zero message r = r
  add_blocks (suc n) message r = add_blocks n (drop 64 message) (add_block message r)

  unfoldable pub md5sum : List ℕ → List ℕ
  md5sum str = digest (add_blocks (message_size (length str) / 64) (padded str) start)

  unfoldable pub md5hex : List ℕ → List ℕ
  md5hex str = hex (md5sum str)
