-- ===== src/Md5/Hex.antt =====
-- The text that `md5hex` makes of a digest.
use acos_chat.Base.{
  ℕ, ◌+◌, ◌-◌, ◌*◌, ◌/◌, ◌%◌, ◌<◌, ◌≡◌, refl, ap, ap₂, ◌∙◌, List, [], ◌∷◌, ◌++◌, ◌==◌, ==_iff,
  all_below_sound, length, All, All-append, ltb, if◌then◌else◌, arith,
}
use acos_chat.Message.Rounds.{IsByte}
use acos_chat.Md5.{
  Registers, message_size, padded, start, add_blocks, hex_digit, hex, md5hex, md5sum, digest, le32,
}

-- The value of a digit `0` to `9` or `A` to `F`.
abbrev pub digit_value : ℕ → ℕ
digit_value c = if ltb c 65 then c - 48 else c - 55

-- A reader of such texts.
abbrev pub unhex : List ℕ → List ℕ
unhex (high ∷ low ∷ rest) = (16 * digit_value high + digit_value low) ∷ unhex rest
unhex _ = []

digit_value-hex_digit : (n : ℕ) → n < 16 → digit_value (hex_digit n) ≡ n
unfolding hex_digit
digit_value-hex_digit n h =
    (==_iff (digit_value (hex_digit n)) n).0
      (all_below_sound 16 (λ (m : ℕ). digit_value (hex_digit m) == m) n refl h)

unhex-hex : (bytes : List ℕ) → All IsByte bytes → unhex (hex bytes) ≡ bytes
unfolding hex
unhex-hex [] h = refl
unhex-hex (byte ∷ bytes) h =
    let value : 16 * digit_value (hex_digit ((byte / 16) % 16))
          + digit_value (hex_digit (byte % 16))
        ≡ byte =
      omega (
        arith,
        digit_value-hex_digit ((byte / 16) % 16) (omega arith),
        digit_value-hex_digit (byte % 16) (omega arith),
        h.0,
      ) in
    ap₂ (λ x xs. x ∷ xs) value (unhex-hex bytes h.1)

le32-IsByte : (n : ℕ) → All IsByte (le32 n)
unfolding le32
le32-IsByte n = (omega arith, (omega arith, (omega arith, (omega arith, tt))))

length-le32 : (n : ℕ) → length (le32 n) ≡ 4
unfolding le32
length-le32 n = refl

length-hex : (bytes : List ℕ) → length (hex bytes) ≡ 2 * length bytes
unfolding hex
length-hex [] = refl
length-hex (byte ∷ bytes) = omega (arith, length-hex bytes)

digest-IsDigest : (r : Registers) → (length (digest r) ≡ 16) × All IsByte (digest r)
unfolding digest le32
digest-IsDigest r = (
  refl,
  All-append IsByte (le32 r.a) (le32 r.b ++ (le32 r.c ++ le32 r.d)) (le32-IsByte r.a) (
      All-append IsByte (le32 r.b) (le32 r.c ++ le32 r.d) (le32-IsByte r.b)
        (All-append IsByte (le32 r.c) (le32 r.d) (le32-IsByte r.c) (le32-IsByte r.d))),
)

-- For every table of sines and every text, the digest has 16 bytes, and `md5hex` writes it as 32
-- digits from which it is read back.
pub md5hex_lem :
    (sines : ℕ → ℕ) (str : List ℕ)
    → (length (md5sum sines str) ≡ 16)
      × (length (md5hex sines str) ≡ 32)
      × (unhex (md5hex sines str) ≡ md5sum sines str)
unfolding md5hex md5sum
md5hex_lem sines str =
    let d =
      digest-IsDigest (add_blocks sines (message_size (length str) / 64) (padded str) start) in
    (d.0, length-hex _ ∙ ap (◌*◌ 2) d.0, unhex-hex _ d.1)
