-- ===== src/Tests/Libraries.antt =====
-- Runs of lib/xenon_md5, lib/ts_vector, lib/tableprint and lib/parseargs.
use acos_chat.Base.{
  ℕ, zero, suc, ◌-◌, ◌<◌, ◌≤◌, ◌≡◌, refl, Bool, true, false, List, [], ◌∷◌, ◌++◌, Option, none,
  some, take, length, length-append, map, replicate, length-replicate, if◌then◌else◌, codes, All,
  ◌==◌, ◌&&◌, arith,
}
use acos_chat.Md5.{
  nth, start, steps, md5sum, md5hex, padded, hex, hex_digit, digest, le32, message_size, le64,
  add_blocks, add_block, step, md5round, rotate_left, from_le, funcs, func_f, func_g, func_h,
  func_i, shifts, stored_shift, get_k_from_i,
}
use acos_chat.Md5.Rfc.{AreWords, lines, steps-rfc}
use acos_chat.Md5.Hex.{unhex, md5hex_lem}
use acos_chat.Md5.Padding.{padded_inj}
use acos_chat.TsVector.{init}
use acos_chat.TsVector.Refines.{Call, pushes, clears, on_list, on_vector, vector-refines}
use acos_chat.TsVector
use acos_chat.TablePrint.{Table, init_table, print_table}
use acos_chat.TablePrint.Widths.{add_rows, line_width, print_table_even}
use acos_chat.ParseArgs.{parse_args}
use acos_chat.ParseArgs.Flags.{given_in, parse_args_lem}

-- The table of RFC 1321.
abbrev table : List ℕ
table =
    0xd76aa478 ∷ 0xe8c7b756 ∷ 0x242070db ∷ 0xc1bdceee ∷ 0xf57c0faf ∷ 0x4787c62a ∷ 0xa8304613
    ∷ 0xfd469501 ∷ 0x698098d8 ∷ 0x8b44f7af ∷ 0xffff5bb1 ∷ 0x895cd7be ∷ 0x6b901122 ∷ 0xfd987193
    ∷ 0xa679438e ∷ 0x49b40821 ∷ 0xf61e2562 ∷ 0xc040b340 ∷ 0x265e5a51 ∷ 0xe9b6c7aa ∷ 0xd62f105d
    ∷ 0x2441453 ∷ 0xd8a1e681 ∷ 0xe7d3fbc8 ∷ 0x21e1cde6 ∷ 0xc33707d6 ∷ 0xf4d50d87 ∷ 0x455a14ed
    ∷ 0xa9e3e905 ∷ 0xfcefa3f8 ∷ 0x676f02d9 ∷ 0x8d2a4c8a ∷ 0xfffa3942 ∷ 0x8771f681 ∷ 0x6d9d6122
    ∷ 0xfde5380c ∷ 0xa4beea44 ∷ 0x4bdecfa9 ∷ 0xf6bb4b60 ∷ 0xbebfbc70 ∷ 0x289b7ec6 ∷ 0xeaa127fa
    ∷ 0xd4ef3085 ∷ 0x4881d05 ∷ 0xd9d4d039 ∷ 0xe6db99e5 ∷ 0x1fa27cf8 ∷ 0xc4ac5665 ∷ 0xf4292244
    ∷ 0x432aff97 ∷ 0xab9423a7 ∷ 0xfc93a039 ∷ 0x655b59c3 ∷ 0x8f0ccc92 ∷ 0xffeff47d ∷ 0x85845dd1
    ∷ 0x6fa87e4f ∷ 0xfe2ce6e0 ∷ 0xa3014314 ∷ 0x4e0811a1 ∷ 0xf7537e82 ∷ 0xbd3af235 ∷ 0x2ad7d2bb
    ∷ 0xeb86d391 ∷ []

abbrev pub sines : ℕ → ℕ
sines i = nth table i

abbrev block : List ℕ
block = replicate 64 7

all_small : (n : ℕ) → All (λ b. b < 256) (replicate n 7)
all_small zero = tt
all_small (suc n) = (omega arith, all_small n)

block-Bytes : All (λ b. b < 256) block
block-Bytes = all_small 64

start-AreWords : AreWords start
unfolding start
start-AreWords = (omega arith, omega arith, omega arith, omega arith)

steps-rfc_example : steps sines 64 block 0 start ≡ lines sines block 16 0 start
steps-rfc_example = steps-rfc sines block block-Bytes start start-AreWords

-- The MD5 sum of "a".
a_hashed : md5hex sines (codes "a") ≡ codes "0CC175B9C0F1B6A831C399E269772661"
unfolding md5hex md5sum hex hex_digit digest le32 start padded message_size le64 add_blocks
    add_block steps step md5round rotate_left from_le funcs func_f func_g func_h func_i shifts
    stored_shift get_k_from_i
a_hashed = refl

md5hex_lem_example :
    (length (md5sum sines (codes "root")) ≡ 16)
    × (length (md5hex sines (codes "root")) ≡ 32)
    × (unhex (md5hex sines (codes "root")) ≡ md5sum sines (codes "root"))
md5hex_lem_example = md5hex_lem sines (codes "root")

padded_inj_example : codes "ab" ≡ 97 ∷ 98 ∷ []
padded_inj_example = padded_inj (codes "ab") (97 ∷ 98 ∷ []) (omega arith) (omega arith) refl

abbrev calls : List (Call ℕ)
calls = pushes 1 ∷ clears ∷ pushes 2 ∷ pushes 3 ∷ []

vector-refines_example :
    (w : TsVector.TsVector ℕ) × (on_vector calls init ≡ some w)
    × (take w.size w.block ≡ on_list calls [])
vector-refines_example = vector-refines calls

-- The default formatter.
abbrev print : Option (List ℕ) → ℕ → List ℕ → List ℕ
print fmt width entry = replicate (width - length entry) 32 ++ entry

print_padded :
    (width : ℕ) (entry : List ℕ) → length entry ≤ width → length (print none width entry) ≡ width
print_padded width entry h = omega (
  arith,
  length-append (replicate (width - length entry) 32) entry,
  length-replicate {A = ℕ} (width - length entry) 32,
)

abbrev rows : List (List (List ℕ))
rows = (codes "name" ∷ codes "id" ∷ []) ∷ (codes "u" ∷ codes "12345" ∷ []) ∷ []

print_table_even_example :
    (t : Table) × (add_rows rows (init_table 2) ≡ some t)
    × (t.rows ≡ map (take 2) rows)
    × (length (print_table print t) ≡ length rows)
    × All (λ line. length line ≡ line_width t.col_widths) (print_table print t)
print_table_even_example =
    print_table_even print print_padded 2 rows (omega arith, (omega arith, tt))

-- The flags "a" and "v".
abbrev known : ℕ → Bool
known c = if c == 97 then true else c == 118

abbrev args : List (List ℕ)
args = codes "-vx" ∷ codes "a" ∷ []

parse_args_lem_example :
    (after : ℕ → Bool) × (parse_args known args (λ d. false) ≡ some after)
    × ((d : ℕ) → after d ≡ (known d && given_in d args))
parse_args_lem_example =
    parse_args_lem known args
      ((omega arith, (omega arith, (omega arith, tt))), ((omega arith, tt), tt))
