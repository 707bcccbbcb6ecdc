-- ===== src/Message.antt =====
-- lab_2/chat/src/common/message.c and pascal_string.c: the wire format. A byte is a number below
-- 256, a `char *` its bytes without the final zero, a `uint32_t` its value. The host is
-- little-endian, so a stored `htonl(n)` is the big-endian bytes of `n`. Allocation succeeds.
pub mod Bytes
pub mod RoundTrip
pub mod Rounds
pub mod Total
pub mod Status
use acos_chat.Base.{
  ℕ, suc, zero, ◌+◌, ◌-◌, ◌*◌, ◌/◌, ◌%◌, ◌^◌, Bool, true, false, List, [], ◌∷◌, ◌++◌, Option, none,
  some, length, take, drop, ltb, leb, if◌then◌else◌,
}

-- `pascal_string_t`: the field `length` as a bit pattern, and the bytes behind it.
pub record PascalString : Type 0 where
  pub size : ℕ
  pub bytes : List ℕ

-- `message_token_t`.
pub data Token : Type 0 where
  c_str : List ℕ → Token
  p_str : PascalString → Token
  int32 : ℕ → Token
  int64 : ℕ → Token
  no_data : Token

pub record Message : Type 0 where
  pub msg_type : ℕ
  pub tokens : List Token

abbrev pub msg_header_size : ℕ
msg_header_size = 5

abbrev pub u32 : ℕ
u32 = 2 ^ 32

unfoldable pub be32 : ℕ → List ℕ
be32 n = (n / 16777216) % 256 ∷ (n / 65536) % 256 ∷ (n / 256) % 256 ∷ n % 256 ∷ []

unfoldable pub be64 : ℕ → List ℕ
be64 n = be32 (n / u32) ++ be32 (n % u32)

abbrev pub of_be : ℕ → ℕ → ℕ → ℕ → ℕ
of_be a b c d = a * 16777216 + b * 65536 + c * 256 + d

-- What a token adds to `size` in `pack_message`, and stores in `*len_ptr`.
abbrev pub token_size : Token → ℕ
token_size (c_str s) = length s
token_size (p_str p) = p.size
token_size (int32 n) = 4
token_size (int64 n) = 8
token_size no_data = 0

-- The first loop of `pack_message`, on a `uint32_t`.
unfoldable pub pack_size : ℕ → List Token → ℕ
pack_size size [] = size
pack_size size (t ∷ ts) = pack_size (((size + 4) % u32 + token_size t) % u32) ts

abbrev pub payload : Token → List ℕ
payload (c_str s) = s
payload (p_str p) = take p.size p.bytes
payload (int32 n) = be32 n
payload (int64 n) = be64 n
payload no_data = []

-- The second loop.
unfoldable pub pack_tokens : List Token → List ℕ
pack_tokens [] = []
pack_tokens (t ∷ ts) = be32 (token_size t) ++ (payload t ++ pack_tokens ts)

unfoldable pub pack_message : Message → List ℕ
pack_message m =
    m.msg_type
    ∷ (be32 (pack_size msg_header_size m.tokens - msg_header_size) ++ pack_tokens m.tokens)

-- `rejected` is the NULL of a corrupted message, `fault` an access outside of the body.
pub data Outcome {ℓ} (A : Type ℓ) : Type ℓ where
  done : A → Outcome A
  rejected fault no_fuel : Outcome A

-- The four bytes of an `int` at the start of what is left of a buffer.
abbrev pub read_int : List ℕ → Option ℕ
read_int (a ∷ b ∷ c ∷ d ∷ rest) = some (of_be a b c d)
read_int _ = none

-- They are written back in host order.
abbrev pub swap_int : List ℕ → List ℕ
swap_int (a ∷ b ∷ c ∷ d ∷ rest) = d ∷ c ∷ b ∷ a ∷ rest
swap_int bytes = bytes

-- `iter + sizeof(uint32_t) + str->length > end`, where the length is negative from 2 ^ 31 on.
unfoldable pub passes_end : ℕ → ℕ → ℕ → Bool
passes_end pos len end =
    if ltb len (2 ^ 31) then ltb end (pos + 4 + len) else ltb (end + u32) (pos + 4 + len)

-- That position, if it is not before the body.
unfoldable pub next_pos : ℕ → ℕ → Option ℕ
next_pos pos len =
    if ltb len (2 ^ 31)
    then some (pos + 4 + len)
    else if ltb (pos + 4 + len) u32
    then none
    else some (pos + 4 + len - u32)

-- `pstrdup`: the block of `(uint32_t)(4 + length)` bytes at the position, if it is in the buffer.
unfoldable pub pstrdup : List ℕ → ℕ → ℕ → Option PascalString
pstrdup mem pos len =
    if ltb (length mem) (pos + (4 + len) % u32)
    then none
    else some (record { size = len; bytes = drop 4 (take ((4 + len) % u32) (drop pos mem)) })

-- How one round of the loop ends: at `return NULL`, at an access outside of the body, or with the
-- changed body, the token and the next position.
pub data Round : Type 0 where
  corrupted out_of_body : Round
  goes_on : List ℕ → PascalString → ℕ → Round

-- The last steps of a round, on the body with the length in host order.
unfoldable pub take_token : List ℕ → ℕ → ℕ → Round
take_token mem pos len = elim (pstrdup mem pos len) [
  | none ↦ out_of_body
  | some token ↦ elim (next_pos pos len) [ none ↦ out_of_body | some next ↦ goes_on mem token next ]
]

-- The body of the loop of `unpack_message_2`, which changes the buffer `mem`.
unfoldable pub round : List ℕ → ℕ → ℕ → Round
round mem pos end = elim (read_int (drop pos mem)) [
  | none ↦ out_of_body
  | some len ↦
      if passes_end pos len end
      then corrupted
      else take_token (take pos mem ++ swap_int (drop pos mem)) pos len
]

-- The loop, with the tokens so far.
unfoldable pub unpack_loop : ℕ → List ℕ → ℕ → ℕ → List PascalString → Outcome (List PascalString)
unpack_loop zero mem pos end tokens = no_fuel
unpack_loop (suc fuel) mem pos end tokens = elim (ltb pos end) [
  | false ↦ done tokens
  | true ↦ elim (round mem pos end) [
    | corrupted ↦ rejected
    | out_of_body ↦ fault
    | goes_on mem' token next ↦ unpack_loop fuel mem' next end (tokens ++ token ∷ [])
  ]
]

pub record Unpacked : Type 0 where
  pub msg_type : ℕ
  pub tokens : List PascalString

abbrev pub map_outcome {ℓ κ} : {A : Type ℓ} {B : Type κ} → (A → B) → Outcome A → Outcome B
map_outcome f (done a) = done (f a)
map_outcome f rejected = rejected
map_outcome f fault = fault
map_outcome f no_fuel = no_fuel

-- `unpack_message_2`. A negative message length ends the loop at once.
unfoldable pub unpack_message_2 : ℕ → List ℕ → List ℕ → Outcome Unpacked
unpack_message_2 fuel [] body = fault
unpack_message_2 fuel (type ∷ header) body = elim (read_int header) [
  | none ↦ fault
  | some msglen ↦
      map_outcome (λ tokens. record { msg_type = type; tokens = tokens })
        (unpack_loop fuel body 0 (if ltb msglen (2 ^ 31) then msglen else 0) [])
]

unfoldable pub unpack_message_1 : ℕ → List ℕ → Outcome Unpacked
unpack_message_1 fuel bytes =
    unpack_message_2 fuel (take msg_header_size bytes) (drop msg_header_size bytes)

-- The buffer that `send_status_code` fills and sends.
unfoldable pub status_buffer : ℕ → List ℕ
status_buffer status = 115 ∷ (be32 8 ++ (be32 4 ++ be32 status))
