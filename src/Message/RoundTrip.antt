-- ===== src/Message/RoundTrip.antt =====
-- `unpack_message_1` after `pack_message`.
use acos_chat.Base.{
  ℕ, suc, zero, ◌+◌, ◌-◌, ◌/◌, ◌%◌, ◌^◌, ◌<◌, ◌≤◌, ◌≡◌, refl, ap, ◌∙◌, false, List, [], ◌∷◌, ◌++◌,
  some, All, map, length, length-append, append_assoc, append-nil, ltb, lt→ltb, arith,
}
use acos_chat.Base.{ltb-false}
use acos_chat.Message.{
  PascalString, Token, c_str, p_str, int32, int64, no_data, Message, done, map_outcome,
  msg_header_size, be32, u32, token_size, payload, pack_size, pack_tokens, pack_message, pstrdup,
  passes_end, next_pos, take_token, round, goes_on, unpack_loop, unpack_message_1, unpack_message_2,
}
use acos_chat.Message.Bytes.{
  of_be-be32, length-be32, length-be64, drop-length, take-length, take_all,
}

-- The ranges of the C types, and a Pascal string whose size is right.
abbrev pub IsToken : Token → Type 0
IsToken (c_str s) = length s < 2 ^ 31
IsToken (p_str p) = (p.size < 2 ^ 31) × (length p.bytes ≡ p.size)
IsToken (int32 n) = n < 2 ^ 32
IsToken (int64 n) = n < 2 ^ 64
IsToken no_data = Unit

-- What the receiver gets of a token.
abbrev pub received : Token → PascalString
received t = record { size = token_size t; bytes = payload t }

token_size-lt : (t : Token) → IsToken t → token_size t < 2 ^ 31
token_size-lt (c_str s) h = h
token_size-lt (p_str p) h = h.0
token_size-lt (int32 n) h = omega arith
token_size-lt (int64 n) h = omega arith
token_size-lt no_data h = omega arith

length-payload : (t : Token) → IsToken t → length (payload t) ≡ token_size t
length-payload (c_str s) h = refl
length-payload (p_str p) h = rw (← h.1) (ap length (take_all p.bytes))
length-payload (int32 n) h = length-be32 n
length-payload (int64 n) h = length-be64 n
length-payload no_data h = refl

pub length-pack_tokens_cons :
    (t : Token) (ts : List Token)
    → IsToken t
    → length (pack_tokens (t ∷ ts)) ≡ 4 + token_size t + length (pack_tokens ts)
unfolding pack_tokens
length-pack_tokens_cons t ts h = omega (
  arith,
  length-append (be32 (token_size t)) (payload t ++ pack_tokens ts),
  length-append (payload t) (pack_tokens ts),
  length-be32 (token_size t),
  length-payload t h,
)

pub length-pack_tokens_nil : length (pack_tokens []) ≡ 0
unfolding pack_tokens
length-pack_tokens_nil = refl

pack_tokens_cons :
    (t : Token) (ts : List Token)
    → pack_tokens (t ∷ ts) ≡ be32 (token_size t) ++ (payload t ++ pack_tokens ts)
unfolding pack_tokens
pack_tokens_cons t ts = refl

-- Where the message fits 32 bits the size is that of the bytes.
pub pack_size-length :
    (ts : List Token) (size : ℕ)
    → All IsToken ts
    → size + length (pack_tokens ts) < 2 ^ 32
    → pack_size size ts ≡ size + length (pack_tokens ts)
unfolding pack_size
pack_size-length [] size h b = omega (arith, length-pack_tokens_nil)
pack_size-length (t ∷ ts) size h b =
    let small = token_size-lt t h.0 in
    let total = length-pack_tokens_cons t ts h.0 in
    let step : ((size + 4) % u32 + token_size t) % u32 ≡ size + 4 + token_size t = omega arith in
    rw step (pack_size-length ts (size + 4 + token_size t) h.1 (omega arith) ∙ omega arith)

passes_end_not : (pos n end : ℕ) → n < 2 ^ 31 → pos + 4 + n ≤ end → passes_end pos n end ≡ false
unfolding passes_end
passes_end_not pos n end small fits = ground arith

next_pos_small : (pos n : ℕ) → n < 2 ^ 31 → next_pos pos n ≡ some (pos + 4 + n)
unfolding next_pos
next_pos_small pos n small = ground arith

pstrdup_fits :
    (pre : List ℕ) (a b c d : ℕ) (body rest : List ℕ) (n : ℕ)
    → n < 2 ^ 31
    → length body ≡ n
    → pstrdup (pre ++ (a ∷ b ∷ c ∷ d ∷ (body ++ rest))) (length pre) n
      ≡ some (record { size = n; bytes = body })
unfolding pstrdup
pstrdup_fits pre a b c d body rest n small len =
    let mem : List ℕ = pre ++ (a ∷ b ∷ c ∷ d ∷ (body ++ rest)) in
    let block : (4 + n) % u32 ≡ suc (suc (suc (suc n))) = omega arith in
    let inside : ltb (length mem) (length pre + suc (suc (suc (suc n)))) ≡ false = ltb-false _ _ (
      omega (arith, length-append pre (a ∷ b ∷ c ∷ d ∷ (body ++ rest)), length-append body rest)) in
    rw (
      block,
      inside,
      drop-length pre (a ∷ b ∷ c ∷ d ∷ (body ++ rest)),
      ← len,
      take-length body rest,
    )

take_token_fits :
    (pre : List ℕ) (a b c d : ℕ) (body rest : List ℕ) (n : ℕ)
    → n < 2 ^ 31
    → length body ≡ n
    → take_token (pre ++ (a ∷ b ∷ c ∷ d ∷ (body ++ rest))) (length pre) n
      ≡ goes_on
          (pre ++ (a ∷ b ∷ c ∷ d ∷ (body ++ rest)))
          (record { size = n; bytes = body })
          (length pre + 4 + n)
unfolding take_token
take_token_fits pre a b c d body rest n small len = rw (
  take_token,
  pstrdup_fits pre a b c d body rest n small len,
  next_pos_small (length pre) n small,
)

-- The bytes of a round afterwards: the length is in host order.
abbrev host : ℕ → List ℕ → List ℕ
host n body = n % 256 ∷ (n / 256) % 256 ∷ (n / 65536) % 256 ∷ (n / 16777216) % 256 ∷ body

round_fits :
    (pre body rest : List ℕ) (n end : ℕ)
    → n < 2 ^ 31
    → length body ≡ n
    → length pre + 4 + n ≤ end
    → round (pre ++ (be32 n ++ (body ++ rest))) (length pre) end
      ≡ goes_on
          ((pre ++ host n body) ++ rest)
          (record { size = n; bytes = body })
          (length pre + 4 + n)
unfolding round be32
round_fits pre body rest n end small len fits =
    rw
      (
        round,
        drop-length pre (be32 n ++ (body ++ rest)),
        of_be-be32 n (omega arith),
        passes_end_not (length pre) n end small fits,
        drop-length pre (be32 n ++ (body ++ rest)),
        take-length pre (be32 n ++ (body ++ rest)),
        append_assoc pre (host n body) rest,
      )
      (take_token_fits pre (n % 256) ((n / 256) % 256) ((n / 65536) % 256) ((n / 16777216) % 256)
        body rest n small len)

-- One round of the loop: the token at the position is read, and the loop goes on behind it.
unpack_round :
    (fuel : ℕ) (pre body rest : List ℕ) (n end : ℕ) (acc : List PascalString)
    → n < 2 ^ 31
    → length body ≡ n
    → length pre + 4 + n ≤ end
    → unpack_loop (suc fuel) (pre ++ (be32 n ++ (body ++ rest))) (length pre) end acc
      ≡ unpack_loop fuel
          ((pre ++ host n body) ++ rest)
          (length (pre ++ host n body))
          end
          (acc ++ record { size = n; bytes = body } ∷ [])
unfolding unpack_loop
unpack_round fuel pre body rest n end acc small len fits =
    let long : length (pre ++ host n body) ≡ length pre + 4 + n =
      omega (arith, length-append pre (host n body)) in
    rw (
      unpack_loop,
      lt→ltb (length pre) end (omega arith),
      round_fits pre body rest n end small len fits,
      long,
    )

-- The whole loop, with the bytes already read in front.
unpack_loop-pack_tokens :
    (ts : List Token) (fuel : ℕ) (pre : List ℕ) (end : ℕ) (acc : List PascalString)
    → All IsToken ts
    → length ts < fuel
    → length pre + length (pack_tokens ts) ≡ end
    → unpack_loop fuel (pre ++ pack_tokens ts) (length pre) end acc ≡ done (acc ++ map received ts)
unfolding unpack_loop
unpack_loop-pack_tokens [] zero pre end acc h f e = elim f [ ]
unpack_loop-pack_tokens [] (suc fuel) pre end acc h f e =
    let at_end : end ≤ length pre = omega (arith, length-pack_tokens_nil) in
    rw (unpack_loop, ltb-false (length pre) end at_end, append-nil acc)
unpack_loop-pack_tokens (t ∷ ts) zero pre end acc h f e = elim f [ ]
unpack_loop-pack_tokens (t ∷ ts) (suc fuel) pre end acc h f e =
    let total = length-pack_tokens_cons t ts h.0 in
    let pre' : List ℕ = pre ++ host (token_size t) (payload t) in
    let long : length pre' ≡ length pre + 4 + token_size t =
      omega (arith, length-append pre (host (token_size t) (payload t)), length-payload t h.0) in
    ap (λ mem. unpack_loop (suc fuel) (pre ++ mem) (length pre) end acc) (pack_tokens_cons t ts)
    ∙ unpack_round fuel pre (payload t) (pack_tokens ts) (token_size t) end acc
        (token_size-lt t h.0) (length-payload t h.0) (omega arith)
    ∙ unpack_loop-pack_tokens ts fuel pre' end (acc ++ received t ∷ []) h.1 (omega arith)
        (omega arith)
    ∙ ap done (append_assoc acc (received t ∷ []) (map received ts))

-- For a message of tokens in the ranges of their C types, C strings and Pascal strings shorter
-- than 2 ^ 31 and Pascal strings of the size that they state, whose packed tokens are shorter than
-- 2 ^ 31, and with more fuel than tokens, `unpack_message_1` of what `pack_message` makes gives
-- the type and, for each token in order, its size and its bytes.
pub unpack_message_1-pack_message :
    (m : Message) (fuel : ℕ)
    → All IsToken m.tokens
    → length (pack_tokens m.tokens) < 2 ^ 31
    → length m.tokens < fuel
    → unpack_message_1 fuel (pack_message m)
      ≡ done (record { msg_type = m.msg_type; tokens = map received m.tokens })
unfolding unpack_message_1 unpack_message_2 pack_message be32
unpack_message_1-pack_message m fuel h small f =
    let n : ℕ = length (pack_tokens m.tokens) in
    let size : pack_size msg_header_size m.tokens - msg_header_size ≡ n =
      omega (arith, pack_size-length m.tokens msg_header_size h) in
    rw (size, of_be-be32 n (omega arith), lt→ltb n (2 ^ 31) small)
      (ap (map_outcome (λ tokens. record { msg_type = m.msg_type; tokens = tokens }))
        (unpack_loop-pack_tokens m.tokens fuel [] n [] h f (omega arith)))
