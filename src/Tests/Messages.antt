-- ===== src/Tests/Messages.antt =====
-- Runs of the wire format.
use acos_chat.Base.{ℕ, ◌≡◌, ◌≢◌, refl, List, [], ◌∷◌, map, All, arith}
use acos_chat.Message.{
  Token, Message, c_str, p_str, int32, int64, done, fault, no_fuel, pack_message, pack_tokens, be32,
  be64, unpack_message_1, unpack_message_2,
}
use acos_chat.Message.RoundTrip.{received, unpack_message_1-pack_message}
use acos_chat.Message.Rounds.{IsByte}
use acos_chat.Message.Total.{unpack_message_2-ends, unpack_message_2-fault}

abbrev tokens : List Token
tokens =
    int64 4294967301
    ∷ c_str (104 ∷ 105 ∷ [])
    ∷ p_str (record { size = 1; bytes = 7 ∷ [] })
    ∷ int32 258
    ∷ []

abbrev message : Message
message = record { msg_type = 114; tokens = tokens }

unpack_message_1-pack_message_example :
    unpack_message_1 5 (pack_message message)
    ≡ done (record { msg_type = 114; tokens = map received tokens })
unfolding pack_tokens be32 be64
unpack_message_1-pack_message_example =
    unpack_message_1-pack_message message 5
      (omega arith, (omega arith, ((omega arith, refl), (omega arith, tt)))) (omega arith)
      (omega arith)

-- A message of eight bytes whose first length is too large.
abbrev bad_header : List ℕ
bad_header = 114 ∷ 0 ∷ 0 ∷ 0 ∷ 8 ∷ []

abbrev bad_body : List ℕ
bad_body = 0 ∷ 0 ∷ 0 ∷ 9 ∷ 1 ∷ 2 ∷ 3 ∷ 4 ∷ []

bad_body-All : All IsByte bad_body
bad_body-All = ground arith

unpack_message_2-ends_example : unpack_message_2 18 bad_header bad_body ≢ no_fuel
unpack_message_2-ends_example =
    unpack_message_2-ends 18 bad_header bad_body bad_body-All (omega arith) 8 refl (omega arith)

-- The length field is -16.
unpack_message_2-fault_example :
    unpack_message_2 1 (114 ∷ 0 ∷ 0 ∷ 0 ∷ 5 ∷ []) (255 ∷ 255 ∷ 255 ∷ 240 ∷ 1 ∷ []) ≡ fault
unpack_message_2-fault_example =
    unpack_message_2-fault 0 114 255 255 255 240 5 (0 ∷ 0 ∷ 0 ∷ 5 ∷ []) (1 ∷ []) refl (omega arith)
      (omega arith) (omega arith) (omega arith) (omega arith)
