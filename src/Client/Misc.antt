-- ===== src/Client/Misc.antt =====
-- lab_2/chat/src/client/misc.c: texts, and the requests to the server. The times of this file are in
-- Server/Misc.
pub mod Strip
use acos_chat.Base.{
  ℕ, ◌^◌, Bool, true, false, List, [], ◌∷◌, ◌++◌, ltb, leb, not, ◌&&◌, ◌==◌, if◌then◌else◌, codes,
}
use acos_chat.Message.{int32}
use acos_chat.Server.{message_history, message_list, max_history_length}
use acos_chat.Client.{Effect, sends}

-- `prev <= ' '` for a signed `char`: so are the bytes from 128 on, which are negative.
abbrev pub is_low : ℕ → Bool
is_low c = if ltb c 33 then true else leb 128 c

-- The first loop of `str_strip`: the bytes copied.
unfoldable pub squeeze : ℕ → List ℕ → List ℕ
squeeze prev [] = []
squeeze prev (c ∷ str) =
    let rest = squeeze c str in if (c == prev) && is_low prev then rest else c ∷ rest

-- The second, on the reversed buffer: it stops at the first byte of the buffer.
unfoldable pub drop_spaces : List ℕ → List ℕ
drop_spaces [] = []
drop_spaces (c ∷ []) = c ∷ []
drop_spaces (c ∷ d ∷ buf) =
    let rest = drop_spaces (d ∷ buf) in if c == 32 then rest else c ∷ d ∷ buf

abbrev pub reverse : List ℕ → List ℕ
reverse [] = []
reverse (x ∷ xs) = reverse xs ++ x ∷ []

unfoldable pub str_strip : List ℕ → List ℕ
str_strip str = reverse (drop_spaces (reverse (squeeze 10 str)))

-- `status_str`, on the bits of the status.
unfoldable pub status_str : ℕ → List ℕ
status_str status =
    if status == 0
    then codes "OK"
    else if status == 1
    then codes "INVALID TYPE"
    else if status == 2
    then codes "UNAUTHORIZED"
    else if status == 3
    then codes "AUTH_ERROR"
    else if status == 4
    then codes "REG ERROR"
    else if status == 5
    then codes "ACCESS ERROR"
    else if status == 6
    then codes "INVALID MSG"
    else codes "UNKNOWN STATUS"

unfoldable pub ask_for_history : Effect
ask_for_history =
    sends (record { msg_type = message_history; tokens = int32 max_history_length ∷ [] })

unfoldable pub ask_for_userlist : Effect
ask_for_userlist = sends (record { msg_type = message_list; tokens = [] })
