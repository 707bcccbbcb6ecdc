-- ===== src/Client/Listener.antt =====
-- lab_2/chat/src/client/listener.c: reading a message from the server in the parts in which it arrives,
-- and what it means. A buffer is the list of the bytes read into it, as in the server's listener.
pub mod Same
pub mod Stream
use acos_chat.Base.{
  ℕ, zero, suc, ◌+◌, ◌-◌, ◌*◌, ◌^◌, List, [], ◌∷◌, ◌++◌, Option, none, some, ◌>>=◌, length, drop,
  ltb, ◌==◌, if◌then◌else◌,
}
use acos_chat.Message.{
  PascalString, Unpacked, Outcome, done, rejected, fault, no_fuel, map_outcome, unpack_message_2,
  read_int, of_be, msg_header_size,
}
use acos_chat.Server.{
  message_regular, message_history, message_meta, message_kick, message_list, message_status,
}
use acos_chat.Server.Process.{p_str_to_c_str}
use acos_chat.Server.Listener.{Connection, new_connection, contents, open_body}
use acos_chat.Client.{Event, display, kicked, listed, status}

-- How a call of `process_connection` ends: it returns early, or it has a whole message in its buffers,
-- or it reads a length that is not there.
pub data Verdict : Type 0 where
  waits delivers : Connection → Verdict
  faults : Verdict

unfoldable pub finish : {S : Type 0} → S → Connection → S × Verdict
finish s c = if c.bytes_read == c.bytes_expected then (s, delivers c) else (s, waits c)

-- The loop goes on where the message is not complete.
abbrev pub and_on : {S : Type 0} → (S → Connection → S × Verdict) → S × Verdict → S × Verdict
and_on next (s, waits c) = next s c
and_on next (s, delivers c) = (s, delivers c)
and_on next (s, faults) = (s, faults)

module _ {S : Type 0} (recv : S → ℕ → S × List ℕ) where
  unfoldable pub fill_body : S → Connection → S × Verdict
  fill_body s c =
      let got = recv s (c.bytes_expected - c.bytes_read) in
      if length got.1 == 0
      then (got.0, waits c)
      else finish got.0 (record c {
        body = some (contents c.body ++ got.1);
        bytes_read = c.bytes_read + length got.1;
      })

  -- From `int body_size` on, on the bits of that number.
  unfoldable pub read_body : S → Connection → Option ℕ → S × Verdict
  read_body s c none = (s, faults)
  read_body s c (some size) =
      if ltb size (2 ^ 31)
      then (if size == 0 then finish s c else fill_body s (open_body size c.body c))
      else (s, waits c)

  unfoldable pub after_header : S → Connection → S × Verdict
  after_header s c =
      if ltb c.bytes_read msg_header_size
      then (s, waits c)
      else read_body s c (read_int (drop 1 c.header))

  unfoldable pub process_connection : S → Connection → S × Verdict
  process_connection s c =
      let got = recv s (c.bytes_expected - c.bytes_read) in
      if ltb c.bytes_read msg_header_size
      then (if length got.1 == 0
          then (got.0, waits c)
          else after_header got.0
              (record c { header = c.header ++ got.1; bytes_read = c.bytes_read + length got.1 }))
      else after_header s c

  -- The calls in the loop of `client_listener_thread`, until a message is complete.
  unfoldable pub read_message : ℕ → S → Connection → S × Verdict
  read_message zero s c = (s, waits c)
  read_message (suc polls) s c = and_on (λ s c. read_message polls s c) (process_connection s c)

-- `be64toh(*(uint64_t *) data)`, where the data has eight bytes.
abbrev pub read_long : List ℕ → Option ℕ
read_long (a ∷ b ∷ c ∷ d ∷ e ∷ f ∷ g ∷ h ∷ rest) = some (of_be a b c d * 2 ^ 32 + of_be e f g h)
read_long _ = none

-- `MESSAGE_SERVER_REGULAR` and `MESSAGE_SERVER_HISTORY`; none is a read of a token or of bytes that are
-- not there, here and below.
unfoldable pub with_author : ℕ → List PascalString → Option (List Event)
with_author type (tstamp ∷ login ∷ text ∷ rest) = do
  time ← read_long tstamp.bytes
  some (
      display (record {
        msg_type = type;
        author = some (p_str_to_c_str login);
        text = p_str_to_c_str text;
        tstamp = time;
      })
      ∷ [])
with_author type _ = none

-- `MESSAGE_SERVER_META`
unfoldable pub without_author : ℕ → List PascalString → Option (List Event)
without_author type (tstamp ∷ text ∷ rest) = do
  time ← read_long tstamp.bytes
  some (
      display (record { msg_type = type; author = none; text = p_str_to_c_str text; tstamp = time })
      ∷ [])
without_author type _ = none

-- `MESSAGE_SERVER_KICK`
unfoldable pub kick_reason : List PascalString → Option (List Event)
kick_reason [] = none
kick_reason (reason ∷ rest) = some (kicked (p_str_to_c_str reason) ∷ [])

-- `MESSAGE_SERVER_STATUS`
unfoldable pub status_code : List PascalString → Option (List Event)
status_code [] = some (status 0 ∷ [])
status_code (code ∷ rest) = do bits ← read_int code.bytes; some (status bits ∷ [])

-- The `switch` of `process_connection`: the events that it sends for a message.
unfoldable pub interpret : Unpacked → Option (List Event)
interpret msg =
    if msg.msg_type == message_regular
    then with_author msg.msg_type msg.tokens
    else if msg.msg_type == message_history
    then with_author msg.msg_type msg.tokens
    else if msg.msg_type == message_meta
    then without_author msg.msg_type msg.tokens
    else if msg.msg_type == message_kick
    then kick_reason msg.tokens
    else if msg.msg_type == message_list
    then some (listed msg ∷ [])
    else if msg.msg_type == message_status
    then status_code msg.tokens
    else some []

-- The events for a message of the buffers; none is the NULL of a corrupted message, which is read, or
-- a read outside.
abbrev pub events_of : Outcome (Option (List Event)) → Option (List Event)
events_of (done found) = found
events_of rejected = none
events_of fault = none
events_of no_fuel = none

-- The end of `process_connection`.
abbrev pub reset : Connection → Connection
reset c = record c { body = none; bytes_expected = msg_header_size; bytes_read = 0; header = [] }

-- From `if (data->conn.bytes_read == data->conn.bytes_expected)` on, for a whole message.
unfoldable pub use_message : ℕ → Connection → Option (Connection × List Event)
use_message fuel c = do
  found ← events_of (map_outcome interpret (unpack_message_2 fuel c.header (contents c.body)))
  some (reset c, found)

abbrev pub message_of : {S : Type 0} → S × Verdict → Option (S × Connection)
message_of (s, waits c) = none
message_of (s, delivers c) = some (s, c)
message_of (s, faults) = none

-- The events of the connection, whose messages are complete after so many polls each.
unfoldable pub events :
    {S : Type 0} → (S → ℕ → S × List ℕ) → ℕ → List ℕ → S → Connection → Option (S × List Event)
events recv fuel [] s c = some (s, [])
events recv fuel (polls ∷ more) s c = do
  got ← message_of (read_message recv polls s c)
  used ← use_message fuel got.1
  rest ← events recv fuel more got.0 used.0
  some (rest.0, used.1 ++ rest.1)
