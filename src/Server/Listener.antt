-- ===== src/Server/Listener.antt =====
-- lab_2/chat/src/server/listener.c and lab_2/chat/src/common/connection.c: the reading of a message
-- from a socket, in the parts in which it arrives. A buffer is the list of the bytes read into it;
-- `header` is empty where the source has NULL or has read nothing. Allocation succeeds, and the
-- counters do not pass `INT_MAX`.
pub mod Bytes
pub mod Reads
use acos_chat.Base.{
  ℕ, zero, suc, ◌+◌, ◌-◌, ◌^◌, Bool, true, false, List, [], ◌++◌, Option, none, some, length, drop,
  ltb, ◌==◌, if◌then◌else◌,
}
use acos_chat.Message.{read_int, msg_header_size}

-- `connection_t`.
pub record Connection : Type 0 where
  pub sockid : ℕ
  pub header : List ℕ
  pub body : Option (List ℕ)
  pub bytes_read : ℕ
  pub bytes_expected : ℕ
  pub in_worker : Bool

unfoldable pub new_connection : ℕ → Connection
new_connection sockid = record {
  sockid = sockid;
  header = [];
  body = none;
  bytes_read = 0;
  bytes_expected = msg_header_size;
  in_worker = false;
}

abbrev pub contents : Option (List ℕ) → List ℕ
contents none = []
contents (some bytes) = bytes

-- How a call of `process_connection` ends: the message is not complete; it is complete and an
-- `input_msg_event_t` is sent; the connection is closed; a header without a length is read.
pub data Verdict : Type 0 where
  waits delivers : Connection → Verdict
  closed faults : Verdict

-- The end of the function.
unfoldable pub finish : {S : Type 0} → S → Connection → S × Verdict
finish s c =
    if c.bytes_read == c.bytes_expected
    then (s, delivers (record c { in_worker = true }))
    else (s, waits c)

-- `if (conn->body == NULL)`
unfoldable pub open_body : ℕ → Option (List ℕ) → Connection → Connection
open_body size none c = record c { body = some []; bytes_expected = c.bytes_expected + size }
open_body size (some bytes) c = c

-- The loop goes on where the message is not complete.
abbrev pub and_on : {S : Type 0} → (S → Connection → S × Verdict) → S × Verdict → S × Verdict
and_on next (s, waits c) = next s c
and_on next (s, delivers c) = (s, delivers c)
and_on next (s, closed) = (s, closed)
and_on next (s, faults) = (s, faults)

-- `recv` gives the socket after the call and the bytes read, none if it returns 0 or -1.
module _ {S : Type 0} (recv : S → ℕ → S × List ℕ) where
  -- The bytes that a call reads into the body.
  unfoldable pub fill_body : S → Connection → S × Verdict
  fill_body s c =
      let got = recv s (c.bytes_expected - c.bytes_read) in
      if length got.1 == 0
      then (got.0, closed)
      else finish got.0 (record c {
        body = some (contents c.body ++ got.1);
        bytes_read = c.bytes_read + length got.1;
      })

  -- From `int body_size` on, on the bits of that number.
  unfoldable pub read_body : S → Connection → Option ℕ → S × Verdict
  read_body s c none = (s, faults)
  read_body s c (some size) =
      if ltb size (2 ^ 31)
      then (if size == 0 then finish s c else fill_body s (open_body size c.body c))
      else (s, closed)

  unfoldable pub after_header : S → Connection → S × Verdict
  after_header s c =
      if ltb c.bytes_read msg_header_size
      then (s, waits c)
      else read_body s c (read_int (drop 1 c.header))

  unfoldable pub process_connection : S → Connection → S × Verdict
  process_connection s c =
      let got = recv s (c.bytes_expected - c.bytes_read) in
      if ltb c.bytes_read msg_header_size
      then (if length got.1 == 0
          then (got.0, closed)
          else after_header got.0
              (record c { header = c.header ++ got.1; bytes_read = c.bytes_read + length got.1 }))
      else after_header s c

  -- The calls for one connection in the loop of `listener_thread`, until a message is complete.
  unfoldable pub read_message : ℕ → S → Connection → S × Verdict
  read_message zero s c = (s, waits c)
  read_message (suc polls) s c = and_on (λ s c. read_message polls s c) (process_connection s c)
