-- ===== src/Server/Input.antt =====
-- lab_2/chat/src/server/events/input_msg_event.c, and the deleter of process_message_job.c: a message that
-- the listener has read goes to the workers, and its connection is read again.
pub mod Socket
pub mod Stream
use acos_chat.Base.{ℕ, zero, suc, List, [], ◌∷◌, Option, none, some, ◌>>=◌, false}
use acos_chat.Message.{
  Outcome, done, rejected, fault, no_fuel, Unpacked, unpack_message_2, msg_header_size,
}
use acos_chat.Server.{Effect, sends_status, status_invalid_msg}
use acos_chat.Server.Process.{Job}
use acos_chat.Server.Listener.{
  Connection, Verdict, waits, delivers, closed, faults, contents, read_message,
}

-- What the handler does with the message of a connection: a job for the workers, a status for the client,
-- or an access outside of the body.
pub data Handed : Type 0 where
  queued : Connection → Job → Handed
  answered : Connection → Effect → Handed
  faulted : Handed

unfoldable pub hand_on : Connection → Outcome Unpacked → Handed
hand_on conn (done msg) = queued conn (record { sockid = conn.sockid; msg = msg })
hand_on conn rejected =
    answered (record conn { in_worker = false }) (sends_status conn.sockid status_invalid_msg)
hand_on conn fault = faulted
hand_on conn no_fuel = faulted

unfoldable pub input_msg_event_handler : ℕ → Connection → Handed
input_msg_event_handler fuel conn =
    hand_on conn (unpack_message_2 fuel conn.header (contents conn.body))

unfoldable pub input_msg_event_deleter : Connection → Connection
input_msg_event_deleter conn = record conn {
  bytes_read = 0;
  bytes_expected = msg_header_size;
  header = [];
  body = none;
}

unfoldable pub process_message_job_deleter : Connection → Connection
process_message_job_deleter conn = record conn { in_worker = false }

-- The connection and the job after the handler and the two deleters, where there is a job.
abbrev pub job_of : Handed → Option (Connection × Job)
job_of (queued conn job) = some (process_message_job_deleter (input_msg_event_deleter conn), job)
job_of (answered conn effect) = none
job_of faulted = none

abbrev pub message_of : {S : Type 0} → S × Verdict → Option (S × Connection)
message_of (s, waits c) = none
message_of (s, delivers c) = some (s, c)
message_of (s, closed) = none
message_of (s, faults) = none

-- The jobs of a connection, whose messages are complete after so many polls each.
unfoldable pub jobs :
    {S : Type 0} → (S → ℕ → S × List ℕ) → ℕ → List ℕ → S → Connection → Option (S × List Job)
jobs recv fuel [] s c = some (s, [])
jobs recv fuel (polls ∷ more) s c = do
  got ← message_of (read_message recv polls s c)
  handed ← job_of (input_msg_event_handler fuel got.1)
  rest ← jobs recv fuel more got.0 handed.0
  some (rest.0, handed.1 ∷ rest.1)
