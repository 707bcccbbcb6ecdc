-- ===== src/Server/Broadcasts.antt =====
-- lab_2/chat/src/server/events/broadcast_message_event.c and send_message_job.c: a broadcast becomes
-- one job for each connection, and a job sends one message.
pub mod Jobs
use acos_chat.Base.{
  ℕ, Bool, true, false, List, [], ◌∷◌, ◌++◌, Option, none, some, if◌then◌else◌, ◌==◌,
}
use acos_chat.TsMap.Ops
use acos_chat.ConnMgr.{ConnMgr}
use acos_chat.Message.{Message, Token, c_str, int64}
use acos_chat.Server.{Broadcast, message_regular}

-- `send_message_job_t`.
pub record SendJob : Type 0 where
  pub sid : ℕ
  pub tstamp : ℕ
  pub kind : ℕ
  pub login : Option (List ℕ)
  pub text : List ℕ

unfoldable pub new_send_message_job : ℕ → Broadcast → SendJob
new_send_message_job sid evt = record {
  sid = sid;
  tstamp = evt.tstamp;
  kind = evt.kind;
  login = evt.login;
  text = evt.text;
}

-- `broadcast_message_callback`, on the jobs sent so far.
unfoldable pub broadcast_message_callback : Broadcast → ℕ → ℕ → List SendJob → List SendJob
broadcast_message_callback evt key val jobs = jobs ++ new_send_message_job key evt ∷ []

-- `broadcast_message_event_handler`: the data base after the row of a regular message, which
-- `insert` stands for, and the jobs for the workers.
unfoldable pub broadcast :
    {D : Type 0} → (D → ℕ → List ℕ → ℕ → D) → Broadcast → ConnMgr → D → D × List SendJob
broadcast insert evt c db = (
  if evt.kind == message_regular then insert db evt.uid evt.text evt.tstamp else db,
  Ops.forall_entries c.sid_to_uid (broadcast_message_callback evt) [],
)

-- The message that `send_message_job_handler` sends; a NULL login reaches `strlen`.
unfoldable pub job_tokens : SendJob → Option (List Token)
job_tokens job =
    if job.kind == message_regular
    then elim job.login [
      | none ↦ none
      | some login ↦ some (int64 job.tstamp ∷ c_str login ∷ c_str job.text ∷ [])
    ]
    else some (int64 job.tstamp ∷ c_str job.text ∷ [])
