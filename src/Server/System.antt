-- ===== src/Server/System.antt =====
-- The listener, the controller and the workers on what they share, in any order: a step is a round of
-- `listener_thread`, the handling of a message by a worker, or the change of a connection by the controller
-- (events/input_msg_event.c) or by a worker (events/process_message_job.c) that is done with its message.
pub mod Keeps
use acos_chat.Base.{ℕ, ◌≡◌, ◌≢◌, Bool, List, [], ◌∷◌, ◌++◌, Option, none, some, ◌>>=◌, All}
use acos_chat.Base.Int.{pos}
use acos_chat.TsMap.Ops
use acos_chat.ConnMgr
use acos_chat.EventLoop.{Event, EventLoop, send_event}
use acos_chat.Server.{Effect, sends_status, sends, broadcasts, closes}
use acos_chat.Server.Database.{Database}
use acos_chat.Server.Listener.{new_connection}
use acos_chat.Server.Process.{Shared, Job, process_message}
use acos_chat.Server.Input.{input_msg_event_deleter, process_message_job_deleter}
use acos_chat.Server.Rounds.{
  Listener, Polled, Output, close_connection_event_type, init_loop, round,
}
use acos_chat.Server.Rounds.Sound.{client, conn_of}
use acos_chat.Server.Rounds.Written.{with_conn}
use acos_chat.Server.Rounds.Events.{IsNew}
use acos_chat.Server.Start.{prepare_conn_mgr}
use acos_chat.Server.Start.Users.{uids_of}

-- `new_close_connection_event`
unfoldable pub new_close_connection_event : ℕ → Event ℕ
new_close_connection_event sockid = record {
  kind = close_connection_event_type;
  deleter = 0;
  payload = sockid;
}

-- The events that a worker sends to the listener's loop.
unfoldable pub send_closes : List Effect → EventLoop ℕ → Option (EventLoop ℕ)
send_closes [] el = some el
send_closes (sends_status sockid code ∷ effects) el = send_closes effects el
send_closes (sends sockid msg ∷ effects) el = send_closes effects el
send_closes (broadcasts evt ∷ effects) el = send_closes effects el
send_closes (closes sockid ∷ effects) el = do
  sent ← send_event el (new_close_connection_event sockid)
  send_closes effects sent

module _ {W D : Type 0} where
  -- The server before its threads run, with the uids of the table of users.
  unfoldable pub start : (List ℕ → ℕ) → List (List (List ℕ)) → D → W → Listener W D
  start atoi rows db world = record {
    listener = record {
      clients = Ops.init;
      shared = record { conn_mgr = prepare_conn_mgr atoi rows ConnMgr.init; db = db };
    };
    conns = λ _. new_connection 0;
    next = 1;
    event_loop = init_loop;
    world = world;
  }

  abbrev pub after_job : Listener W D → Shared D → EventLoop ℕ → Listener W D
  after_job l shared el = record l {
    listener = record { clients = l.listener.clients; shared = shared };
    event_loop = el;
  }

  module _ (api : Database D) (recv : W → ℕ → ℕ → W × List ℕ) where
    -- Broadcasts, statuses and messages leave what is shared here as it is.
    pub data Step (l : Listener W D) : Listener W D → Type 0 where
      polls :
          (now : ℕ) (polled : Polled) (accepted : Option ℕ) (after : Listener W D)
          (outputs : List Output) (on : Bool)
          → IsNew l accepted
          → round api recv now polled accepted l ≡ some (after, outputs, on)
          → Step l after
      works :
          (now : ℕ) (job : Job) (shared : Shared D) (effects : List Effect) (el : EventLoop ℕ)
          → process_message api now job l.listener.shared ≡ some (shared, effects)
          → send_closes effects l.event_loop ≡ some el
          → Step l (after_job l shared el)
      takes :
          (sockid : ℕ)
          → client l sockid ≢ 0
          → Step l (with_conn l sockid (input_msg_event_deleter (conn_of l sockid)))
      frees :
          (sockid : ℕ)
          → client l sockid ≢ 0
          → Step l (with_conn l sockid (process_message_job_deleter (conn_of l sockid)))

    pub data Reach : Listener W D → Type 0 where
      begins :
          (atoi : List ℕ → ℕ) (rows : List (List (List ℕ))) (db : D) (world : W)
          → All (λ u. u ≢ 0) (uids_of atoi rows)
          → Reach (start atoi rows db world)
      later : {l after : Listener W D} → Reach l → Step l after → Reach after
