-- ===== src/Tests/Connections.antt =====
-- Runs of the listener's functions and of a broadcast.
use acos_chat.Base.{
  ℕ, zero, suc, ◌<◌, ◌≤◌, ◌≡◌, ◌≢◌, refl, false, List, [], ◌∷◌, map, none, some, length, take, drop,
  if◌then◌else◌, ◌==◌, ◌+◌, All, arith,
}
use acos_chat.TsMap.Spec.{get, erase}
use acos_chat.TsMap.Ops.{TsMap}
use acos_chat.TsMap.Ops
use acos_chat.TsMap.Laws.{view}
use acos_chat.ConnMgr.Inv.{
  Inv, IsLive, known, owner, init-IsLive, insert-IsLive, get-insert, has-init,
}
use acos_chat.ConnMgr.Sessions.{keys_of}
use acos_chat.Server.{Effect}
use acos_chat.Server.Listener.{new_connection}
use acos_chat.Message.{Message, int32, int64, c_str, pack_tokens, be32, be64}
use acos_chat.Server.Input.{jobs}
use acos_chat.Server.Input.Stream.{IsSendable, sent, body_size, job_for, jobs_lem}
use acos_chat.Server.Process.{p_str_to_c_str}
use acos_chat.Client.{Event, display, status}
use acos_chat.Client.Listener.{interpret, status_code, without_author}
use acos_chat.Client.Listener.Stream.{Means}
use acos_chat.Server.Close.{ListenerData, close_connection, logged_out}
use acos_chat.Server.Close.Effects.{close_connection_lem}
use acos_chat.Tests.Managers.{joined, joined-Inv}
use acos_chat.Tests.Handlers.{api, shared}

-- A socket that gives one byte at a call.
abbrev pub one_byte : List ℕ → ℕ → List ℕ × List ℕ
one_byte [] n = ([], [])
one_byte (x ∷ xs) zero = (x ∷ xs, [])
one_byte (x ∷ xs) (suc n) = (xs, x ∷ [])

abbrev pub unread : List ℕ → List ℕ
unread s = s

pub in_order :
    (s : List ℕ) (n : ℕ)
    → ((one_byte s n).1 ≡ take (length (one_byte s n).1) (unread s))
      × (unread (one_byte s n).0 ≡ drop (length (one_byte s n).1) (unread s))
in_order [] n = (refl, refl)
in_order (x ∷ xs) zero = (refl, refl)
in_order (x ∷ xs) (suc n) = (refl, refl)

pub at_most : (s : List ℕ) (n : ℕ) → length (one_byte s n).1 ≤ n
at_most [] n = omega arith
at_most (x ∷ xs) zero = omega arith
at_most (x ∷ xs) (suc n) = omega arith

pub arrives : (s : List ℕ) (n : ℕ) → 0 < n → 0 < length (unread s) → 0 < length (one_byte s n).1
arrives [] n p q = q
arrives (x ∷ xs) zero p q = p
arrives (x ∷ xs) (suc n) p q = omega arith

-- A regular message and a logout.
abbrev messages : List Message
messages =
    record { msg_type = 114; tokens = c_str (104 ∷ 105 ∷ []) ∷ [] }
    ∷ record { msg_type = 111; tokens = [] }
    ∷ []

messages-IsSendable : All (IsSendable 2) messages
unfolding pack_tokens be32
messages-IsSendable = (
  record { tokens = (omega arith, tt); fits = omega arith; enough = omega arith },
  (record { tokens = tt; fits = omega arith; enough = omega arith }, tt),
)

jobs_lem_example :
    (s : List ℕ) × (jobs one_byte 2
        (map (λ m. 5 + body_size m) messages)
        (sent messages (9 ∷ []))
        (new_connection 4)
      ≡ some (s, map (job_for 4) messages))
    × (unread s ≡ 9 ∷ [])
jobs_lem_example =
    jobs_lem one_byte unread in_order at_most arrives 2 4 messages (9 ∷ []) (sent messages (9 ∷ []))
      messages-IsSendable refl

-- A status, and a message of the server at the time 3.
abbrev pub answers : List Message
answers =
    record { msg_type = 115; tokens = int32 0 ∷ [] }
    ∷ record { msg_type = 109; tokens = int64 3 ∷ c_str (104 ∷ 105 ∷ []) ∷ [] }
    ∷ []

abbrev pub meaning : Message → List Event
meaning m =
    if m.msg_type == 115
    then status 0 ∷ []
    else display (record { msg_type = 109; author = none; text = 104 ∷ 105 ∷ []; tstamp = 3 }) ∷ []

pub answers-Means : All (Means 3 meaning) answers
unfolding pack_tokens be32 be64 interpret status_code without_author p_str_to_c_str
answers-Means = (
  (record { tokens = (omega arith, tt); fits = omega arith; enough = omega arith }, refl),
  (
    (
      record {
        tokens = (omega arith, (omega arith, tt));
        fits = omega arith;
        enough = omega arith;
      },
      refl,
    ),
    tt,
  ),
)

abbrev clients : TsMap
clients = (Ops.insert Ops.init 4 100).0

clients-IsLive : IsLive clients
clients-IsLive = insert-IsLive Ops.init init-IsLive 4 100

client_known : get 4 (view clients) ≢ 0
client_known = ground (arith, get-insert Ops.init init-IsLive 4 4 100, has-init 4)

abbrev listener : ListenerData ℕ
listener = record { clients = clients; shared = shared }

close_connection_lem_example :
    (after : ListenerData ℕ) × (effects : List Effect) × (close_connection api 3 4 listener
      ≡ some (after, effects))
    × Inv after.shared.conn_mgr
    × ((q : ℕ)
        → (known after.shared.conn_mgr q ≡ (if 4 == q then false else known joined q))
          × (owner after.shared.conn_mgr q ≡ (if 4 == q then 0 else owner joined q)))
    × (view after.clients ≡ erase 4 (view clients))
    × (effects ≡ (
        if owner joined 4 == 0
        then []
        else (if length (keys_of (owner joined 4) (view joined.sid_to_uid)) == 1
            then logged_out api 3 (owner joined 4) 0 ∷ []
            else [])))
close_connection_lem_example =
    close_connection_lem api 3 4 listener joined-Inv clients-IsLive client_known
