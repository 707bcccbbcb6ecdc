-- ===== src/Tests/Clients.antt =====
-- Runs of the client against the server.
use acos_chat.Base.{
  ℕ, ◌^◌, ap, ◌<◌, ◌≡◌, refl, inl, true, false, List, [], ◌∷◌, map, Option, none, some, length,
  codes, arith, suc, All,
}
use acos_chat.Message.{Token, done, c_str, pack_message, pack_tokens, be32, be64}
use acos_chat.Message.RoundTrip.{received}
use acos_chat.Server.Process.{list_tokens}
use acos_chat.Server.Broadcasts.{SendJob, job_tokens, broadcast}
use acos_chat.Server.{Broadcast}
use acos_chat.TsMap.Laws.{view}
use acos_chat.Tests.Managers.{joined}
use acos_chat.Client.Received.Everyone.{Shows, clients_show_broadcast}
use acos_chat.Client
use acos_chat.Client.{Controller}
use acos_chat.Client.Misc.{ask_for_history}
use acos_chat.Client.Events.{on_listed, on_text, on_hangup, on_status}
use acos_chat.Client.Events.Trace.{
  Input, connects, text, hangup, code, handle_all, handle, to_server, expected, handle_all_lem,
}
use acos_chat.Client.Received.{understood, shown, IsJob, client_shows_job}
use acos_chat.Client.Received.Answers.{user_lines, client_shows_list}
use acos_chat.Tests.Handlers.{api}

abbrev job : SendJob
job = record { sid = 4; tstamp = 3; kind = 114; login = some (codes "u"); text = codes "hi" }

job-IsJob : IsJob job
job-IsJob = inl (refl, codes "u", refl, ((omega arith, tt)), omega arith)

abbrev packed_length : Option (List Token) → ℕ
packed_length none = 0
packed_length (some tokens) = length (pack_tokens tokens)

job_short :
    (tokens : List Token) → job_tokens job ≡ some tokens → length (pack_tokens tokens) < 2 ^ 31
unfolding job_tokens pack_tokens be32 be64
job_short tokens e = omega (arith, ap packed_length e)

client_shows_job_example :
    (tokens : List Token) × (job_tokens job ≡ some tokens)
    × (understood 4 (pack_message (record { msg_type = 114; tokens = tokens }))
        ≡ done (some (shown job ∷ [])))
client_shows_job_example =
    client_shows_job job 4 job-IsJob (omega arith) (omega arith, (omega arith, tt)) (omega arith)
      job_short (omega arith)

abbrev event : Broadcast
event = record { tstamp = 9; kind = 114; login = some (117 ∷ []); text = 104 ∷ []; uid = 7 }

event_short :
    (sid : ℕ) (tokens : List Token)
    → job_tokens
        (record { sid = sid; tstamp = 9; kind = 114; login = some (117 ∷ []); text = 104 ∷ [] })
      ≡ some tokens
    → length (pack_tokens tokens) < 2 ^ 31
unfolding job_tokens pack_tokens be32 be64
event_short sid tokens e = omega (arith, ap packed_length e)

-- The table of the test is the number of its rows.
clients_show_broadcast_example :
    (map
        (λ (job : SendJob). job.sid)
        (broadcast (λ rows uid text tstamp. suc rows) event joined 0).1
      ≡ map (λ e. e.0) (view joined.sid_to_uid))
    × All (Shows 4 event) (broadcast (λ rows uid text tstamp. suc rows) event joined 0).1
clients_show_broadcast_example =
    clients_show_broadcast event 4 (inl (refl, 117 ∷ [], refl, (omega arith, tt), omega arith))
      (omega arith) (omega arith, tt) (omega arith) event_short (omega arith)
      (λ rows uid text tstamp. suc rows) joined 0

client_shows_list_example :
    (tokens : List Token) × (list_tokens api 0 (7 ∷ 8 ∷ []) ≡ some tokens)
    × (on_listed (λ n. n ∷ []) 3 (map received tokens)
        ≡ some (user_lines api (λ n. n ∷ []) 3 0 (7 ∷ 8 ∷ [])))
client_shows_list_example =
    client_shows_list api (λ n. n ∷ []) 3 0 (7 ∷ 8 ∷ [])
      (
        (omega arith, codes "u", refl, (omega arith, tt)),
        ((omega arith, codes "u", refl, (omega arith, tt)), tt),
      )

-- A dialog connects, the server accepts the login, the user enters a line, and the server goes.
abbrev inputs : List Input
inputs =
    connects 5
    ∷ text (codes "early")
    ∷ code 0
    ∷ text (codes "hi")
    ∷ hangup
    ∷ text (codes "late")
    ∷ []

abbrev client : Controller
client = record { sockid = none; logged_in = false }

abbrev handled_client : Controller
handled_client = record { sockid = some 5; logged_in = true }

abbrev effects : List Client.Effect
effects =
    Client.internal 3 (codes "Cannot send message: no connection")
    ∷ ask_for_history
    ∷ Client.sends (record { msg_type = 114; tokens = c_str (codes "hi") ∷ [] })
    ∷ on_hangup 3

inputs_run : handle_all (λ n. n ∷ []) 3 inputs client ≡ some (handled_client, effects)
unfolding handle_all handle on_text on_hangup on_status ask_for_history
inputs_run = refl

handle_all_lem_example : to_server effects ≡ expected false false inputs
handle_all_lem_example =
    handle_all_lem (λ n. n ∷ []) 3 inputs client (handled_client, effects) inputs_run
