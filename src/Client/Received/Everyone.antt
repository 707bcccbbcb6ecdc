-- ===== src/Client/Received/Everyone.antt =====
-- What a broadcast of the server is for the clients.
use acos_chat.Base.{
  ℕ, ◌^◌, ◌<◌, ◌≡◌, refl, sym, ap, ◌∙◌, subst, List, [], ◌∷◌, map, some, none, length, ◌==◌,
  if◌then◌else◌, All, ◌⊎◌,
}
use acos_chat.TsMap.Spec.{Entry}
use acos_chat.TsMap.Laws.{view}
use acos_chat.ConnMgr.{ConnMgr}
use acos_chat.Message.{Token, done, pack_message, pack_tokens}
use acos_chat.Server.{Broadcast, message_regular, message_meta}
use acos_chat.Server.Broadcasts.{SendJob, job_tokens, broadcast}
use acos_chat.Server.Broadcasts.Jobs.{broadcast_lem}
use acos_chat.Client.{display}
use acos_chat.Client.Received.{IsText, understood, client_shows_job}

-- A text of a user with a login, or a message of the server.
abbrev pub IsBroadcast : Broadcast → Type 0
IsBroadcast evt =
    ((evt.kind ≡ message_regular)
      × (login : List ℕ) × (evt.login ≡ some login)
      × IsText login
      × (length login < 2 ^ 31))
    ⊎ (evt.kind ≡ message_meta)

-- The client displays what the job sends as the event has it.
abbrev pub Shows : ℕ → Broadcast → SendJob → Type 0
Shows fuel evt job =
    (tokens : List Token) × (job_tokens job ≡ some tokens)
    × (understood fuel (pack_message (record { msg_type = job.kind; tokens = tokens }))
        ≡ done (
            some (
              display (record {
                msg_type = evt.kind;
                author = if evt.kind == message_regular then evt.login else none;
                text = evt.text;
                tstamp = evt.tstamp;
              })
              ∷ [])))

module _ (evt : Broadcast) (fuel : ℕ) (is : IsBroadcast evt) (time : evt.tstamp < 2 ^ 64)
    (text : IsText evt.text) (short : length evt.text < 2 ^ 31)
    (fits : (sid : ℕ) (tokens : List Token)
      → job_tokens (record {
        sid = sid;
        tstamp = evt.tstamp;
        kind = evt.kind;
        login = evt.login;
        text = evt.text;
      })
        ≡ some tokens
      → length (pack_tokens tokens) < 2 ^ 31)
    (enough : 3 < fuel) where
  all-Shows :
      (es : List Entry)
      → All (Shows fuel evt) (
          map
            (λ e. record {
              sid = e.0;
              tstamp = evt.tstamp;
              kind = evt.kind;
              login = evt.login;
              text = evt.text;
            })
            es)
  all-Shows [] = tt
  all-Shows ((k, v) ∷ es) = (
    client_shows_job
        (record {
          sid = k;
          tstamp = evt.tstamp;
          kind = evt.kind;
          login = evt.login;
          text = evt.text;
        })
        fuel is time text short (fits k) enough,
    all-Shows es,
  )

  job_sids :
      (es : List Entry)
      → map
          (λ (job : SendJob). job.sid)
          (map
            (λ e. record {
              sid = e.0;
              tstamp = evt.tstamp;
              kind = evt.kind;
              login = evt.login;
              text = evt.text;
            })
            es)
        ≡ map (λ e. e.0) es
  job_sids [] = refl
  job_sids ((k, v) ∷ es) = ap (λ s. k ∷ s) (job_sids es)

  -- For a broadcast of a text with its login, or of the server, with a time below 2 ^ 64, no zero
  -- byte in its texts, each shorter than 2 ^ 31, tokens that are shorter than 2 ^ 31 bytes, and
  -- fuel above 3: there is one job for each connection of the manager, in their order, and what a
  -- job's message is for a client is one message with the type, the text and the time of the
  -- broadcast, with its login as the author of a regular message and no author else.
  pub clients_show_broadcast :
      {D : Type 0} (insert : D → ℕ → List ℕ → ℕ → D) (c : ConnMgr) (db : D)
      → (map (λ (job : SendJob). job.sid) (broadcast insert evt c db).1
          ≡ map (λ e. e.0) (view c.sid_to_uid))
        × All (Shows fuel evt) (broadcast insert evt c db).1
  clients_show_broadcast insert c db =
      let jobs = broadcast_lem insert evt c db in
      (
        ap (map (λ (job : SendJob). job.sid)) jobs ∙ job_sids (view c.sid_to_uid),
        subst (All (Shows fuel evt)) (sym jobs) (all-Shows (view c.sid_to_uid)),
      )
