-- ===== src/Client/Received.antt =====
-- The two programs together: what one of them packs and the other unpacks.
pub mod Answers
pub mod Requests
pub mod Everyone
use acos_chat.Base.{
  ℕ, zero, suc, ◌+◌, ◌*◌, ◌/◌, ◌%◌, ◌^◌, ◌<◌, ◌≡◌, ◌≢◌, refl, sym, ap, ap₂, ◌∙◌, List, [], ◌∷◌,
  ◌++◌, map, Option, none, some, ◌>>=◌, length, take, ◌==◌, if◌then◌else◌, All, ◌⊎◌, inl, inr,
  codes, c_string, arith,
}
use acos_chat.Message.{
  PascalString, Token, c_str, p_str, int32, int64, Message, Unpacked, Outcome, done, map_outcome,
  be32, be64, u32, pack_message, pack_tokens, read_int, unpack_message_1, status_buffer,
}
use acos_chat.Message.Bytes.{take_all, read_int-be32, of_be-be32}
use acos_chat.Message.RoundTrip.{IsToken, received, unpack_message_1-pack_message}
use acos_chat.Message.Status.{status_buffer_lem}
use acos_chat.Server.{
  message_regular, message_history, message_meta, message_kick, message_list, message_status,
  message_login,
}
use acos_chat.Server.Database.{Database}
use acos_chat.Server.Process.{
  p_str_to_c_str, Job, Shared, on_login, logged_in, process_message, list_tokens,
}
use acos_chat.Server.Broadcasts.{SendJob, job_tokens}
use acos_chat.Client.{Event, display, kicked, listed, status, Effect, sends}
use acos_chat.Client.Listener.{
  read_long, with_author, without_author, kick_reason, status_code, interpret,
}
use acos_chat.Client.Events.{on_listed, user_line}

-- A C string: no byte is 0.
abbrev pub IsText : List ℕ → Type 0
IsText s = All (λ b. b ≢ 0) s

pub c_string_all : (s : List ℕ) → IsText s → c_string s ≡ s
c_string_all [] h = refl
c_string_all (zero ∷ s) h = absurd (h.0 refl)
c_string_all (suc b ∷ s) h = ap (λ t. suc b ∷ t) (c_string_all s h.1)

-- A text arrives as it is.
pub p_str_to_c_str-received : (s : List ℕ) → IsText s → p_str_to_c_str (received (c_str s)) ≡ s
unfolding p_str_to_c_str
p_str_to_c_str-received s h = ap c_string (take_all s) ∙ c_string_all s h

pub read_long-be64 : (n : ℕ) → n < 2 ^ 64 → read_long (be64 n) ≡ some n
unfolding be64 be32
read_long-be64 n h = ap some (
    ap₂ (λ a b. a * 2 ^ 32 + b) (of_be-be32 (n / u32) (omega arith))
      (of_be-be32 (n % u32) (omega arith))
    ∙ omega arith)

-- What the client makes of the bytes of a message.
abbrev pub understood : ℕ → List ℕ → Outcome (Option (List Event))
understood fuel bytes = map_outcome interpret (unpack_message_1 fuel bytes)

-- Whatever fits the format arrives.
pub understood-pack_message :
    (m : Message) (fuel : ℕ)
    → All IsToken m.tokens
    → length (pack_tokens m.tokens) < 2 ^ 31
    → length m.tokens < fuel
    → understood fuel (pack_message m)
      ≡ done (interpret (record { msg_type = m.msg_type; tokens = map received m.tokens }))
understood-pack_message m fuel h small f =
    ap (map_outcome interpret) (unpack_message_1-pack_message m fuel h small f)

pub with_author-received :
    (type time : ℕ) (login text : List ℕ)
    → time < 2 ^ 64
    → IsText login
    → IsText text
    → with_author type (map received (int64 time ∷ c_str login ∷ c_str text ∷ []))
      ≡ some (
          display (record { msg_type = type; author = some login; text = text; tstamp = time })
          ∷ [])
unfolding with_author
with_author-received type time login text t l x = rw (
  with_author,
  read_long-be64 time t,
  p_str_to_c_str-received login l,
  p_str_to_c_str-received text x,
)

without_author-received :
    (type time : ℕ) (text : List ℕ)
    → time < 2 ^ 64
    → IsText text
    → without_author type (map received (int64 time ∷ c_str text ∷ []))
      ≡ some (display (record { msg_type = type; author = none; text = text; tstamp = time }) ∷ [])
unfolding without_author
without_author-received type time text t x =
    rw (without_author, read_long-be64 time t, p_str_to_c_str-received text x)

-- The jobs for a regular message, which have a login, and for a message of the server.
abbrev pub IsJob : SendJob → Type 0
IsJob job =
    ((job.kind ≡ message_regular)
      × (login : List ℕ) × (job.login ≡ some login)
      × IsText login
      × (length login < 2 ^ 31))
    ⊎ (job.kind ≡ message_meta)

-- The author that the client shows.
abbrev pub shown_author : SendJob → Option (List ℕ)
shown_author job = if job.kind == message_regular then job.login else none

abbrev pub shown : SendJob → Event
shown job = display (record {
  msg_type = job.kind;
  author = shown_author job;
  text = job.text;
  tstamp = job.tstamp;
})

-- For a job for a regular message with a login or for a message of the server, with a time below 2
-- ^ 64, no zero byte in its texts, each shorter than 2 ^ 31, tokens that are shorter than 2 ^ 31
-- bytes, and fuel above 3: the worker sends a message, and the client displays it as one message
-- of this kind, text and time, with the login as the author of a regular message and no author
-- else.
pub client_shows_job :
    (job : SendJob) (fuel : ℕ)
    → IsJob job
    → job.tstamp < 2 ^ 64
    → IsText job.text
    → length job.text < 2 ^ 31
    → ((tokens : List Token) → job_tokens job ≡ some tokens → length (pack_tokens tokens) < 2 ^ 31)
    → 3 < fuel
    → (tokens : List Token) × (job_tokens job ≡ some tokens)
      × (understood fuel (pack_message (record { msg_type = job.kind; tokens = tokens }))
          ≡ done (some (shown job ∷ [])))
unfolding job_tokens interpret
client_shows_job job fuel (inl (kind, login, named, l, sl)) time x sx small f =
    let tokens : List Token = int64 job.tstamp ∷ c_str login ∷ c_str job.text ∷ [] in
    let packed : job_tokens job ≡ some tokens = rw (job_tokens, kind, named) refl in
    (
      tokens,
      packed,
      understood-pack_message (record { msg_type = job.kind; tokens = tokens }) fuel
            (time, (sl, (sx, tt))) (small tokens packed) f
          ∙ ap done (
              rw (interpret, kind, named)
                (with_author-received message_regular job.tstamp login job.text time l x)),
    )
client_shows_job job fuel (inr kind) time x sx small f =
    let tokens : List Token = int64 job.tstamp ∷ c_str job.text ∷ [] in
    let packed : job_tokens job ≡ some tokens = rw (job_tokens, kind) refl in
    (
      tokens,
      packed,
      understood-pack_message (record { msg_type = job.kind; tokens = tokens }) fuel
            (time, (sx, tt)) (small tokens packed) (omega arith)
          ∙ ap done (
              rw (interpret, kind)
                (without_author-received message_meta job.tstamp job.text time x)),
    )
