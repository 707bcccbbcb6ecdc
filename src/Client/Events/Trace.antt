-- ===== src/Client/Events/Trace.antt =====
-- The controller of the client over all that happens to it: when it sends to the server.
use acos_chat.Base.{
  ℕ, zero, suc, ◌≡◌, refl, sym, ap, ◌∙◌, subst, List, [], ◌∷◌, ◌++◌, Bool, true, false, Option,
  none, some, ◌>>=◌, ◌==◌, if◌then◌else◌, arith,
}
use acos_chat.Message.{PascalString, Message, read_int, int32, c_str}
use acos_chat.Server.{message_history, message_regular}
use acos_chat.Client.{Controller, Effect, displays, sends, asks, exits}
use acos_chat.Server.Process.{p_str_to_c_str}
use acos_chat.Client.Misc.{ask_for_history}
use acos_chat.Client.Events.{
  on_text, on_hangup, on_kicked, on_listed, on_status, login_callback_failure, user_line,
}

-- What the loop of the controller takes from its queue, and what the other threads do to the controller: a
-- dialog connects (get_server_addr_callback_success), or a dialog or `main` sends the urgent `EXIT_EVT`.
pub data Input : Type 0 where
  connects : ℕ → Input
  leaves : Input
  text : List ℕ → Input
  hangup : Input
  kick : List ℕ → Input
  list : List PascalString → Input
  code : ℕ → Input

-- An `EXIT_EVT` among the effects.
abbrev pub has_exit : List Effect → Bool
has_exit [] = false
has_exit (exits ∷ effects) = true
has_exit (sends m ∷ effects) = has_exit effects
has_exit (displays m ∷ effects) = has_exit effects
has_exit (asks prompt hidden ∷ effects) = has_exit effects

module _ (decimal : ℕ → List ℕ) (now : ℕ) where
  -- One event, by the handler of its type.
  unfoldable pub handle : Input → Controller → Option (Controller × List Effect)
  handle (connects sockid) client = some (record client { sockid = some sockid }, [])
  handle leaves client = some (client, exits ∷ [])
  handle (text line) client = some (client, on_text now line client)
  handle hangup client = some (client, on_hangup now)
  handle (kick reason) client = some (client, on_kicked now reason)
  handle (list tokens) client = on_listed decimal now tokens >>= (λ effects. some (client, effects))
  handle (code bits) client = some (on_status decimal now bits client)

  -- The events in order, up to an urgent `EXIT_EVT`, which the loop takes next; none where a handler reads what
  -- is not there.
  unfoldable pub handle_all : List Input → Controller → Option (Controller × List Effect)
  handle_all [] client = some (client, [])
  handle_all (input ∷ inputs) client = do
    first ← handle input client
    rest ← elim (has_exit first.1) [ true ↦ some (first.0, []) | false ↦ handle_all inputs first.0 ]
    some (rest.0, first.1 ++ rest.1)

-- The messages that go to the server.
abbrev pub to_server : List Effect → List Message
to_server [] = []
to_server (sends m ∷ effects) = m ∷ to_server effects
to_server (displays m ∷ effects) = to_server effects
to_server (asks prompt hidden ∷ effects) = to_server effects
to_server (exits ∷ effects) = to_server effects

abbrev pub history_request : Message
history_request = record { msg_type = message_history; tokens = int32 50 ∷ [] }

abbrev pub regular : List ℕ → Message
regular line = record { msg_type = message_regular; tokens = c_str line ∷ [] }

-- What should go there: nothing up to the status 0, then a request for the history, and from then on
-- the texts that the user enters, as long as nothing ends the client.
abbrev pub expected : Bool → Bool → List Input → List Message
expected connected logged [] = []
expected connected logged (hangup ∷ inputs) = []
expected connected logged (kick reason ∷ inputs) = []
expected connected logged (leaves ∷ inputs) = []
expected connected logged (connects sockid ∷ inputs) = expected true logged inputs
expected connected logged (list tokens ∷ inputs) = expected connected logged inputs
expected connected true (code bits ∷ inputs) = expected connected true inputs
expected connected false (code zero ∷ inputs) = history_request ∷ expected connected true inputs
expected connected false (code (suc n) ∷ inputs) = []
expected true true (text line ∷ inputs) = regular line ∷ expected true true inputs
expected false true (text line ∷ inputs) = expected false true inputs
expected connected false (text line ∷ inputs) = expected connected false inputs

to_server-append : (xs ys : List Effect) → to_server (xs ++ ys) ≡ to_server xs ++ to_server ys
to_server-append [] ys = refl
to_server-append (sends m ∷ xs) ys = ap (λ t. m ∷ t) (to_server-append xs ys)
to_server-append (displays m ∷ xs) ys = to_server-append xs ys
to_server-append (asks prompt hidden ∷ xs) ys = to_server-append xs ys
to_server-append (exits ∷ xs) ys = to_server-append xs ys

-- The effects send these messages, if no handler reads what is not there.
abbrev Says : {A : Type 0} → List Message → Option (A × List Effect) → Type 0
Says messages none = Unit
Says messages (some r) = to_server r.1 ≡ messages

module _ {A B : Type 0} where
  after_Says :
      (first : B × List Effect) (messages : List Message) (rest : Option (A × List Effect))
      → Says messages rest
      → Says (to_server first.1 ++ messages) (rest >>= (λ rest. some (rest.0, first.1 ++ rest.1)))
  after_Says first messages none h = tt
  after_Says first messages (some r) h =
      to_server-append first.1 r.1 ∙ ap (λ t. to_server first.1 ++ t) h

-- Effects without a message and without an end.
abbrev Silent : Option (List Effect) → Type 0
Silent none = Unit
Silent (some effects) = (to_server effects ≡ []) × (has_exit effects ≡ false)

abbrev pub connected : Option ℕ → Bool
connected none = false
connected (some sockid) = true

module _ (decimal : ℕ → List ℕ) (now : ℕ) where
  line-Silent :
      (user : List ℕ) (id : ℕ) (lines : Option (List Effect))
      → Silent lines
      → Silent (lines >>= (λ lines. some (user_line decimal now user id ∷ lines)))
  line-Silent user id none h = tt
  line-Silent user id (some lines) h = h

  read-Silent :
      (read : Option ℕ) (goes : ℕ → Option (List Effect))
      → ((id : ℕ) → Silent (goes id))
      → Silent (read >>= goes)
  read-Silent none goes h = tt
  read-Silent (some id) goes h = h id

  -- A list leads to no message.
  on_listed-Silent : (tokens : List PascalString) → Silent (on_listed decimal now tokens)
  unfolding on_listed
  on_listed-Silent [] = (refl, refl)
  on_listed-Silent (token ∷ []) = tt
  on_listed-Silent (token ∷ user ∷ tokens) =
      read-Silent (read_int token.bytes)
        (λ id.
          on_listed decimal now tokens
          >>= (λ lines. some (user_line decimal now (p_str_to_c_str user) id ∷ lines)))
        (λ id.
          line-Silent (p_str_to_c_str user) id (on_listed decimal now tokens)
            (on_listed-Silent tokens))

  abbrev and_client : Controller → List Effect → Option (Controller × List Effect)
  and_client client effects = some (client, effects)

  -- The rest of the events, unless the first one ends the loop.
  abbrev goes_on :
      (inputs : List Input) → Controller × List Effect → Option (Controller × List Effect)
  goes_on inputs first = elim (has_exit first.1) [
    | true ↦ some (first.0, [])
    | false ↦ handle_all decimal now inputs first.0
  ]

  Silent-Says :
      (client : Controller) (effects : Option (List Effect)) (messages : List Message)
      (inputs : List Input)
      → Silent effects
      → Says messages (handle_all decimal now inputs client)
      → Says messages (
          (effects >>= and_client client)
          >>= (λ first. goes_on inputs first >>= (λ rest. some (rest.0, first.1 ++ rest.1))))
  Silent-Says client none messages inputs h r = tt
  Silent-Says client (some effects) messages inputs h r =
      subst
        (λ b. Says messages (
          (elim b as (λ b. Option (Controller × List Effect)) [
            | true ↦ some (client, [])
            | false ↦ handle_all decimal now inputs client
          ])
          >>= (λ rest. some (rest.0, effects ++ rest.1))))
        (sym h.1)
        (subst
          (λ ms.
            Says ms
              (handle_all decimal now inputs client >>= (λ rest. some (rest.0, effects ++ rest.1))))
          (ap (λ t. t ++ messages) h.0)
          (after_Says (client, effects) messages (handle_all decimal now inputs client) r))

  on_status-refused :
      (n : ℕ) (sockid : Option ℕ)
      → on_status decimal now (suc n) (record { sockid = sockid; logged_in = false })
        ≡ (record { sockid = sockid; logged_in = false }, login_callback_failure now)
  unfolding on_status
  on_status-refused n sockid =
      let other : (suc n == 0) ≡ false = ground arith in
      ap
        (λ b.
          if b
          then (record { sockid = sockid; logged_in = true }, ask_for_history ∷ [])
          else (record { sockid = sockid; logged_in = false }, login_callback_failure now))
        other

  handle_all-Says :
      (inputs : List Input) (sockid : Option ℕ) (logged : Bool)
      → Says
          (expected (connected sockid) logged inputs)
          (handle_all decimal now inputs (record { sockid = sockid; logged_in = logged }))
  unfolding handle_all handle on_text on_hangup on_kicked on_status login_callback_failure
      ask_for_history
  handle_all-Says [] sockid logged = refl
  handle_all-Says (hangup ∷ inputs) sockid logged = refl
  handle_all-Says (kick reason ∷ inputs) sockid logged = refl
  handle_all-Says (leaves ∷ inputs) sockid logged = refl
  handle_all-Says (connects s ∷ inputs) sockid logged =
      after_Says {B = Controller} (record { sockid = some s; logged_in = logged }, [])
        (expected true logged inputs) _ (handle_all-Says inputs (some s) logged)
  handle_all-Says (list tokens ∷ inputs) sockid logged =
      Silent-Says (record { sockid = sockid; logged_in = logged }) (on_listed decimal now tokens)
        (expected (connected sockid) logged inputs) inputs (on_listed-Silent tokens)
        (handle_all-Says inputs sockid logged)
  handle_all-Says (code bits ∷ inputs) sockid true =
      after_Says (on_status decimal now bits (record { sockid = sockid; logged_in = true }))
        (expected (connected sockid) true inputs) _ (handle_all-Says inputs sockid true)
  handle_all-Says (code zero ∷ inputs) sockid false =
      after_Says (on_status decimal now 0 (record { sockid = sockid; logged_in = false }))
        (expected (connected sockid) true inputs) _ (handle_all-Says inputs sockid true)
  handle_all-Says (code (suc n) ∷ inputs) sockid false =
      subst
        (λ (first : Controller × List Effect).
          Says [] (goes_on inputs first >>= (λ rest. some (rest.0, first.1 ++ rest.1))))
        (sym (on_status-refused n sockid)) refl
  handle_all-Says (text line ∷ inputs) (some sockid) true =
      after_Says {B = Controller}
        (
          record { sockid = some sockid; logged_in = true },
          on_text now line (record { sockid = some sockid; logged_in = true }),
        )
        (expected true true inputs) _ (handle_all-Says inputs (some sockid) true)
  handle_all-Says (text line ∷ inputs) (some sockid) false =
      after_Says {B = Controller}
        (
          record { sockid = some sockid; logged_in = false },
          on_text now line (record { sockid = some sockid; logged_in = false }),
        )
        (expected true false inputs) _ (handle_all-Says inputs (some sockid) false)
  handle_all-Says (text line ∷ inputs) none true =
      after_Says {B = Controller}
        (
          record { sockid = none; logged_in = true },
          on_text now line (record { sockid = none; logged_in = true }),
        )
        (expected false true inputs) _ (handle_all-Says inputs none true)
  handle_all-Says (text line ∷ inputs) none false =
      after_Says {B = Controller}
        (
          record { sockid = none; logged_in = false },
          on_text now line (record { sockid = none; logged_in = false }),
        )
        (expected false false inputs) _ (handle_all-Says inputs none false)

  -- From any state of the controller and for all that its loop takes and other threads do to it,
  -- up to the urgent `EXIT_EVT` that a hang-up, a kick, a refused login, a dialog or `main` sends:
  -- if no handler reads what is not there, the messages that it sends to the server are, where it
  -- is not logged in, none before the first status 0; then one request for the history; and from
  -- then on the texts that the user enters while there is a socket, in order. What comes after the
  -- `EXIT_EVT` is left.
  pub handle_all_lem :
      (inputs : List Input) (client : Controller) (r : Controller × List Effect)
      → handle_all decimal now inputs client ≡ some r
      → to_server r.1 ≡ expected (connected client.sockid) client.logged_in inputs
  handle_all_lem inputs client r e =
      subst (Says (expected (connected client.sockid) client.logged_in inputs)) e
        (handle_all-Says inputs client.sockid client.logged_in)
