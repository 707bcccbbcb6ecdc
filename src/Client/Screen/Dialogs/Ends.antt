-- ===== src/Client/Screen/Dialogs/Ends.antt =====
-- How the dialogs up to the login end.
use acos_chat.Base.{
  ℕ, zero, suc, ◌+◌, ◌<◌, ◌≤◌, ◌≡◌, refl, ◌∙◌, inl, inr, List, [], ◌∷◌, ◌++◌, Option, none, some,
  Bool-cases, ◌||◌, if◌then◌else◌, arith,
}
use acos_chat.Client.{Controller, Effect, displays, sends, asks, exits}
use acos_chat.Client.Events.{login_callback_failure}
use acos_chat.Client.Control.{
  connected, get_server_addr_callback_success, get_server_addr_callback_failure,
  get_username_callback_success, login_callback_success,
}
use acos_chat.Client.Screen.{
  Key, is_close_app, Form, Dialog, address, username, password, kick_uid, kick_reason,
}
use acos_chat.Client.Screen.Dialogs.{
  is_enter, Env, Answer, dialog_key, text_of, read_keys, readinput, after_address, answered,
  Session, dialogs,
}

-- The messages to the server, and the ends of the client, among the effects.
abbrev pub messages : List Effect → ℕ
messages [] = 0
messages (displays msg ∷ es) = messages es
messages (sends m ∷ es) = 1 + messages es
messages (asks prompt hidden ∷ es) = messages es
messages (exits ∷ es) = messages es

abbrev pub ends : List Effect → ℕ
ends [] = 0
ends (displays msg ∷ es) = ends es
ends (sends m ∷ es) = ends es
ends (asks prompt hidden ∷ es) = ends es
ends (exits ∷ es) = 1 + ends es

abbrev total : List Effect → ℕ
total es = messages es + ends es

total-append : (es fs : List Effect) → total (es ++ fs) ≡ total es + total fs
total-append [] fs = omega arith
total-append (displays msg ∷ es) fs = omega (arith, total-append es fs)
total-append (sends m ∷ es) fs = omega (arith, total-append es fs)
total-append (asks prompt hidden ∷ es) fs = omega (arith, total-append es fs)
total-append (exits ∷ es) fs = omega (arith, total-append es fs)

-- The dialogs of the login.
abbrev IsLogin : Option Dialog → Type 0
IsLogin none = Unit
IsLogin (some address) = Unit
IsLogin (some username) = Unit
IsLogin (some (password login)) = Unit
IsLogin (some kick_uid) = ⊥
IsLogin (some (kick_reason uid)) = ⊥

-- One more is to come where a dialog follows.
abbrev pending : Option Dialog → ℕ
pending none = 0
pending (some d) = 1

-- The dialogs from this one on, at most.
abbrev left_of : Option Dialog → ℕ
left_of none = 0
left_of (some address) = 3
left_of (some username) = 2
left_of (some (password login)) = 1
left_of (some kick_uid) = 2
left_of (some (kick_reason uid)) = 1

-- The keys that end a dialog, Enter and F10.
abbrev pub endings : List Key → ℕ
endings [] = 0
endings (key ∷ keys) = (if is_enter key || is_close_app key then 1 else 0) + endings keys

after_connect :
    (now : ℕ) (client : Controller) (o : Option ℕ)
    → (total (connected now client o).1 + pending (after_address o) ≡ 1)
      × IsLogin (after_address o)
      × (left_of (after_address o) < 3)
unfolding connected get_server_addr_callback_failure
after_connect now client none = (refl, tt, omega arith)
after_connect now client (some sockid) = (refl, tt, omega arith)

answered_once :
    (env : Env) (now : ℕ) (d : Dialog) (answer : Answer) (client : Controller)
    → IsLogin (some d)
    → (total (answered env now d answer client).1 + pending (answered env now d answer client).2
        ≡ 1)
      × IsLogin (answered env now d answer client).2
      × (left_of (answered env now d answer client).2 < left_of (some d))
unfolding answered get_server_addr_callback_success get_server_addr_callback_failure
    get_username_callback_success login_callback_success login_callback_failure
answered_once env now address (some str) client h = after_connect now client _
answered_once env now address none client h = (refl, tt, omega arith)
answered_once env now username (some str) client h = (refl, tt, omega arith)
answered_once env now username none client h = (refl, tt, omega arith)
answered_once env now (password login) (some passwd) client h = (refl, tt, omega arith)
answered_once env now (password login) none client h = (refl, tt, omega arith)
answered_once env now kick_uid answer client h = absurd h
answered_once env now (kick_reason uid) answer client h = absurd h

no_fuel : (d : Dialog) → left_of (some d) ≤ 0 → ⊥
no_fuel address f = omega arith
no_fuel username f = omega arith
no_fuel (password login) f = omega arith
no_fuel kick_uid f = omega arith
no_fuel (kick_reason uid) f = omega arith

has_dialog : (d : Dialog) {n : ℕ} → left_of (some d) ≤ n → 0 < n
has_dialog address k = omega arith
has_dialog username k = omega arith
has_dialog (password login) k = omega arith
has_dialog kick_uid k = omega arith
has_dialog (kick_reason uid) k = omega arith

module _ {F : Type 0} (form : Form F) where
  read_keys_ends :
      (keys : List Key) (f : F)
      → 0 < endings keys
      → (read : Answer × List Key) × (read_keys form f keys ≡ some read)
        × (endings keys ≡ 1 + endings read.1)
  unfolding read_keys
  read_keys_ends [] f h = absurd (omega (arith, h))
  read_keys_ends (key ∷ keys) f h = elim (Bool-cases (is_enter key)) [
    | inl e ↦ ((some (text_of form f), keys), rw e refl, rw e refl)
    | inr e ↦ elim (Bool-cases (is_close_app key)) [
      | inl c ↦ ((none, keys), rw (e, c) refl, rw (e, c) refl)
      | inr c ↦
          let rest = read_keys_ends keys (dialog_key form key f) (ground (arith, h, e, c)) in
          (rest.0, rw (e, c) rest.1, rw (e, c) (omega (arith, rest.2)))
    ]
  ]

  module _ (env : Env) (now : ℕ) where
    dialogs_end :
        (fuel : ℕ) (d : Option Dialog) (keys : List Key) (client : Controller)
        → IsLogin d
        → left_of d ≤ fuel
        → left_of d ≤ endings keys
        → (r : Session) × (dialogs form env now fuel d keys client ≡ some r)
          × (total r.1 ≡ pending d)
    unfolding dialogs readinput
    dialogs_end zero none keys client h f k = ((client, [], keys), refl, refl)
    dialogs_end (suc fuel) none keys client h f k = ((client, [], keys), refl, refl)
    dialogs_end zero (some d) keys client h f k = absurd (no_fuel d f)
    dialogs_end (suc fuel) (some d) keys client h f k =
        let read = read_keys_ends keys form.new_form (has_dialog d k) in
        let done = answered env now d read.0.0 client in
        let once = answered_once env now d read.0.0 client h in
        let rest = dialogs_end fuel done.2 read.0.1 done.0 once.1 (omega arith) (omega arith) in
        (
          (rest.0.0, done.1 ++ rest.0.1, rest.0.2),
          rw (read.1, rest.1) refl,
          total-append done.1 rest.0.1 ∙ omega (arith, rest.2, once.0),
        )

    -- For keys of which at least three are Enter or F10, and however `socket`, `gethostbyname` and
    -- `connect` answer: the dialogs up to the login end, and the client has then either sent
    -- exactly one message or been told to end exactly once, and not both.
    pub login_dialogs_end :
        (keys : List Key) (client : Controller)
        → 3 ≤ endings keys
        → (r : Session) × (dialogs form env now 3 (some address) keys client ≡ some r)
          × (messages r.1 + ends r.1 ≡ 1)
    login_dialogs_end keys client h = dialogs_end 3 (some address) keys client tt (omega arith) h
