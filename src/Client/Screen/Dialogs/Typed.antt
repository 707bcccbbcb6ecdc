-- ===== src/Client/Screen/Dialogs/Typed.antt =====
-- What the user types reaches the server.
use acos_chat.Base.{
  ℕ, suc, ◌+◌, ◌-◌, ◌^◌, ◌<◌, ◌≡◌, refl, ap, ◌∙◌, true, false, List, [], ◌∷◌, ◌++◌, some, ◌>>=◌,
  length, All, codes,
}
use acos_chat.Message.{Message, done, pack_message}
use acos_chat.Server.Database.{Database}
use acos_chat.Server.Process.{Shared, logged_in}
use acos_chat.Client.{Controller, sends, asks}
use acos_chat.Client.Control.{
  connect_to_server, split_port, port_of, connected, get_server_addr_callback_success,
  get_username_callback_success, login_callback_success,
}
use acos_chat.Client.Received.{IsText}
use acos_chat.Client.Received.Requests.{handled, server_gets_login}
use acos_chat.Client.Screen.{Key, enter, is_close_app, Form, Dialog, address, username, password}
use acos_chat.Client.Screen.Dialogs.{
  is_enter, Env, dialog_key, text_of, read_keys, readinput, answered, Session, dialogs,
}

-- Keys that do not end a dialog.
abbrev pub IsTyped : List Key → Type 0
IsTyped keys = All (λ k. (is_enter k ≡ false) × (is_close_app k ≡ false)) keys

module _ {F : Type 0} (form : Form F) where
  abbrev pub typed : F → List Key → F
  typed f [] = f
  typed f (key ∷ keys) = typed (dialog_key form key f) keys

  -- The text that the keys enter.
  abbrev pub entered : List Key → List ℕ
  entered keys = text_of form (typed form.new_form keys)

  read_keys_enter :
      (keys rest : List Key) (f : F)
      → IsTyped keys
      → read_keys form f (keys ++ enter ∷ rest) ≡ some (some (text_of form (typed f keys)), rest)
  unfolding read_keys
  read_keys_enter [] rest f h = refl
  read_keys_enter (key ∷ keys) rest f h =
      rw (h.0.0, h.0.1) (read_keys_enter keys rest (dialog_key form key f) h.1)

  readinput_enter :
      (keys rest : List Key)
      → IsTyped keys
      → readinput form (keys ++ enter ∷ rest) ≡ some (some (entered keys), rest)
  unfolding readinput
  readinput_enter keys rest h = read_keys_enter keys rest form.new_form h

  -- A dialog that is answered by the keys, and what follows.
  pub dialogs_enter :
      (env : Env) (now fuel : ℕ) (dialog : Dialog) (keys rest : List Key) (client : Controller)
      → IsTyped keys
      → dialogs form env now (suc fuel) (some dialog) (keys ++ enter ∷ rest) client ≡ (
          dialogs form env now fuel
            (answered env now dialog (some (entered keys)) client).2
            rest
            (answered env now dialog (some (entered keys)) client).0
          >>= λ s.
              let all : Session =
                (s.0, (answered env now dialog (some (entered keys)) client).1 ++ s.1, s.2) in
              some all)
  unfolding dialogs
  dialogs_enter env now fuel dialog keys rest client h = rw (readinput_enter keys rest h) refl

  login_dialogs :
      (env : Env) (now sockid : ℕ) (addr user passwd rest : List Key) (client : Controller)
      → IsTyped addr
      → IsTyped user
      → IsTyped passwd
      → connect_to_server env.socket env.gethostbyname env.connect
          (split_port (entered addr)).0
          (port_of env.atoi (split_port (entered addr)).1)
        ≡ some sockid
      → dialogs form env now 3
          (some address)
          (addr ++ enter ∷ (user ++ enter ∷ (passwd ++ enter ∷ rest)))
          client
        ≡ some (
          record client { sockid = some sockid },
          asks (codes "Enter username:") false
              ∷ asks (codes "Enter password:") true
              ∷ login_callback_success (entered passwd) (entered user),
          rest,
        )
  unfolding answered get_server_addr_callback_success connected get_username_callback_success
      dialogs login_callback_success
  login_dialogs env now sockid addr user passwd rest client a u p on =
      dialogs_enter env now 2 address addr (user ++ enter ∷ (passwd ++ enter ∷ rest)) client a
      ∙ rw
          (
            on,
            dialogs_enter env now 1 username user (passwd ++ enter ∷ rest)
                (record client { sockid = some sockid }) u,
            dialogs_enter env now 0 (password (entered user)) passwd rest
                (record client { sockid = some sockid }) p,
          )
          refl

  module _ {D : Type 0} (api : Database D) (fuel now socket : ℕ) (s : Shared D) (env : Env)
      (client : Controller) (rest : List Key) where
    -- For keys that end no dialog, a server address for which the client gets a socket, a login
    -- and a password without zero bytes that are together shorter than 2 ^ 31 - 8 bytes, and fuel
    -- above 2: the user who types address, login and password, each with Enter, is asked for the
    -- login and then, hidden, for the password, and the client sends one message, for which the
    -- server asks the data base with this login and this password, and answers as it says.
    pub client_logs_in :
        (sockid : ℕ) (addr user passwd : List Key)
        → IsTyped addr
        → IsTyped user
        → IsTyped passwd
        → connect_to_server env.socket env.gethostbyname env.connect
            (split_port (entered addr)).0
            (port_of env.atoi (split_port (entered addr)).1)
          ≡ some sockid
        → IsText (entered user)
        → IsText (entered passwd)
        → length (entered user) + length (entered passwd) < 2 ^ 31 - 8
        → 2 < fuel
        → (m : Message) × (dialogs form env now 3
              (some address)
              (addr ++ enter ∷ (user ++ enter ∷ (passwd ++ enter ∷ rest)))
              client
            ≡ some (
              record client { sockid = some sockid },
              asks (codes "Enter username:") false
                  ∷ asks (codes "Enter password:") true
                  ∷ sends m
                  ∷ [],
              rest,
            ))
          × (handled api fuel now socket (pack_message m) s
              ≡ done (
                  some (
                    logged_in api now socket
                      (entered user)
                      (record s {
                        db = (api.login_or_register s.db (entered user) (entered passwd)).0;
                      })
                      (api.login_or_register s.db (entered user) (entered passwd)).1)))
    client_logs_in sockid addr user passwd a u p on ut pt small f =
        let got =
          server_gets_login api fuel now socket s (entered user) (entered passwd) ut pt small f in
        (
          got.0,
          login_dialogs env now sockid addr user passwd rest client a u p on
              ∙ ap
                  (λ es.
                    let end : Session = (
                      record client { sockid = some sockid },
                      asks (codes "Enter username:") false
                          ∷ asks (codes "Enter password:") true
                          ∷ es,
                      rest,
                    ) in
                    some end)
                  got.1,
          got.2,
        )
