-- ===== src/Client/Received/Requests.antt =====
-- The requests of the client, as the server handles them.
use acos_chat.Base.{
  ℕ, ◌+◌, ◌-◌, ◌^◌, ◌<◌, ◌≡◌, refl, ap, ◌∙◌, List, [], ◌∷◌, Option, some, length, arith,
}
use acos_chat.Message.{
  c_str, Message, Outcome, done, map_outcome, pack_message, pack_tokens, pack_size, be32,
  unpack_message_1,
}
use acos_chat.Message.RoundTrip.{
  unpack_message_1-pack_message, length-pack_tokens_cons, length-pack_tokens_nil,
}
use acos_chat.Server.{Effect, closes, message_login, message_logout}
use acos_chat.Server.Database.{Database}
use acos_chat.Server.Process.{Shared, on_login, logged_in, process_message}
use acos_chat.Client
use acos_chat.Client.Control.{login_callback_success, logout_bytes}
use acos_chat.Client.Received.{IsText, p_str_to_c_str-received}

-- What the server's handler does for the bytes of a message.
abbrev pub handled :
    {D : Type 0}
    → Database D
    → ℕ
    → ℕ
    → ℕ
    → List ℕ
    → Shared D
    → Outcome (Option (Shared D × List Effect))
handled api fuel now sockid bytes s =
    map_outcome (λ msg. process_message api now (record { sockid = sockid; msg = msg }) s)
      (unpack_message_1 fuel bytes)

module _ {D : Type 0} (api : Database D) (fuel now sockid : ℕ) (s : Shared D) where
  -- For a login and a password without zero bytes that are together shorter than 2 ^ 31 - 8 bytes,
  -- and fuel above 2: the client sends one message, for which the server asks the data base with
  -- this login and this password, and answers as it says.
  pub server_gets_login :
      (login password : List ℕ)
      → IsText login
      → IsText password
      → length login + length password < 2 ^ 31 - 8
      → 2 < fuel
      → (m : Message) × (login_callback_success password login ≡ Client.sends m ∷ [])
        × (handled api fuel now sockid (pack_message m) s
            ≡ done (
                some (
                  logged_in api now sockid login
                    (record s { db = (api.login_or_register s.db login password).0 })
                    (api.login_or_register s.db login password).1)))
  unfolding login_callback_success process_message on_login
  server_gets_login login password l p small f =
      let m : Message = record {
        msg_type = message_login;
        tokens = c_str login ∷ c_str password ∷ [];
      } in
      (
        m,
        refl,
        ap (map_outcome (λ msg. process_message api now (record { sockid = sockid; msg = msg }) s))
              (unpack_message_1-pack_message m fuel (omega arith, (omega arith, tt))
                (omega (
                  arith,
                  length-pack_tokens_cons (c_str login) (c_str password ∷ []) (omega arith),
                  length-pack_tokens_cons (c_str password) [] (omega arith),
                  length-pack_tokens_nil,
                ))
                f)
            ∙ ap done (
                rw
                  (
                    process_message,
                    on_login,
                    p_str_to_c_str-received login l,
                    p_str_to_c_str-received password p,
                  )
                  refl),
      )

  -- The five bytes that the client sends at its end make the server close the connection, and nothing
  -- else.
  pub server_gets_logout :
      (socket : ℕ)
      → 0 < fuel
      → handled api fuel now sockid (logout_bytes (some socket)) s
        ≡ done (some (s, closes sockid ∷ []))
  unfolding logout_bytes process_message pack_message pack_tokens pack_size be32
  server_gets_logout socket f =
      ap (map_outcome (λ msg. process_message api now (record { sockid = sockid; msg = msg }) s)) (
        unpack_message_1-pack_message (record { msg_type = message_logout; tokens = [] }) fuel tt
          (omega arith) f)
