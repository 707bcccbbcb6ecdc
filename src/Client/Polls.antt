-- ===== src/Client/Polls.antt =====
-- `client_listener_thread` of lab_2/chat/src/client/listener.c: what it sends to the other loops. What `poll`
-- answers for the one socket is an argument, and so is the socket that the controller has, if any.
pub mod Thread
use acos_chat.Base.{
  ℕ, Bool, true, false, List, [], ◌∷◌, ◌++◌, map, Option, none, some, ◌>>=◌, if◌then◌else◌, codes,
}
use acos_chat.Server.Listener.{Connection}
use acos_chat.Client.{ParsedMessage, Event, message_internal}
use acos_chat.Client.Listener.{Verdict, waits, delivers, faults, process_connection, use_message}

-- The answer of `poll`: -1; 0; more with POLLHUP or POLLERR, with POLLIN and neither of these, with none.
pub data Polled : Type 0 where
  failed quiet broken readable unmarked : Polled

-- What the thread sends: the event of a message, the hang-up to the controller's loop, a message of its own
-- to the screen's loop.
pub data Output : Type 0 where
  event : Event → Output
  hangup : Output
  shows : ParsedMessage → Output

-- What a round finds: the time, the controller's socket, the answer of `poll`, and whether its own loop
-- goes on.
pub record Round : Type 0 where
  pub now : ℕ
  pub sockid : Option ℕ
  pub polled : Polled
  pub going : Bool

abbrev pub lost : ℕ → List ℕ → List Output
lost now text =
    hangup
    ∷ shows (record { msg_type = message_internal; author = none; text = text; tstamp = now })
    ∷ []

-- The state of the thread, what it sends, and whether it goes on.
abbrev pub Thread : Type 0 → Type 0
Thread S = S × Connection × List Output × Bool

-- The loop goes on with the outputs of the round before it.
abbrev pub and_then :
    {S : Type 0} → (S → Connection → Option (Thread S)) → Thread S → Option (Thread S)
and_then next (s, c, outputs, false) = some (s, c, outputs, false)
and_then next (s, c, outputs, true) = do
  rest ← next s c
  some (rest.0, rest.1, outputs ++ rest.2, rest.3)

module _ {S : Type 0} (recv : S → ℕ → S × List ℕ) (fuel : ℕ) where
  -- `process_connection` with the end of the function; none is a read of what is not there.
  unfoldable pub finish_read : S × Verdict → Bool → Option (Thread S)
  finish_read (s, waits c) going = some (s, c, [], going)
  finish_read (s, delivers c) going = do
    used ← use_message fuel c
    some (s, used.0, map event used.1, going)
  finish_read (s, faults) going = none

  unfoldable pub on_poll : Polled → ℕ → Bool → S → Connection → Option (Thread S)
  on_poll failed now going s c =
      some (s, c, lost now (codes "Cannot poll(), please restart client"), false)
  on_poll quiet now going s c = some (s, c, [], going)
  on_poll broken now going s c =
      some (s, c, lost now (codes "Connection lost, please restart client"), false)
  on_poll readable now going s c = finish_read (process_connection recv s c) going
  on_poll unmarked now going s c = some (s, c, [], going)

  unfoldable pub round : Round → S → Connection → Option (Thread S)
  round r s c = elim r.sockid [
    | none ↦ some (s, c, [], r.going)
    | some sockid ↦ on_poll r.polled r.now r.going s c
  ]

  unfoldable pub client_listener_thread : List Round → S → Connection → Option (Thread S)
  client_listener_thread [] s c = some (s, c, [], true)
  client_listener_thread (r ∷ rs) s c =
      round r s c >>= λ t. and_then (λ s c. client_listener_thread rs s c) t
