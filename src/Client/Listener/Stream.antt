-- ===== src/Client/Listener/Stream.antt =====
-- A sequence of messages from the server.
use acos_chat.Base.{
  ℕ, ◌+◌, ◌≤◌, ◌<◌, ◌≡◌, refl, ap, ap₂, ◌∙◌, false, List, [], ◌∷◌, ◌++◌, none, some, ◌>>=◌, map,
  length, take, drop, All, arith,
}
use acos_chat.Message.{
  Message, Unpacked, map_outcome, pack_tokens, unpack_message_2, msg_header_size,
}
use acos_chat.Message.RoundTrip.{received}
use acos_chat.Server.Listener.{Connection, contents, new_connection}
use acos_chat.Server.Input.Stream.{
  IsSendable, body_size, sent, wire, wire_lem, stated_size, length-wire, body-wire, rest-wire,
  unpacked,
}
use acos_chat.Client.{Event}
use acos_chat.Client.Listener.{interpret, events_of, reset, use_message, events}
use acos_chat.Client.Listener.Same.{client_parts}

-- What arrives of a message.
abbrev pub arrived : Message → Unpacked
arrived m = record { msg_type = m.msg_type; tokens = map received m.tokens }

-- The message fits the format, and these are its events.
abbrev pub Means : ℕ → (Message → List Event) → Message → Type 0
Means fuel meaning m = IsSendable fuel m × (interpret (arrived m) ≡ some (meaning m))

abbrev pub all_events : (Message → List Event) → List Message → List Event
all_events meaning [] = []
all_events meaning (m ∷ ms) = meaning m ++ all_events meaning ms

reset_new :
    (c : Connection) (sockid : ℕ)
    → c.sockid ≡ sockid
    → c.in_worker ≡ false
    → reset c ≡ new_connection sockid
unfolding new_connection
reset_new c sockid k w =
    ap₂
      (λ k w. record {
        sockid = k;
        header = [];
        body = none;
        bytes_read = 0;
        bytes_expected = msg_header_size;
        in_worker = w;
      })
      k w

used :
    (fuel sockid : ℕ) (meaning : Message → List Event) (m : Message) (tail : List ℕ)
    (c : Connection)
    → Means fuel meaning m
    → c.header ≡ take 5 (wire m tail)
    → contents c.body ≡ pack_tokens m.tokens
    → c.sockid ≡ sockid
    → c.in_worker ≡ false
    → use_message fuel c ≡ some (new_connection sockid, meaning m)
unfolding use_message
used fuel sockid meaning m tail c h header body k w =
    ap (λ o. events_of (map_outcome interpret o) >>= (λ found. some (reset c, found)))
      (ap₂ (unpack_message_2 fuel) header body ∙ unpacked fuel m tail h.0)
    ∙ ap (λ o. o >>= (λ found. some (reset c, found))) h.1
    ∙ ap (λ d. some (d, meaning m)) (reset_new c sockid k w)

module _ {S : Type 0} (recv : S → ℕ → S × List ℕ) (rest : S → List ℕ)
    (in_order : (s : S) (n : ℕ)
      → ((recv s n).1 ≡ take (length (recv s n).1) (rest s))
        × (rest (recv s n).0 ≡ drop (length (recv s n).1) (rest s)))
    (at_most : (s : S) (n : ℕ) → length (recv s n).1 ≤ n)
    (arrives : (s : S) (n : ℕ) → 0 < n → 0 < length (rest s) → 0 < length (recv s n).1)
    (fuel sockid : ℕ) (meaning : Message → List Event) where
  -- For a socket whose `recv` gives the bytes of its stream in order, at most as many as asked for
  -- and at least one where some are left, and a stream that begins with packed messages, each of
  -- tokens in the ranges of their C types that are shorter than 2 ^ 31 - 5 bytes together and
  -- fewer than the fuel, and each with events that `interpret` finds in its type and its received
  -- tokens: in whatever parts the bytes arrive, the client's polls lead to the events of the
  -- messages, in order, and leave the stream behind them.
  pub events_lem :
      (ms : List Message) (tail : List ℕ) (s : S)
      → All (Means fuel meaning) ms
      → rest s ≡ sent ms tail
      → (s' : S) × (events recv fuel (map (λ m. 5 + body_size m) ms) s (new_connection sockid)
          ≡ some (s', all_events meaning ms))
        × (rest s' ≡ tail)
  unfolding events
  events_lem [] tail s h there = (s, refl, there)
  events_lem (m ∷ ms) tail s h there =
      let (s', c, read, left, header, body, k, w) =
        client_parts recv rest in_order at_most arrives (wire m (sent ms tail)) (body_size m)
          (stated_size m (sent ms tail) (omega (arith, h.0.0.fits))) (omega (arith, h.0.0.fits))
          (length-wire m (sent ms tail)) s sockid (there ∙ wire_lem fuel m (sent ms tail) h.0.0) in
      let (s'', more, end) = events_lem ms tail s' h.1 (left ∙ rest-wire m (sent ms tail)) in
      (
        s'',
        rw
            (
              events,
              read,
              used fuel sockid meaning m (sent ms tail) c h.0 header
                  (body ∙ body-wire m (sent ms tail)) k w,
              more,
            )
            refl,
        end,
      )
