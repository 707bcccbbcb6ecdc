-- ===== src/Server/Input/Socket.antt =====
-- Reading does not change the socket of a connection.
use acos_chat.Base.{
  ℕ, zero, suc, ◌+◌, ◌-◌, ◌^◌, ◌≡◌, true, List, ◌++◌, Option, none, some, length, drop, ltb, ◌==◌,
  if_both, if◌then◌else◌,
}
use acos_chat.Message.{read_int, msg_header_size}
use acos_chat.Server.Listener.{
  Connection, Verdict, waits, delivers, closed, faults, contents, finish, open_body, fill_body,
  read_body, after_header, process_connection, and_on, read_message,
}

opened :
    (sockid size : ℕ) (body : Option (List ℕ)) (c : Connection)
    → c.sockid ≡ sockid
    → (open_body size body c).sockid ≡ sockid
unfolding open_body
opened sockid size none c e = e
opened sockid size (some bytes) c e = e

module _ {S : Type 0} (sockid : ℕ) where
  abbrev pub On : S × Verdict → Type 0
  On (s, waits c) = c.sockid ≡ sockid
  On (s, delivers c) = c.sockid ≡ sockid
  On (s, closed) = Unit
  On (s, faults) = Unit

  finish-On : (s : S) (c : Connection) → c.sockid ≡ sockid → On (finish s c)
  unfolding finish
  finish-On s c e =
      if_both On (c.bytes_read == c.bytes_expected)
        {x = (s, delivers (record c { in_worker = true }))} {y = (s, waits c)} e e

  module _ (recv : S → ℕ → S × List ℕ) where
    fill_body-On : (s : S) (c : Connection) → c.sockid ≡ sockid → On (fill_body recv s c)
    unfolding fill_body
    fill_body-On s c e =
        let got = recv s (c.bytes_expected - c.bytes_read) in
        let next : Connection = record c {
          body = some (contents c.body ++ got.1);
          bytes_read = c.bytes_read + length got.1;
        } in
        if_both On (length got.1 == 0) {x = (got.0, closed)} {y = finish got.0 next} tt
          (finish-On got.0 next e)

    read_body-On :
        (s : S) (c : Connection) (size : Option ℕ)
        → c.sockid ≡ sockid
        → On (read_body recv s c size)
    unfolding read_body
    read_body-On s c none e = tt
    read_body-On s c (some size) e =
        let next = open_body size c.body c in
        if_both On (ltb size (2 ^ 31)) {x = if size == 0 then finish s c else fill_body recv s next}
          {y = (s, closed)}
          (if_both On (size == 0) {x = finish s c} {y = fill_body recv s next} (finish-On s c e)
            (fill_body-On s next (opened sockid size c.body c e)))
          tt

    after_header-On : (s : S) (c : Connection) → c.sockid ≡ sockid → On (after_header recv s c)
    unfolding after_header
    after_header-On s c e =
        if_both On (ltb c.bytes_read msg_header_size) {x = (s, waits c)}
          {y = read_body recv s c (read_int (drop 1 c.header))} e
          (read_body-On s c (read_int (drop 1 c.header)) e)

    process_connection-On :
        (s : S) (c : Connection) → c.sockid ≡ sockid → On (process_connection recv s c)
    unfolding process_connection
    process_connection-On s c e =
        let got = recv s (c.bytes_expected - c.bytes_read) in
        let next : Connection = record c {
          header = c.header ++ got.1;
          bytes_read = c.bytes_read + length got.1;
        } in
        if_both On (ltb c.bytes_read msg_header_size)
          {x = if length got.1 == 0 then (got.0, closed) else after_header recv got.0 next}
          {y = after_header recv s c}
          (if_both On (length got.1 == 0) {x = (got.0, closed)} {y = after_header recv got.0 next}
            tt (after_header-On got.0 next e))
          (after_header-On s c e)

    and_on-On :
        (next : S → Connection → S × Verdict) (r : S × Verdict)
        → ((s : S) (c : Connection) → c.sockid ≡ sockid → On (next s c))
        → On r
        → On (and_on next r)
    and_on-On next (s, waits c) go h = go s c h
    and_on-On next (s, delivers c) go h = h
    and_on-On next (s, closed) go h = tt
    and_on-On next (s, faults) go h = tt

    pub read_message-On :
        (polls : ℕ) (s : S) (c : Connection) → c.sockid ≡ sockid → On (read_message recv polls s c)
    unfolding read_message
    read_message-On zero s c e = e
    read_message-On (suc polls) s c e =
        and_on-On (λ s c. read_message recv polls s c) (process_connection recv s c)
          (λ s c e. read_message-On polls s c e) (process_connection-On s c e)
