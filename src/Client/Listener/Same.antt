-- ===== src/Client/Listener/Same.antt =====
-- The two functions `process_connection`, of the client and of the server, read the same messages.
use acos_chat.Base.{
  ℕ, zero, suc, ◌+◌, ◌-◌, ◌^◌, ◌≤◌, ◌<◌, ◌≡◌, refl, sym, ap, ap₂, ◌∙◌, true, false, subst, List,
  ◌++◌, Option, none, some, length, take, drop, ltb, ◌==◌, if_pair, if◌then◌else◌,
}
use acos_chat.Message.{read_int, msg_header_size}
use acos_chat.Server.Listener
use acos_chat.Server.Listener.{Connection, new_connection, contents, open_body}
use acos_chat.Server.Listener.Reads.{read_message_parts}
use acos_chat.Server.Listener.Bytes.{take-append_drop}
use acos_chat.Server.Input.Socket.{On, read_message-On}
use acos_chat.Client.Listener.{
  Verdict, waits, delivers, faults, finish, fill_body, read_body, after_header, process_connection,
  and_on, read_message,
}

opened_free :
    (size : ℕ) (body : Option (List ℕ)) (c : Connection)
    → c.in_worker ≡ false
    → (open_body size body c).in_worker ≡ false
unfolding open_body
opened_free size none c w = w
opened_free size (some bytes) c w = w

module _ {S : Type 0} where
  -- The server marks a connection with a message and closes one on which a read fails; the client only
  -- returns.
  abbrev Agree : S × Listener.Verdict → S × Verdict → Type 0
  Agree (s, Listener.waits c) (s', waits c') = (s ≡ s') × (c ≡ c') × (c'.in_worker ≡ false)
  Agree (s, Listener.waits c) (s', delivers c') = ⊥
  Agree (s, Listener.waits c) (s', faults) = ⊥
  Agree (s, Listener.delivers c) (s', waits c') = ⊥
  Agree (s, Listener.delivers c) (s', delivers c') =
      (s ≡ s') × (c ≡ record c' { in_worker = true }) × (c'.in_worker ≡ false)
  Agree (s, Listener.delivers c) (s', faults) = ⊥
  Agree (s, Listener.closed) r = Unit
  Agree (s, Listener.faults) r = Unit

  finish-Agree :
      (s : S) (c : Connection) → c.in_worker ≡ false → Agree (Listener.finish s c) (finish s c)
  unfolding Listener.finish finish
  finish-Agree s c w =
      if_pair Agree (c.bytes_read == c.bytes_expected)
        {x = (s, Listener.delivers (record c { in_worker = true }))} {y = (s, Listener.waits c)}
        {x' = (s, delivers c)} {y' = (s, waits c)} (refl, refl, w) (refl, refl, w)

  module _ (recv : S → ℕ → S × List ℕ) where
    fill_body-Agree :
        (s : S) (c : Connection)
        → c.in_worker ≡ false
        → Agree (Listener.fill_body recv s c) (fill_body recv s c)
    unfolding Listener.fill_body fill_body
    fill_body-Agree s c w =
        let got = recv s (c.bytes_expected - c.bytes_read) in
        let next = record c {
          body = some (contents c.body ++ got.1);
          bytes_read = c.bytes_read + length got.1;
        } in
        if_pair Agree (length got.1 == 0) {x = (got.0, Listener.closed)}
          {y = Listener.finish got.0 next} {x' = (got.0, waits c)} {y' = finish got.0 next} tt
          (finish-Agree got.0 next w)

    read_body-Agree :
        (s : S) (c : Connection) (size : Option ℕ)
        → c.in_worker ≡ false
        → Agree (Listener.read_body recv s c size) (read_body recv s c size)
    unfolding Listener.read_body read_body
    read_body-Agree s c none w = tt
    read_body-Agree s c (some size) w =
        let opened = open_body size c.body c in
        if_pair Agree (ltb size (2 ^ 31))
          {x = if size == 0 then Listener.finish s c else Listener.fill_body recv s opened}
          {y = (s, Listener.closed)}
          {x' = if size == 0 then finish s c else fill_body recv s opened} {y' = (s, waits c)}
          (if_pair Agree (size == 0) {x = Listener.finish s c}
            {y = Listener.fill_body recv s opened} {x' = finish s c} {y' = fill_body recv s opened}
            (finish-Agree s c w) (fill_body-Agree s opened (opened_free size c.body c w)))
          tt

    after_header-Agree :
        (s : S) (c : Connection)
        → c.in_worker ≡ false
        → Agree (Listener.after_header recv s c) (after_header recv s c)
    unfolding Listener.after_header after_header
    after_header-Agree s c w =
        if_pair Agree (ltb c.bytes_read msg_header_size) {x = (s, Listener.waits c)}
          {y = Listener.read_body recv s c (read_int (drop 1 c.header))} {x' = (s, waits c)}
          {y' = read_body recv s c (read_int (drop 1 c.header))} (refl, refl, w)
          (read_body-Agree s c (read_int (drop 1 c.header)) w)

    process_connection-Agree :
        (s : S) (c : Connection)
        → c.in_worker ≡ false
        → Agree (Listener.process_connection recv s c) (process_connection recv s c)
    unfolding Listener.process_connection process_connection
    process_connection-Agree s c w =
        let got = recv s (c.bytes_expected - c.bytes_read) in
        let next = record c {
          header = c.header ++ got.1;
          bytes_read = c.bytes_read + length got.1;
        } in
        if_pair Agree (ltb c.bytes_read msg_header_size)
          {x = if length got.1 == 0
            then (got.0, Listener.closed)
            else Listener.after_header recv got.0 next}
          {y = Listener.after_header recv s c}
          {x' = if length got.1 == 0 then (got.0, waits c) else after_header recv got.0 next}
          {y' = after_header recv s c}
          (if_pair Agree (length got.1 == 0) {x = (got.0, Listener.closed)}
            {y = Listener.after_header recv got.0 next} {x' = (got.0, waits c)}
            {y' = after_header recv got.0 next} tt (after_header-Agree got.0 next w))
          (after_header-Agree s c w)

    and_on-Agree :
        (next : S → Connection → S × Listener.Verdict) (next' : S → Connection → S × Verdict)
        (r : S × Listener.Verdict) (r' : S × Verdict)
        → ((s : S) (c : Connection) → c.in_worker ≡ false → Agree (next s c) (next' s c))
        → Agree r r'
        → Agree (Listener.and_on next r) (and_on next' r')
    and_on-Agree next next' (s, Listener.waits c) (s', waits c') h a =
        subst (λ t. Agree (next s c) (next' t c')) a.0
          (subst (λ d. Agree (next s c) (next' s d)) a.1
            (h s c (ap (λ (d : Connection). d.in_worker) a.1 ∙ a.2)))
    and_on-Agree next next' (s, Listener.waits c) (s', delivers c') h a = absurd a
    and_on-Agree next next' (s, Listener.waits c) (s', faults) h a = absurd a
    and_on-Agree next next' (s, Listener.delivers c) (s', waits c') h a = absurd a
    and_on-Agree next next' (s, Listener.delivers c) (s', delivers c') h a = a
    and_on-Agree next next' (s, Listener.delivers c) (s', faults) h a = absurd a
    and_on-Agree next next' (s, Listener.closed) r' h a = tt
    and_on-Agree next next' (s, Listener.faults) r' h a = tt

    read_message-Agree :
        (polls : ℕ) (s : S) (c : Connection)
        → c.in_worker ≡ false
        → Agree (Listener.read_message recv polls s c) (read_message recv polls s c)
    unfolding Listener.read_message read_message
    read_message-Agree zero s c w = (refl, refl, w)
    read_message-Agree (suc polls) s c w =
        and_on-Agree (λ s c. Listener.read_message recv polls s c)
          (λ s c. read_message recv polls s c) (Listener.process_connection recv s c)
          (process_connection recv s c) (λ s c w. read_message-Agree polls s c w)
          (process_connection-Agree s c w)

  agreed :
      (r : S × Listener.Verdict) (r' : S × Verdict) (s : S) (c : Connection)
      → Agree r r'
      → r ≡ (s, Listener.delivers c)
      → (c' : Connection) × (r' ≡ (s, delivers c'))
        × (c ≡ record c' { in_worker = true })
        × (c'.in_worker ≡ false)
  agreed r (s', waits c') s c a e = absurd (subst (λ r. Agree r (s', waits c')) e a)
  agreed r (s', faults) s c a e = absurd (subst (λ r. Agree r (s', faults)) e a)
  agreed r (s', delivers c') s c a e =
      let both = subst (λ r. Agree r (s', delivers c')) e a in
      (c', ap (λ t. (t, delivers c')) (sym both.0), both.1, both.2)

module _ {S : Type 0} (recv : S → ℕ → S × List ℕ) (rest : S → List ℕ)
    (in_order : (s : S) (n : ℕ)
      → ((recv s n).1 ≡ take (length (recv s n).1) (rest s))
        × (rest (recv s n).0 ≡ drop (length (recv s n).1) (rest s)))
    (at_most : (s : S) (n : ℕ) → length (recv s n).1 ≤ n)
    (arrives : (s : S) (n : ℕ) → 0 < n → 0 < length (rest s) → 0 < length (recv s n).1) (m : List ℕ)
    (n : ℕ) (stated : read_int (drop 1 (take 5 m)) ≡ some n) (small : 5 + n < 2 ^ 31)
    (complete : 5 + n ≤ length m) where
  -- The header and the body apart, and what stays.
  pub client_parts :
      (s : S) (sockid : ℕ)
      → rest s ≡ m
      → (s' : S) × (c : Connection) × (read_message recv (5 + n) s (new_connection sockid)
          ≡ (s', delivers c))
        × (rest s' ≡ drop (5 + n) m)
        × (c.header ≡ take 5 m)
        × (contents c.body ≡ take n (drop 5 m))
        × (c.sockid ≡ sockid)
        × (c.in_worker ≡ false)
  unfolding new_connection
  client_parts s sockid there =
      let (s', c, read, left, header, body) =
        read_message_parts recv rest in_order at_most arrives m n stated small complete s sockid
          there in
      let (c', read', same, w) =
        agreed (Listener.read_message recv (5 + n) s (new_connection sockid))
          (read_message recv (5 + n) s (new_connection sockid)) s' c
          (read_message-Agree recv (5 + n) s (new_connection sockid) refl) read in
      (
        s',
        c',
        read',
        left,
        ap (λ (d : Connection). d.header) (sym same) ∙ header,
        ap (λ (d : Connection). contents d.body) (sym same) ∙ body,
        ap (λ (d : Connection). d.sockid) (sym same)
            ∙ subst (On sockid) read
                (read_message-On sockid recv (5 + n) s (new_connection sockid) refl),
        w,
      )

  -- For a socket whose `recv` gives the bytes of its stream in order, at most as many as asked for
  -- and at least one where some are left, and a stream that begins with a whole message of `5 + n`
  -- bytes below 2 ^ 31, whose header states the length `n`: in whatever parts the bytes arrive, at
  -- most `5 + n` calls of the client's `process_connection` have a header and a body that are the
  -- bytes of the message, and leave the stream behind the message.
  pub client_reads :
      (s : S) (sockid : ℕ)
      → rest s ≡ m
      → (s' : S) × (c : Connection) × (read_message recv (5 + n) s (new_connection sockid)
          ≡ (s', delivers c))
        × (rest s' ≡ drop (5 + n) m)
        × (c.header ++ contents c.body ≡ take (5 + n) m)
  client_reads s sockid there =
      let (s', c, read, left, header, body, k, w) = client_parts s sockid there in
      (s', c, read, left, ap₂ (λ x y. x ++ y) header body ∙ take-append_drop 5 n m)
