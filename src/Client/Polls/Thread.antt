-- ===== src/Client/Polls/Thread.antt =====
-- The thread sends the events of all messages, and then the hang-up.
use acos_chat.Base.{
  ℕ, zero, suc, ◌+◌, ◌<◌, ◌≤◌, ◌≡◌, refl, sym, ap, ◌∙◌, subst, Bool, true, false, List, [], ◌∷◌,
  ◌++◌, map, Option, none, some, ◌>>=◌, >>=-eq-some, length, take, drop, replicate, All,
  append_assoc, codes, arith,
}
use mathlib.Core.List.{map-append}
use acos_chat.Message.{Message}
use acos_chat.Server.Listener.{Connection, new_connection}
use acos_chat.Server.Input.Stream.{sent, body_size}
use acos_chat.Client.{Event}
use acos_chat.Client.Listener.{
  Verdict, waits, delivers, faults, and_on, process_connection, read_message, message_of,
  use_message, events,
}
use acos_chat.Client.Listener.Stream.{Means, all_events, events_lem}
use acos_chat.Client.Polls.{
  Round, readable, broken, Output, event, lost, Thread, finish_read, on_poll, round, and_then,
  client_listener_thread,
}

-- Rounds in which the socket is readable.
abbrev pub reading : ℕ → ℕ → ℕ → List Round
reading now sockid n =
    replicate n (record { now = now; sockid = some sockid; polled = readable; going = true })

module _ {S : Type 0} (recv : S → ℕ → S × List ℕ) (fuel now sockid : ℕ) where
  -- So many rounds get this far with these events.
  record Gets (n : ℕ) (s : S) (c : Connection) (s' : S) (c' : Connection) (es : List Event)
      : Type 0 where
    pub gets :
        (rs : List Round)
        → client_listener_thread recv fuel (reading now sockid n ++ rs) s c ≡ (
            client_listener_thread recv fuel rs s' c' >>= λ t.
            let all : Thread S = (t.0, t.1, map event es ++ t.2, t.3) in some all)

  -- A round in which the socket is readable.
  thread_reads :
      (rs : List Round) (s : S) (c : Connection) (r : S × Verdict)
      → process_connection recv s c ≡ r
      → client_listener_thread recv fuel (reading now sockid 1 ++ rs) s c ≡ (
          finish_read recv fuel r true >>= λ t.
          and_then (λ s c. client_listener_thread recv fuel rs s c) t)
  unfolding client_listener_thread round on_poll
  thread_reads rs s c r e =
      ap
        (λ v. finish_read recv fuel v true >>= λ t.
          and_then (λ s c. client_listener_thread recv fuel rs s c) t)
        e

  same_thread :
      (t : Option (Thread S))
      → (t >>= λ t. let all : Thread S = (t.0, t.1, [] ++ t.2, t.3) in some all) ≡ t
  same_thread none = refl
  same_thread (some t) = refl

  Reads : ℕ → Type 0
  Reads polls =
      (s : S) (c : Connection) (s' : S) (c' : Connection) (c'' : Connection) (es : List Event)
      → message_of (read_message recv polls s c) ≡ some (s', c')
      → use_message fuel c' ≡ some (c'', es)
      → (n : ℕ) × Gets n s c s' c'' es

  after_read :
      (polls : ℕ) (s : S) (c : Connection) (s' : S) (c' c'' : Connection) (es : List Event)
      (r : S × Verdict)
      → Reads polls
      → process_connection recv s c ≡ r
      → message_of (and_on (λ s c. read_message recv polls s c) r) ≡ some (s', c')
      → use_message fuel c' ≡ some (c'', es)
      → (n : ℕ) × Gets n s c s' c'' es
  unfolding Reads finish_read
  after_read polls s c s' c' c'' es (s1, waits c1) ih first e u =
      let later = ih s1 c1 s' c' c'' es e u in
      (
        suc later.0,
        record {
          gets = λ rs.
              thread_reads (reading now sockid later.0 ++ rs) s c (s1, waits c1) first
              ∙ same_thread _
              ∙ later.1.gets rs;
        },
      )
  after_read polls s c s' c' c'' es (s1, delivers c1) ih first e u =
      let same_s : s1 ≡ s' = cc e in
      let same_c : c1 ≡ c' = cc e in
      (
        1,
        record {
          gets = λ rs. thread_reads rs s c (s1, delivers c1) first ∙ rw (same_s, same_c, u) refl;
        },
      )
  after_read polls s c s' c' c'' es (s1, faults) ih first e u = absurd (cc e)

  message_rounds : (polls : ℕ) → Reads polls
  unfolding Reads read_message
  message_rounds zero s c s' c' c'' es e u = absurd (cc e)
  message_rounds (suc polls) s c s' c' c'' es e u =
      after_read polls s c s' c' c'' es (process_connection recv s c) (message_rounds polls) refl e
        u

  -- The outputs of two parts.
  gather :
      (os ps : List Output) (t : Option (Thread S))
      → (t
          >>= (λ t. let part : Thread S = (t.0, t.1, ps ++ t.2, t.3) in some part)
          >>= (λ t. let all : Thread S = (t.0, t.1, os ++ t.2, t.3) in some all))
        ≡ (t >>= λ t. let all : Thread S = (t.0, t.1, (os ++ ps) ++ t.2, t.3) in some all)
  gather os ps none = refl
  gather os ps (some t) =
      ap (λ es. let all : Thread S = (t.0, t.1, es, t.3) in some all) (sym (append_assoc os ps t.2))

  reading-add :
      (n m : ℕ) (rs : List Round)
      → reading now sockid (n + m) ++ rs ≡ reading now sockid n ++ (reading now sockid m ++ rs)
  reading-add zero m rs =
      let none_more : zero + m ≡ m = omega arith in ap (λ k. reading now sockid k ++ rs) none_more
  reading-add (suc n) m rs =
      let one_more : suc n + m ≡ suc (n + m) = omega arith in
      ap (λ k. reading now sockid k ++ rs) one_more
      ∙ ap (λ l. (record { now = now; sockid = some sockid; polled = readable; going = true }) ∷ l)
          (reading-add n m rs)

  Gets-append :
      {n m : ℕ} {s : S} {c : Connection} {s1 : S} {c1 : Connection} {s2 : S} {c2 : Connection}
      (es fs : List Event)
      → Gets n s c s1 c1 es
      → Gets m s1 c1 s2 c2 fs
      → Gets (n + m) s c s2 c2 (es ++ fs)
  Gets-append {n = n} {m = m} {s = s} {c = c} {s2 = s2} {c2 = c2} es fs first later = record {
    gets = λ rs.
        ap (λ l. client_listener_thread recv fuel l s c) (reading-add n m rs)
        ∙ first.gets (reading now sockid m ++ rs)
        ∙ ap (λ t. t >>= λ t. let all : Thread S = (t.0, t.1, map event es ++ t.2, t.3) in some all)
            (later.gets rs)
        ∙ gather (map event es) (map event fs) (client_listener_thread recv fuel rs s2 c2)
        ∙ ap
            (λ os. client_listener_thread recv fuel rs s2 c2 >>= λ t.
              let all : Thread S = (t.0, t.1, os ++ t.2, t.3) in some all)
            (sym (map-append event es fs));
  }

  event_rounds :
      (polls : List ℕ) (s : S) (c : Connection) (s' : S) (es : List Event)
      → events recv fuel polls s c ≡ some (s', es)
      → (n : ℕ) × (c' : Connection) × Gets n s c s' c' es
  unfolding events Reads
  event_rounds [] s c s' es e =
      let same_s : s ≡ s' = cc e in
      let same_es : ◌≡◌ {A = List Event} [] es = cc e in
      (0, c, record { gets = λ rs. rw (← same_s, ← same_es) (sym (same_thread _)) })
  event_rounds (polls ∷ more) s c s' es e =
      let next = λ (got : S × Connection). use_message fuel got.1 >>= λ used.
      events recv fuel more got.0 used.0 >>= λ rest.
      let all : S × List Event = (rest.0, used.1 ++ rest.1) in some all in
      let got = >>=-eq-some (message_of (read_message recv polls s c)) next e in
      let used =
        >>=-eq-some (use_message fuel got.0.1)
          (λ used. events recv fuel more got.0.0 used.0 >>= λ rest.
            let all : S × List Event = (rest.0, used.1 ++ rest.1) in some all)
          got.2 in
      let rest =
        >>=-eq-some (events recv fuel more got.0.0 used.0.0)
          (λ rest. let all : S × List Event = (rest.0, used.0.1 ++ rest.1) in some all) used.2 in
      let first = message_rounds polls s c got.0.0 got.0.1 used.0.0 used.0.1 got.1 used.1 in
      let later = event_rounds more got.0.0 used.0.0 rest.0.0 rest.0.1 rest.1 in
      let same_s : rest.0.0 ≡ s' = cc rest.2 in
      let same_es : used.0.1 ++ rest.0.1 ≡ es = cc rest.2 in
      (
        first.0 + later.0,
        later.1,
        subst (λ q. Gets (first.0 + later.0) s c q later.1 es) same_s
            (subst (λ fs. Gets (first.0 + later.0) s c rest.0.0 later.1 fs) same_es
              (Gets-append used.0.1 rest.0.1 first.1 later.2)),
      )

module _ {S : Type 0} (recv : S → ℕ → S × List ℕ) (rest : S → List ℕ)
    (in_order : (s : S) (n : ℕ)
      → ((recv s n).1 ≡ take (length (recv s n).1) (rest s))
        × (rest (recv s n).0 ≡ drop (length (recv s n).1) (rest s)))
    (at_most : (s : S) (n : ℕ) → length (recv s n).1 ≤ n)
    (arrives : (s : S) (n : ℕ) → 0 < n → 0 < length (rest s) → 0 < length (recv s n).1)
    (fuel sockid : ℕ) (meaning : Message → List Event) where
  -- For a socket whose `recv` gives the bytes of its stream in order, at most as many as asked for
  -- and at least one where some are left, and a stream that begins with packed messages, each of
  -- tokens in the ranges of their C types that are shorter than 2 ^ 31 - 5 bytes together and
  -- fewer than the fuel, and each with events that `interpret` finds in its type and its received
  -- tokens: there is a number of polls that report input such that the client's thread, when the
  -- socket hangs up after them, has sent the events of the messages, in order, then the hang-up
  -- and its message to the user, has left the stream behind the messages, and ends.
  pub client_listener_thread_lem :
      (ms : List Message) (tail : List ℕ) (s : S) (now later : ℕ) (going : Bool)
      → All (Means fuel meaning) ms
      → rest s ≡ sent ms tail
      → (n : ℕ) × (s' : S) × (c : Connection) × (client_listener_thread recv fuel
            (reading now sockid n
              ++ record { now = later; sockid = some sockid; polled = broken; going = going } ∷ [])
            s
            (new_connection sockid)
          ≡ some (
            s',
            c,
            map event (all_events meaning ms)
                ++ lost later (codes "Connection lost, please restart client"),
            false,
          ))
        × (rest s' ≡ tail)
  unfolding client_listener_thread round on_poll
  client_listener_thread_lem ms tail s now later going h there =
      let all =
        events_lem recv rest in_order at_most arrives fuel sockid meaning ms tail s h there in
      let rounds =
        event_rounds recv fuel now sockid (map (λ m. 5 + body_size m) ms) s (new_connection sockid)
          all.0 (all_events meaning ms) all.1 in
      (rounds.0, all.0, rounds.1, rounds.2.gets _, all.2)
