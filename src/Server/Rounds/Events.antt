-- ===== src/Server/Rounds/Events.antt =====
-- A round with its events: what it closes, and a socket that is to be closed twice.
use acos_chat.Base.{
  ℕ, ◌≤◌, ◌≡◌, ◌≢◌, refl, sym, ap, ◌∙◌, Bool, true, false, List, [], ◌∷◌, ◌++◌, Option, none, some,
  length, All, All-imp, if◌then◌else◌, ◌==◌, ◌>>=◌, arith,
}
use acos_chat.TsMap.Spec.{get}
use acos_chat.TsMap.Laws.{view}
use acos_chat.EventLoop.{Event, EventLoop, handled, deleted, event_loop_iteration}
use acos_chat.EventLoop.Dispatch.{Waiting, event_loop_iteration_lem}
use acos_chat.Server.Database.{Database}
use acos_chat.Server.Close.Effects.{close_connection_unknown}
use acos_chat.Server.Rounds.{
  Listener, Output, Revents, ready, close_connection_event_type, close_connection_event_handler,
  accept_ready, closing, polling_conns, after_poll, perform, iterate, round,
}
use acos_chat.Server.Rounds.Sound.{
  client, conn_of, IsSound, closing-Closed, with_loop-IsSound, accept_ready-IsSound,
  accept_ready-Elsewhere,
}
use acos_chat.Server.Rounds.Sockets.{polled-IsIdle, polled-Apart, polled_at}
use acos_chat.Server.Rounds.Keeps.{Kept, handle_sockets-Kept}

-- `accept` gives a socket that no client has.
abbrev pub IsNew : {W D : Type 0} → Listener W D → Option ℕ → Type 0
IsNew l none = Unit
IsNew l (some sockid) = client l sockid ≡ 0

-- What stays of the clients before.
abbrev Stays : {W D : Type 0} → Listener W D → Listener W D → ℕ → Type 0
Stays l after q = (client after q ≡ client l q) × (conn_of after q ≡ conn_of l q)

record Accepted {W D : Type 0} (l after : Listener W D) : Type 0 where
  pub sound : IsSound after
  pub stays : (q : ℕ) → client l q ≢ 0 → Stays l after q
  pub event_loop : after.event_loop ≡ l.event_loop

incoming-Accepted :
    {W D : Type 0} (l : Listener W D) (incoming : Bool) (accepted : Option ℕ)
    → IsSound l
    → IsNew l accepted
    → Accepted l (if incoming then accept_ready accepted l else l)
unfolding accept_ready
incoming-Accepted l true (some sockid) i new =
    let e = accept_ready-Elsewhere l i sockid new in
    record {
      sound = accept_ready-IsSound l i sockid new;
      stays = λ q m.
          let d : q ≢ sockid = λ z. m (ap (client l) z ∙ new) in (e.others q d, e.conns q d m);
      event_loop = refl;
    }
incoming-Accepted l true none i new = record {
  sound = i;
  stays = λ q m. (refl, refl);
  event_loop = refl;
}
incoming-Accepted l false accepted i new = record {
  sound = i;
  stays = λ q m. (refl, refl);
  event_loop = refl;
}

module _ {W D : Type 0} (api : Database D) (recv : W → ℕ → ℕ → W × List ℕ) (now : ℕ)
    (at_most : (w : W) (sockid n : ℕ) → length (recv w sockid n).1 ≤ n) (incoming : Bool)
    (revents : ℕ → Revents) (accepted : Option ℕ) (l : Listener W D) (i : IsSound l)
    (new : IsNew l accepted) where
  pub polled :
      Kept revents
        (polling_conns l)
        (if incoming then accept_ready accepted l else l)
        (after_poll api recv now incoming revents accepted l)
  unfolding after_poll
  polled =
      let a = incoming-Accepted l incoming accepted i new in
      handle_sockets-Kept api recv now at_most revents (polling_conns l)
        (if incoming then accept_ready accepted l else l) a.sound (polled-Apart l i)
        (All-imp (λ s f z. f.0 (sym (a.stays s f.0).0 ∙ z)) (polling_conns l) (polled-IsIdle l i))

  polled-Stays : (q : ℕ) → client l q ≢ 0 → (conn_of l q).in_worker ≡ true → Stays l polled.after q
  polled-Stays q m busy =
      let a = incoming-Accepted l incoming accepted i new in
      let kept = a.stays q m in
      let apart : All (λ s. q ≢ s) (polling_conns l) =
        All-imp (λ s f z. cc (busy, f.1, ap (λ p. (conn_of l p).in_worker) z)) (polling_conns l)
          (polled-IsIdle l i) in
      (polled.others q apart ∙ kept.0, polled.conns q apart (λ z. m (sym kept.0 ∙ z)) ∙ kept.1)

  polled_closes :
      (q : ℕ)
      → client l q ≢ 0
      → (conn_of l q).in_worker ≡ false
      → (revents q).broken ≡ true
      → client polled.after q ≡ 0
  polled_closes q m free =
      polled_at l i (λ s. (revents s).broken ≡ true → client polled.after s ≡ 0) q m free
        polled.hung

  -- The event of a socket to close waits in the listener's loop.
  module _ (evt : Event ℕ) (es : List (Event ℕ)) (waiting : Waiting l.event_loop (evt ∷ es))
      (type : evt.kind ≡ close_connection_event_type)
      (handler : get close_connection_event_type (view l.event_loop.handlers)
        ≡ close_connection_event_handler) where
    taken :
        (el : EventLoop ℕ) × (event_loop_iteration polled.after.event_loop
          ≡ some
              (el, handled close_connection_event_handler evt ∷ deleted evt.deleter evt ∷ [], true))
    taken =
        let same : polled.after.event_loop ≡ l.event_loop =
          polled.event_loop ∙ (incoming-Accepted l incoming accepted i new).event_loop in
        let once = event_loop_iteration_lem l.event_loop evt es waiting (ground (arith, type)) in
        let found : get evt.kind (view l.event_loop.handlers) ≡ close_connection_event_handler =
          ap (λ k. get k (view l.event_loop.handlers)) type ∙ handler in
        (
          once.0,
          ap event_loop_iteration same
              ∙ once.1
              ∙ ap
                  (λ n. some (
                    once.0,
                    if n == 0
                        then deleted evt.deleter evt ∷ []
                        else handled n evt ∷ deleted evt.deleter evt ∷ [],
                    true,
                  ))
                  found,
        )

    iterating : Listener W D
    iterating = record polled.after { event_loop = taken.0 }

    iterating-IsSound : IsSound iterating
    unfolding iterating
    iterating-IsSound = with_loop-IsSound polled.after taken.0 polled.sound

    performed :
        (result : Option (Listener W D × List Output))
        → closing api recv now evt.payload iterating ≡ result
        → round api recv now (ready incoming revents) accepted l
          ≡ (result >>= λ closed. some (closed.0, polled.outputs ++ (closed.1 ++ []), true))
    unfolding round iterate perform iterating
    performed none e = rw (polled.returns, taken.1, e) refl
    performed (some r) e = rw (polled.returns, taken.1, e) refl

    -- In a state where the listener's clients, their connections and the connection manager agree,
    -- with sockets that give at most as many bytes as asked for and a new client's socket that is
    -- no client's: a round in which `poll` reports something, while the next event of the
    -- listener's loop is to close a client whose message is at the workers and the table names its
    -- handler, returns and goes on. The state after it agrees too; that client is gone although
    -- its message is still at the workers; every other client with a message at the workers is as
    -- before; and every other client that is not there and is reported as hung up is gone.
    pub round_lem :
        client l evt.payload ≢ 0
        → (conn_of l evt.payload).in_worker ≡ true
        → (after : Listener W D) × (outputs : List Output) × (round api recv now
              (ready incoming revents)
              accepted
              l
            ≡ some (after, outputs, true))
          × IsSound after
          × (client after evt.payload ≡ 0)
          × ((q : ℕ)
              → q ≢ evt.payload
              → client l q ≢ 0
              → (conn_of l q).in_worker ≡ true
              → (client after q ≡ client l q) × (conn_of after q ≡ conn_of l q))
          × ((q : ℕ)
              → q ≢ evt.payload
              → client l q ≢ 0
              → (conn_of l q).in_worker ≡ false
              → (revents q).broken ≡ true
              → client after q ≡ 0)
    unfolding iterating
    round_lem there busy =
        let stays = polled-Stays evt.payload there busy in
        let c =
          closing-Closed api recv now evt.payload iterating iterating-IsSound
            (λ z. there (sym stays.0 ∙ z)) in
        (
          c.after,
          polled.outputs ++ (c.outputs ++ []),
          performed _ c.returns,
          c.sound,
          c.gone,
          λ q d m b.
              let kept = polled-Stays q m b in
              (
                c.elsewhere.others q d ∙ kept.0,
                c.elsewhere.conns q d (λ z. m (sym kept.0 ∙ z)) ∙ kept.1,
              ),
          λ q d m free b. c.elsewhere.others q d ∙ polled_closes q m free b,
        )

    -- Under the same conditions, but where the client to close has no message at the workers and
    -- `poll` reports it as hung up: it is closed twice in the round, and the second time reads
    -- through NULL.
    pub round_twice :
        client l evt.payload ≢ 0
        → (conn_of l evt.payload).in_worker ≡ false
        → (revents evt.payload).broken ≡ true
        → round api recv now (ready incoming revents) accepted l ≡ none
    unfolding iterating closing
    round_twice there free broken = performed none (
        rw
          (close_connection_unknown api now evt.payload iterating.listener polled.sound.clients
            (polled_closes evt.payload there free broken))
          refl)
