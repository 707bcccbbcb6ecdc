-- ===== src/Server/System/Keeps.antt =====
-- Every step keeps the listener sound.
use acos_chat.Base.{
  ℕ, ◌≤◌, ◌≡◌, ◌≢◌, refl, sym, ap, ◌∙◌, subst, Bool, true, false, List, [], ◌∷◌, ◌++◌, map, Option,
  none, some, ◌>>=◌, >>=-eq-some, length, All, if◌then◌else◌, ◌==◌, Bool-cases, inl, inr, arith,
}
use acos_chat.Base.Int.{pos}
use acos_chat.TsMap.Spec.{get, has}
use acos_chat.ConnMgr.Inv.{Inv, known, init-IsLive, get-init, has-init}
use acos_chat.EventLoop.{EventLoop, Did, handled, deleted, event_loop_iteration}
use acos_chat.Server.Database.{Database}
use acos_chat.Server.Close.Effects.{close_connection_unknown}
use acos_chat.Server.Process.{Shared}
use acos_chat.Server.Process.Keeps.{process_message-Inv, process_message-known}
use acos_chat.Server.Input.{input_msg_event_deleter, process_message_job_deleter}
use acos_chat.Server.Rounds.{
  Listener, Polled, Output, does, Revents, failed, quiet, ready, closing, perform, iterate,
  after_poll, round, close_connection_event_handler,
}
use acos_chat.Server.Rounds.Sound.{client, IsSound, closing-Closed, with_loop-IsSound}
use acos_chat.Server.Rounds.Written.{with_conn-IsSound}
use acos_chat.Server.Rounds.Events.{IsNew, polled}
use acos_chat.Server.Start.Users.{uids_of, prepare_conn_mgr_lem}
use acos_chat.Server.System.{
  start, after_job, Step, Reach, polls, works, takes, frees, begins, later,
}

module _ {W D : Type 0} (api : Database D) (recv : W → ℕ → ℕ → W × List ℕ) (now : ℕ) where
  abbrev Result : Type 0
  Result = Listener W D × List Output

  closing-IsSound :
      (sockid : ℕ) (l : Listener W D) (r : Result)
      → IsSound l
      → closing api recv now sockid l ≡ some r
      → IsSound r.0
  unfolding closing
  closing-IsSound sockid l r i e = elim (Bool-cases (client l sockid == 0)) [
    | inl gone ↦
        let missing =
          close_connection_unknown api now sockid l.listener i.clients (ground (arith, gone)) in
        absurd (
          cc (
            sym (ap (λ o. o >>= λ c. some (record l { listener = c.0 }, map does c.1)) missing)
            ∙ e))
    | inr there ↦
        let c = closing-Closed api recv now sockid l i (ground (arith, there)) in
        let same : (c.after, c.outputs) ≡ r = cc (sym c.returns ∙ e) in
        subst (λ (q : Result). IsSound q.0) same c.sound
  ]

  perform-IsSound :
      (did : List (Did ℕ)) (l : Listener W D) (r : Result)
      → IsSound l
      → perform api recv now did l ≡ some r
      → IsSound r.0
  unfolding perform
  perform-IsSound [] l r i e =
      let same : ◌≡◌ {A = Result} (l, []) r = cc e in subst (λ (q : Result). IsSound q.0) same i
  perform-IsSound (deleted f evt ∷ rest) l r i e = perform-IsSound rest l r i e
  perform-IsSound (handled f evt ∷ rest) l r i e =
      let called : Option Result =
        if f == close_connection_event_handler then closing api recv now evt.payload l else none in
      let rest_of : Result → Option Result =
        λ a. perform api recv now rest a.0 >>= λ b. some (b.0, a.1 ++ b.1) in
      let first = >>=-eq-some called rest_of e in
      let others =
        >>=-eq-some (perform api recv now rest first.0.0)
          (λ b. let both : Result = (b.0, first.0.1 ++ b.1) in some both) first.2 in
      let closes : closing api recv now evt.payload l ≡ some first.0 =
        chosen (f == close_connection_event_handler) first.1 in
      let sound = closing-IsSound evt.payload l first.0 i closes in
      let last = perform-IsSound rest first.0.0 others.0 sound others.1 in
      let same : ◌≡◌ {A = Result} (others.0.0, first.0.1 ++ others.0.1) r = cc others.2 in
      subst (λ (q : Result). IsSound q.0) same last
    where
      chosen :
          (b : Bool) {o : Option Result} {a : Result}
          → (if b then o else none) ≡ some a
          → o ≡ some a
      chosen true h = h
      chosen false h = absurd (cc h)

  -- A round's result with whether it goes on.
  abbrev Round : Type 0
  Round = Listener W D × List Output × Bool

  iterate-IsSound :
      (l : Listener W D) (r : Round) → IsSound l → iterate api recv now l ≡ some r → IsSound r.0
  unfolding iterate
  iterate-IsSound l r i e =
      let once =
        >>=-eq-some (event_loop_iteration l.event_loop)
          (λ once. perform api recv now once.1 (record l { event_loop = once.0 }) >>= λ after.
            let end : Round = (after.0, after.1, once.2) in some end)
          e in
      let after =
        >>=-eq-some (perform api recv now once.0.1 (record l { event_loop = once.0.0 }))
          (λ after. let end : Round = (after.0, after.1, once.0.2) in some end) once.2 in
      let sound =
        perform-IsSound once.0.1 (record l { event_loop = once.0.0 }) after.0
          (with_loop-IsSound l once.0.0 i) after.1 in
      let same : ◌≡◌ {A = Round} (after.0.0, after.0.1, once.0.2) r = cc after.2 in
      subst (λ (q : Round). IsSound q.0) same sound

  round-IsSound :
      ((w : W) (sockid n : ℕ) → length (recv w sockid n).1 ≤ n)
      → (p : Polled) (accepted : Option ℕ) (l : Listener W D) (r : Round) → IsSound l
      → IsNew l accepted
      → round api recv now p accepted l ≡ some r
      → IsSound r.0
  unfolding round
  round-IsSound at_most failed accepted l r i new e =
      let same : ◌≡◌ {A = Round} (l, [], false) r = cc e in
      subst (λ (q : Round). IsSound q.0) same i
  round-IsSound at_most quiet accepted l r i new e = iterate-IsSound l r i e
  round-IsSound at_most (ready incoming revents) accepted l r i new e =
      let p = polled api recv now at_most incoming revents accepted l i new in
      let first =
        >>=-eq-some (after_poll api recv now incoming revents accepted l)
          (λ a. iterate api recv now a.0 >>= λ after.
            let end : Round = (after.0, a.1 ++ after.1, after.2) in some end)
          e in
      let after =
        >>=-eq-some (iterate api recv now first.0.0)
          (λ after. let end : Round = (after.0, first.0.1 ++ after.1, after.2) in some end)
          first.2 in
      let reached : ◌≡◌ {A = Result} (p.after, p.outputs) first.0 = cc (p.returns, first.1) in
      let sound =
        iterate-IsSound first.0.0 after.0 (subst (λ (q : Result). IsSound q.0) reached p.sound)
          after.1 in
      let same : ◌≡◌ {A = Round} (after.0.0, first.0.1 ++ after.0.1, after.0.2) r = cc after.2 in
      subst (λ (q : Round). IsSound q.0) same sound

after_job-IsSound :
    {W D : Type 0} (l : Listener W D) (shared : Shared D) (el : EventLoop ℕ)
    → IsSound l
    → Inv shared.conn_mgr
    → ((q : ℕ) → known shared.conn_mgr q ≡ known l.listener.shared.conn_mgr q)
    → IsSound (after_job l shared el)
after_job-IsSound l shared el i j same = record {
  mgr = j;
  clients = i.clients;
  same = λ q. same q ∙ i.same q;
  present = i.present;
  named = i.named;
  bounded = i.bounded;
  reads = i.reads;
}

start-IsSound :
    {W D : Type 0} (atoi : List ℕ → ℕ) (rows : List (List (List ℕ))) (db : D) (world : W)
    → All (λ u. u ≢ 0) (uids_of atoi rows)
    → IsSound (start atoi rows db world)
unfolding start get has
start-IsSound atoi rows db world h =
    let begun = prepare_conn_mgr_lem atoi rows h in
    record {
      mgr = begun.0;
      clients = init-IsLive;
      same = λ q. (begun.1 q).0 ∙ rw (get-init q) refl;
      present = λ q. rw (get-init q) (has-init q);
      named = λ q m. absurd (m (get-init q));
      bounded = λ q. rw (get-init q) (omega arith);
      reads = λ q m. absurd (m (get-init q));
    }

module _ {W D : Type 0} (api : Database D) (recv : W → ℕ → ℕ → W × List ℕ)
    (at_most : (w : W) (sockid n : ℕ) → length (recv w sockid n).1 ≤ n)
    (users : (d : D) (login passwd : List ℕ)
      → (api.login_or_register d login passwd).1 ≢ pos 0) where
  step-IsSound : {l after : Listener W D} → Step api recv l after → IsSound l → IsSound after
  unfolding input_msg_event_deleter process_message_job_deleter
  step-IsSound (polls now p accepted after outputs on new e) i =
      round-IsSound api recv now at_most p accepted _ (after, outputs, on) i new e
  step-IsSound (works now job shared effects el e sent) i =
      after_job-IsSound _ shared el i
        (process_message-Inv api now job _ (shared, effects) i.mgr users e)
        (process_message-known api now job _ (shared, effects) i.mgr users e)
  step-IsSound (takes sockid there) i =
      with_conn-IsSound _ i sockid _ there
        (record { header = λ h. (refl, refl); whole = λ h. absurd (omega arith) })
        (i.named sockid there)
  step-IsSound (frees sockid there) i =
      with_conn-IsSound _ i sockid _ there
        (record { header = (i.reads sockid there).header; whole = (i.reads sockid there).whole })
        (i.named sockid there)

  pub reach-IsSound : {l : Listener W D} → Reach api recv l → IsSound l
  reach-IsSound (begins atoi rows db world h) = start-IsSound atoi rows db world h
  reach-IsSound (later r st) = step-IsSound st (reach-IsSound r)

  -- Where `recv` gives at most as many bytes as asked for and the data base never answers a login
  -- with the uid 0: in every state that the server reaches from its start with a table of users
  -- without the uid 0, by rounds of the listener in which `accept` gives no socket of a client,
  -- handled messages and connections that the controller and the workers give back, in any order,
  -- the connection manager is consistent and knows exactly the listener's clients, and each client
  -- has a connection of its own that bears its socket and is read so far as its counts say. From
  -- there, all that such a round does with its sockets, before it takes an event of its loop,
  -- returns.
  pub server-IsSound :
      {l : Listener W D} (now : ℕ) (incoming : Bool) (revents : ℕ → Revents) (accepted : Option ℕ)
      → Reach api recv l
      → IsNew l accepted
      → IsSound l
        × ((r : Listener W D × List Output) × (after_poll api recv now incoming revents accepted l
              ≡ some r))
  server-IsSound {l} now incoming revents accepted reached new =
      let i = reach-IsSound reached in
      let p = polled api recv now at_most incoming revents accepted l i new in
      (i, ((p.after, p.outputs), p.returns))
