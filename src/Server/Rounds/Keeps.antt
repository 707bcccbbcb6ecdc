-- ===== src/Server/Rounds/Keeps.antt =====
-- A round keeps the listener sound, and touches only what is ready.
use acos_chat.Base.{
  ℕ, ◌≤◌, ◌≡◌, ◌≢◌, refl, sym, ap, ◌∙◌, inl, inr, Bool, true, false, List, [], ◌∷◌, ◌++◌, Option,
  some, length, All, ◌==◌, Bool-cases, subst, arith,
}
use acos_chat.TsMap.Laws.{view, fold_entries, forall_entries-fold}
use acos_chat.TsMap.Laws
use acos_chat.TsMap.Ops
use acos_chat.Server.Database.{Database}
use acos_chat.Server.Listener.{Verdict, waits, delivers, closed, faults, process_connection}
use acos_chat.Server.Rounds.{
  Listener, Output, Revents, input_msg, look_up, settle, process_ready, handle_socket,
  handle_sockets,
}
use acos_chat.Server.Rounds.Buffers.{Leaves, process_connection-Leaves}
use acos_chat.Server.Rounds.Sockets.{Apart, All-both}
use acos_chat.Server.Rounds.Sound.{client, conn_of, IsSound, Elsewhere, closing-Closed}
use acos_chat.Server.Rounds.Written.{
  found_in, wrote, wrote-IsSound, wrote-Elsewhere, same_found, looked_up-IsSound,
}

-- What a step for one socket returns.
pub record Handled {W D : Type 0} (broken : Bool) (sockid : ℕ) (l : Listener W D)
    (result : Option (Listener W D × List Output)) : Type 0 where
  pub after : Listener W D
  pub outputs : List Output
  pub returns : result ≡ some (after, outputs)
  pub sound : IsSound after
  pub elsewhere : Elsewhere sockid l after
  pub gone : broken ≡ true → client after sockid ≡ 0

module _ {W D : Type 0} (api : Database D) (recv : W → ℕ → ℕ → W × List ℕ) (now : ℕ)
    (at_most : (w : W) (sockid n : ℕ) → length (recv w sockid n).1 ≤ n) where
  settle-Handled :
      (sockid : ℕ) (l : Listener W D) (r : W × Verdict)
      → IsSound l
      → client l sockid ≢ 0
      → Leaves sockid r
      → Handled false sockid l (settle api recv now sockid (client l sockid) r (look_up sockid l))
  unfolding settle look_up
  settle-Handled sockid l (w, waits c) i n r = record {
    after = wrote l sockid c w;
    outputs = [];
    returns = refl;
    sound = wrote-IsSound l i sockid w c n r.0 r.1;
    elsewhere = wrote-Elsewhere l i sockid w c n;
    gone = λ b. cc;
  }
  settle-Handled sockid l (w, delivers c) i n r = record {
    after = wrote l sockid c w;
    outputs = input_msg (client l sockid) ∷ [];
    returns = refl;
    sound = wrote-IsSound l i sockid w c n r.0 r.1;
    elsewhere = wrote-Elsewhere l i sockid w c n;
    gone = λ b. cc;
  }
  settle-Handled sockid l (w, closed) i n r =
      let found = found_in l sockid w in
      let same = same_found l i sockid w in
      let c =
        closing-Closed api recv now sockid found (looked_up-IsSound l i sockid w)
          (λ z. n (sym (same sockid) ∙ z)) in
      record {
        after = c.after;
        outputs = c.outputs;
        returns = c.returns;
        sound = c.sound;
        elsewhere = record {
          others = λ q d. c.elsewhere.others q d ∙ same q;
          conns = λ q d m. c.elsewhere.conns q d (λ z. m (sym (same q) ∙ z)) ∙ ap l.conns (same q);
          event_loop = c.elsewhere.event_loop;
        };
        gone = λ b. cc;
      }
  settle-Handled sockid l (w, faults) i n r = absurd r

  process_ready-Handled :
      (sockid : ℕ) (l : Listener W D)
      → IsSound l
      → client l sockid ≢ 0
      → Handled false sockid l (process_ready api recv now sockid l)
  unfolding process_ready
  process_ready-Handled sockid l i n =
      let some_client : ((Ops.find_val l.listener.clients sockid).1 == 0) ≡ false =
        ground (arith, Laws.find_val_result l.listener.clients i.clients.valid sockid) in
      rw (some_client, Laws.find_val_result l.listener.clients i.clients.valid sockid)
        (settle-Handled sockid l _ i n (
          subst
            (λ id.
              Leaves id (process_connection (λ w n. recv w sockid n) l.world (conn_of l sockid)))
            (i.named sockid n)
            (process_connection-Leaves (λ w n. recv w sockid n) (λ w n. at_most w sockid n) l.world
              (conn_of l sockid) (i.reads sockid n))))

  handle_socket-Handled :
      (revents : Revents) (sockid : ℕ) (l : Listener W D)
      → IsSound l
      → client l sockid ≢ 0
      → Handled revents.broken sockid l (handle_socket api recv now revents sockid l)
  unfolding handle_socket
  handle_socket-Handled revents sockid l i n = elim (Bool-cases revents.broken) [
    | inl e ↦
        let c = closing-Closed api recv now sockid l i n in
        rw e (record {
          after = c.after;
          outputs = c.outputs;
          returns = c.returns;
          sound = c.sound;
          elsewhere = c.elsewhere;
          gone = λ b. c.gone;
        })
    | inr e ↦ elim (Bool-cases revents.readable) [
      | inl f ↦ rw (e, f) (process_ready-Handled sockid l i n)
      | inr f ↦
          rw (e, f)
            (record {
              after = l;
              outputs = [];
              returns = refl;
              sound = i;
              elsewhere = record { others = λ q d. refl; conns = λ q d m. refl; event_loop = refl };
              gone = λ b. cc;
            })
    ]
  ]

-- What a round's loop over the sockets returns.
pub record Kept {W D : Type 0} (revents : ℕ → Revents) (ss : List ℕ) (l : Listener W D)
    (result : Option (Listener W D × List Output)) : Type 0 where
  pub after : Listener W D
  pub outputs : List Output
  pub returns : result ≡ some (after, outputs)
  pub sound : IsSound after
  pub others : (q : ℕ) → All (λ s. q ≢ s) ss → client after q ≡ client l q
  pub conns : (q : ℕ) → All (λ s. q ≢ s) ss → client l q ≢ 0 → conn_of after q ≡ conn_of l q
  pub event_loop : after.event_loop ≡ l.event_loop
  pub hung : All (λ s. (revents s).broken ≡ true → client after s ≡ 0) ss

module _ {W D : Type 0} (api : Database D) (recv : W → ℕ → ℕ → W × List ℕ) (now : ℕ)
    (at_most : (w : W) (sockid n : ℕ) → length (recv w sockid n).1 ≤ n)
    (revents : ℕ → Revents) where
  pub handle_sockets-Kept :
      (ss : List ℕ) (l : Listener W D)
      → IsSound l
      → Apart ss
      → All (λ s. client l s ≢ 0) ss
      → Kept revents ss l (handle_sockets api recv now revents ss l)
  unfolding handle_sockets
  handle_sockets-Kept [] l i a n = record {
    after = l;
    outputs = [];
    returns = refl;
    sound = i;
    others = λ q d. refl;
    conns = λ q d m. refl;
    event_loop = refl;
    hung = tt;
  }
  handle_sockets-Kept (s ∷ ss) l i a n =
      let first = handle_socket-Handled api recv now at_most (revents s) s l i n.0 in
      let still =
        All-both {P = λ q. s ≢ q} {Q = λ q. client l q ≢ 0} {R = λ q. client first.after q ≢ 0}
          (λ q d m z. m (sym (first.elsewhere.others q (λ e. d (sym e))) ∙ z)) ss a.0 n.1 in
      let rest = handle_sockets-Kept ss first.after first.sound a.1 still in
      record {
        after = rest.after;
        outputs = first.outputs ++ rest.outputs;
        returns = rw first.returns (rw rest.returns refl);
        sound = rest.sound;
        others = λ q d. rest.others q d.1 ∙ first.elsewhere.others q d.0;
        conns = λ q d m.
            rest.conns q d.1 (λ z. m (sym (first.elsewhere.others q d.0) ∙ z))
            ∙ first.elsewhere.conns q d.0 m;
        event_loop = rest.event_loop ∙ first.elsewhere.event_loop;
        hung = (λ b. rest.others s a.0 ∙ first.gone b, rest.hung);
      }
