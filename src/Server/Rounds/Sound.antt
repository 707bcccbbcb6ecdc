-- ===== src/Server/Rounds/Sound.antt =====
-- The listener's clients, their connections and the connection manager agree, and closing and accepting
-- keep it so.
use acos_chat.Base.{
  ℕ, ◌<◌, ◌≡◌, ◌≢◌, refl, sym, ap, ◌∙◌, inl, inr, not, List, some, map, if◌then◌else◌, ◌==◌, ◌||◌,
  Bool-cases, subst, arith,
}
use acos_chat.TsMap.Spec.{get, has}
use acos_chat.TsMap.Laws.{view}
use acos_chat.TsMap.Reference.{has-erase, get-erase}
use acos_chat.EventLoop.{EventLoop}
use acos_chat.ConnMgr.Inv.{Inv, IsLive, known, insert-IsLive, has-insert, get-insert}
use acos_chat.ConnMgr.{add_sid}
use acos_chat.ConnMgr.Preserve.{add_sid-Inv}
use acos_chat.Server.Database.{Database}
use acos_chat.Server.Listener.{Connection, new_connection}
use acos_chat.Server.Close.{accept_connection}
use acos_chat.Server.Close.Effects.{close_connection_lem, close_connection-IsLive}
use acos_chat.Server.Rounds.{Listener, Output, does, write_conn, accept_ready, closing}
use acos_chat.Server.Rounds.Buffers.{IsRead}

-- The address of a client's connection, 0 for none; its connection.
abbrev pub client : {W D : Type 0} → Listener W D → ℕ → ℕ
client l s = get s (view l.listener.clients)

abbrev pub conn_of : {W D : Type 0} → Listener W D → ℕ → Connection
conn_of l s = l.conns (client l s)

-- A client is what the manager knows; its connection is its own, bears its socket and is read so far.
pub record IsSound {W D : Type 0} (l : Listener W D) : Type 0 where
  pub mgr : Inv l.listener.shared.conn_mgr
  pub clients : IsLive l.listener.clients
  pub same : (s : ℕ) → known l.listener.shared.conn_mgr s ≡ not (client l s == 0)
  pub present : (s : ℕ) → has s (view l.listener.clients) ≡ not (client l s == 0)
  pub named : (s : ℕ) → client l s ≢ 0 → (conn_of l s).sockid ≡ s
  pub bounded : (s : ℕ) → client l s < l.next
  pub reads : (s : ℕ) → client l s ≢ 0 → IsRead (conn_of l s)

-- Two clients at one address are one.
pub same_client :
    {W D : Type 0} (l : Listener W D)
    → IsSound l
    → (s q : ℕ) → client l s ≢ 0
    → client l s ≡ client l q
    → s ≡ q
same_client l i s q n e =
    sym (i.named s n) ∙ ap (λ a. (l.conns a).sockid) e ∙ i.named q (λ z. n (e ∙ z))

-- Only the client with this socket is touched, and it is no new one.
pub record Elsewhere {W D : Type 0} (sockid : ℕ) (l after : Listener W D) : Type 0 where
  pub others : (q : ℕ) → q ≢ sockid → client after q ≡ client l q
  pub conns : (q : ℕ) → q ≢ sockid → client l q ≢ 0 → conn_of after q ≡ conn_of l q
  pub event_loop : after.event_loop ≡ l.event_loop

module _ {W D : Type 0} (api : Database D) (recv : W → ℕ → ℕ → W × List ℕ) (now : ℕ) where
  pub record Closed (sockid : ℕ) (l : Listener W D) : Type 0 where
    pub after : Listener W D
    pub outputs : List Output
    pub returns : closing api recv now sockid l ≡ some (after, outputs)
    pub sound : IsSound after
    pub elsewhere : Elsewhere sockid l after
    pub gone : client after sockid ≡ 0

  pub closing-Closed :
      (sockid : ℕ) (l : Listener W D) → IsSound l → client l sockid ≢ 0 → Closed sockid l
  unfolding closing
  closing-Closed sockid l i n =
      let c = close_connection_lem api now sockid l.listener i.mgr i.clients n in
      let after : Listener W D = record l { listener = c.0 } in
      let addresses : (q : ℕ) → client after q ≡ (if sockid == q then 0 else client l q) = λ q.
        ap (get q) c.5 ∙ get-erase q sockid (view l.listener.clients) i.clients.valid.ascending in
      record {
        after = after;
        outputs = map does c.1;
        returns = rw c.2 refl;
        sound = record {
          mgr = c.3;
          clients = close_connection-IsLive api now sockid l.listener c.0 c.1 c.2 i.clients;
          same = λ q. ground (arith, addresses q, (c.4 q).0, i.same q);
          present = λ q. ground (
            arith,
            addresses q,
            i.present q,
            ap (has q) c.5 ∙ has-erase q sockid (view l.listener.clients) i.clients.valid.ascending,
          );
          named = λ q m. ground (arith, addresses q, i.named q);
          bounded = λ q. ground (arith, addresses q, i.bounded q, i.bounded sockid);
          reads = λ q m.
              let there : client after q ≡ client l q = ground (arith, addresses q) in
              subst (λ a. IsRead (l.conns a)) (sym there) (i.reads q (λ z. m (there ∙ z)));
        };
        elsewhere = record {
          others = λ q d. ground (arith, addresses q);
          conns = λ q d m. ap l.conns (ground (arith, addresses q));
          event_loop = refl;
        };
        gone = ground (arith, addresses sockid);
      }

-- A client at an address below the next is not the one that is written there.
old_conn :
    {W D : Type 0} (l : Listener W D) (conn : Connection) (address : ℕ)
    → address < l.next
    → write_conn l.conns l.next conn address ≡ l.conns address
old_conn l conn address h = ground arith

module _ {W D : Type 0} (l : Listener W D) (i : IsSound l) (sockid : ℕ)
    (new : client l sockid ≡ 0) where
  accepted : Listener W D
  unfolding accept_ready accept_connection
  accepted = accept_ready (some sockid) l

  accepted-client : (q : ℕ) → client accepted q ≡ (if sockid == q then l.next else client l q)
  unfolding accepted
  accepted-client q =
      ground (arith, get-insert l.listener.clients i.clients q sockid l.next, i.present sockid, new)

  accepted_conn :
      (q : ℕ)
      → client accepted q ≢ 0
      → IsRead (conn_of accepted q) × ((conn_of accepted q).sockid ≡ q)
  unfolding accepted new_connection
  accepted_conn q m = elim (Bool-cases (sockid == q)) [
    | inl e ↦
        let there : client accepted q ≡ l.next =
          accepted-client q ∙ ap (λ b. if b then l.next else client l q) e in
        let conn : conn_of accepted q ≡ new_connection sockid =
          ap accepted.conns there ∙ ground arith in
        rw conn
          (record { header = λ h. ground arith; whole = λ h. absurd (omega arith) }, ground arith)
    | inr e ↦
        let there : client accepted q ≡ client l q =
          accepted-client q ∙ ap (λ b. if b then l.next else client l q) e in
        let conn : conn_of accepted q ≡ conn_of l q =
          ap accepted.conns there ∙ old_conn l (new_connection sockid) (client l q) (i.bounded q) in
        let old : client l q ≢ 0 = λ z. m (there ∙ z) in rw conn (i.reads q old, i.named q old)
  ]

  accepted_known :
      (q : ℕ)
      → known accepted.listener.shared.conn_mgr q
        ≡ ((sockid == q) || known l.listener.shared.conn_mgr q)
  unfolding accepted add_sid
  accepted_known q = has-insert l.listener.shared.conn_mgr.sid_to_uid i.mgr.sids q sockid 0

  pub accept_ready-IsSound : IsSound (accept_ready (some sockid) l)
  unfolding accepted
  accept_ready-IsSound = record {
    mgr = add_sid-Inv l.listener.shared.conn_mgr sockid i.mgr;
    clients = insert-IsLive l.listener.clients i.clients sockid l.next;
    same = λ q. ground (arith, accepted-client q, accepted_known q, i.same q, i.bounded q);
    present = λ q. ground (
      arith,
      accepted-client q,
      i.present q,
      i.bounded q,
      has-insert l.listener.clients i.clients q sockid l.next,
    );
    named = λ q m. (accepted_conn q m).1;
    bounded = λ q. ground (arith, accepted-client q, i.bounded q);
    reads = λ q m. (accepted_conn q m).0;
  }

  pub accept_ready-Elsewhere : Elsewhere sockid l (accept_ready (some sockid) l)
  unfolding accepted
  accept_ready-Elsewhere = record {
    others = λ q d. ground (arith, accepted-client q);
    conns = λ q d m.
        ap (accept_ready (some sockid) l).conns (ground (arith, accepted-client q))
        ∙ old_conn l (new_connection sockid) (client l q) (i.bounded q);
    event_loop = refl;
  }

-- The queue of the loop does not matter.
pub with_loop-IsSound :
    {W D : Type 0} (l : Listener W D) (el : EventLoop ℕ)
    → IsSound l
    → IsSound (record l { event_loop = el })
with_loop-IsSound l el i = record {
  mgr = i.mgr;
  clients = i.clients;
  same = i.same;
  present = i.present;
  named = i.named;
  bounded = i.bounded;
  reads = i.reads;
}
