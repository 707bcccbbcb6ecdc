-- ===== src/Server/Rounds/Written.antt =====
-- Writing a client's connection keeps the listener sound.
use acos_chat.Base.{
  ℕ, ◌≡◌, ◌≢◌, refl, sym, ap, ◌∙◌, inl, inr, if◌then◌else◌, ◌==◌, Bool-cases, subst, arith,
}
use acos_chat.TsMap.Spec.{get}
use acos_chat.TsMap.Laws.{view}
use acos_chat.TsMap.Laws
use acos_chat.ConnMgr.Inv.{find-IsLive}
use acos_chat.Server.Listener.{Connection}
use acos_chat.Server.Rounds.{Listener, write_conn, look_up}
use acos_chat.Server.Rounds.Buffers.{IsRead}
use acos_chat.Server.Rounds.Sound.{client, conn_of, IsSound, Elsewhere, same_client}

-- The client's connection is written.
abbrev pub with_conn : {W D : Type 0} → Listener W D → ℕ → Connection → Listener W D
with_conn l sockid c = record l { conns = write_conn l.conns (client l sockid) c }

module _ {W D : Type 0} (l : Listener W D) (i : IsSound l) (sockid : ℕ) (c : Connection)
    (there : client l sockid ≢ 0) where
  pub written_conn :
      (q : ℕ)
      → client l q ≢ 0
      → conn_of (with_conn l sockid c) q ≡ (if sockid == q then c else conn_of l q)
  written_conn q m = ground (arith, same_client l i sockid q there)

  written_both :
      IsRead c
      → c.sockid ≡ sockid
      → (q : ℕ) → client l q ≢ 0
      → IsRead (conn_of (with_conn l sockid c) q) × ((conn_of (with_conn l sockid c) q).sockid ≡ q)
  written_both r n q m = elim (Bool-cases (sockid == q)) [
    | inl e ↦
        let conn : conn_of (with_conn l sockid c) q ≡ c =
          written_conn q m ∙ ap (λ b. if b then c else conn_of l q) e in
        rw conn (r, ground (arith, n, e))
    | inr e ↦
        let conn : conn_of (with_conn l sockid c) q ≡ conn_of l q =
          written_conn q m ∙ ap (λ b. if b then c else conn_of l q) e in
        rw conn (i.reads q m, i.named q m)
  ]

  pub with_conn-IsSound : IsRead c → c.sockid ≡ sockid → IsSound (with_conn l sockid c)
  with_conn-IsSound r n = record {
    mgr = i.mgr;
    clients = i.clients;
    same = i.same;
    present = i.present;
    named = λ q m. (written_both r n q m).1;
    bounded = i.bounded;
    reads = λ q m. (written_both r n q m).0;
  }

-- The connection of a client after a read of it.
abbrev pub found_in : {W D : Type 0} → Listener W D → ℕ → W → Listener W D
found_in l sockid w = let found = look_up sockid l in record found { world = w }

abbrev pub wrote : {W D : Type 0} → Listener W D → ℕ → Connection → W → Listener W D
wrote l sockid c w =
    let found = found_in l sockid w in
    record found { conns = write_conn l.conns (client l sockid) c }

module _ {W D : Type 0} (l : Listener W D) (i : IsSound l) (sockid : ℕ) (w : W) where
  pub looked_up : view (look_up sockid l).listener.clients ≡ view l.listener.clients
  unfolding look_up
  looked_up = Laws.view-find_val l.listener.clients i.clients.valid sockid

  pub same_found : (q : ℕ) → client (found_in l sockid w) q ≡ client l q
  same_found q = ap (get q) looked_up

  pub looked_up-IsSound : IsSound (found_in l sockid w)
  unfolding look_up
  looked_up-IsSound = record {
    mgr = i.mgr;
    clients = find-IsLive l.listener.clients i.clients sockid;
    same = λ q. rw looked_up (i.same q);
    present = λ q. rw looked_up (i.present q);
    named = λ q. rw looked_up (i.named q);
    bounded = λ q. rw looked_up (i.bounded q);
    reads = λ q. rw looked_up (i.reads q);
  }

  module _ (c : Connection) (there : client l sockid ≢ 0) where
    still_there : client (found_in l sockid w) sockid ≢ 0
    still_there z = there (sym (same_found sockid) ∙ z)

    same_write : with_conn (found_in l sockid w) sockid c ≡ wrote l sockid c w
    unfolding look_up
    same_write =
        ap (λ a. let found = found_in l sockid w in record found { conns = write_conn l.conns a c })
          (same_found sockid)

    pub wrote-IsSound : IsRead c → c.sockid ≡ sockid → IsSound (wrote l sockid c w)
    wrote-IsSound r n =
        subst IsSound same_write
          (with_conn-IsSound (found_in l sockid w) looked_up-IsSound sockid c still_there r n)

    pub wrote-Elsewhere : Elsewhere sockid l (wrote l sockid c w)
    unfolding look_up
    wrote-Elsewhere = record {
      others = λ q d. same_found q;
      conns = λ q d m.
          ap (wrote l sockid c w).conns (same_found q)
          ∙ ground (arith, same_client l i sockid q there);
      event_loop = refl;
    }
