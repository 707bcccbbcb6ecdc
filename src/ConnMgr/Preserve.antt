-- ===== src/ConnMgr/Preserve.antt =====
-- Every operation that changes the manager keeps `Inv`.
use acos_chat.Base.{ℕ, ◌≡◌, ◌≢◌, sym, ap, ◌∙◌, false, if◌then◌else◌, ◌==◌, arith, if_both}
use acos_chat.TsMap.Spec.{has, get}
use acos_chat.TsMap.Ops.{TsMap}
use acos_chat.TsMap.Ops
use acos_chat.TsMap.Laws.{IsValid, view}
use acos_chat.TsMap.Laws
use acos_chat.ConnMgr.{ConnMgr, init, add_sid, detach}
use acos_chat.ConnMgr.Inv.{
  Inv, IsLive, known, owner, address, init-IsLive, has-init, get-init, insert-IsLive, erase-IsLive,
  find-IsLive, has-insert, get-insert, has-erase_key, get-erase_key,
}

pub init-Inv : Inv init
unfolding init get has
init-Inv = record {
  sids = init-IsLive;
  uids = init-IsLive;
  sessions = λ u n. absurd (n (get-init u));
  fresh = λ u. rw (get-init u) (omega arith);
  apart = λ u w n e. absurd (n (get-init u));
  registered = λ u h. absurd (cc (has-init u));
  nobody = get-init 0;
  owned = λ s n. absurd (n (get-init s));
  agree = λ u s n. absurd (n (get-init u));
}

-- `conn_mgr_add_sid` leaves a consistent manager consistent, whether the connection is known or
-- new.
pub add_sid-Inv : (c : ConnMgr) (sid : ℕ) → Inv c → Inv (add_sid c sid)
unfolding add_sid
add_sid-Inv c sid i = record {
  sids = insert-IsLive c.sid_to_uid i.sids sid 0;
  uids = i.uids;
  sessions = i.sessions;
  fresh = i.fresh;
  apart = i.apart;
  registered = i.registered;
  nobody = i.nobody;
  owned = λ s n. ground (arith, get-insert c.sid_to_uid i.sids s sid 0, i.owned s);
  agree = λ u s n. ground (
    arith,
    has-insert c.sid_to_uid i.sids s sid 0,
    get-insert c.sid_to_uid i.sids s sid 0,
    i.agree u s n,
    i.nobody,
  );
}

-- A connection leaves its user.
module _ (c : ConnMgr) (sid : ℕ) (i : Inv c) where
  abbrev uid : ℕ
  uid = (Ops.erase_key c.sid_to_uid sid).1

  uid-owner : (Ops.erase_key c.sid_to_uid sid).1 ≡ owner c sid
  uid-owner = Laws.erase_key_result c.sid_to_uid i.sids.valid sid i.sids.live

  pub known-detach : (s : ℕ) → known (detach c sid) s ≡ (if sid == s then false else known c s)
  unfolding detach
  known-detach s = has-erase_key c.sid_to_uid i.sids s sid

  pub owner-detach : (s : ℕ) → owner (detach c sid) s ≡ (if sid == s then 0 else owner c s)
  unfolding detach
  owner-detach s = get-erase_key c.sid_to_uid i.sids s sid

  pub address-detach : (u : ℕ) → address (detach c sid) u ≡ address c u
  unfolding detach
  address-detach u = ap (get u) (Laws.view-find_val c.uid_to_sid i.uids.valid uid)

  detach_maps :
      (p : ℕ)
      → (detach c sid).maps p ≡ (
          if address c (owner c sid) == 0
          then c.maps p
          else (if address c (owner c sid) == p
              then (Ops.erase_key (c.maps p) sid).0
              else c.maps p))
  unfolding detach
  detach_maps p = ground (arith, uid-owner, Laws.find_val_result c.uid_to_sid i.uids.valid uid)

  detach-IsLive : (p : ℕ) → IsLive (c.maps p) → IsLive ((detach c sid).maps p)
  detach-IsLive p h =
      rw (detach_maps p) (if_both IsLive _ h (if_both IsLive _ (erase-IsLive (c.maps p) h sid) h))

  -- The session maps of the connection's user lose it, and the others keep their connections.
  detach_session :
      (u s : ℕ)
      → address c u ≢ 0
      → has s (view ((detach c sid).maps (address c u)))
        ≡ (if sid == s then false else has s (view (c.maps (address c u))))
  detach_session u s n =
      ap (λ m. has s (view m)) (detach_maps (address c u))
      ∙ ground (
        arith,
        has-erase_key (c.maps (address c u)) (i.sessions u n) s sid,
        i.agree u sid n,
        i.apart u (owner c sid) n,
      )

  pub detach-Inv : Inv (detach c sid)
  unfolding detach
  detach-Inv = record {
    sids = erase-IsLive c.sid_to_uid i.sids sid;
    uids = find-IsLive c.uid_to_sid i.uids uid;
    sessions = λ u n.
        rw (address-detach u)
          (detach-IsLive (address c u) (i.sessions u (rw (address-detach u) at n)));
    fresh = λ u. rw (address-detach u) (i.fresh u);
    apart = λ u w n e. ground (arith, address-detach u, address-detach w, i.apart u w);
    registered = λ u h. ground (
      arith,
      address-detach u,
      i.registered u (sym (ap (has u) (Laws.view-find_val c.uid_to_sid i.uids.valid uid)) ∙ h),
    );
    nobody = address-detach 0 ∙ i.nobody;
    owned = λ s n. ground (
      arith,
      owner-detach s,
      address-detach (owner c s),
      address-detach (owner (detach c sid) s),
      i.owned s,
    );
    agree = λ u s n.
        ground (
          arith,
          address-detach u,
          detach_session u s,
          known-detach s,
          owner-detach s,
          i.agree u s,
        );
  }
