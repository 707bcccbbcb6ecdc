-- ===== src/ConnMgr/Connect.antt =====
-- `conn_mgr_connect_sid_uid`: a known connection moves to a registered user.
use acos_chat.Base.{
  refl, ℕ, ◌≡◌, ◌≢◌, sym, ap, ◌∙◌, inl, inr, false, ◌&&◌, ◌||◌, if◌then◌else◌, ◌==◌, arith,
  Bool-cases, if_both,
}
use acos_chat.TsMap.Spec.{has, get}
use acos_chat.TsMap.Ops
use acos_chat.TsMap.Laws.{view}
use acos_chat.TsMap.Laws
use acos_chat.ConnMgr.{ConnMgr, attach, detach, connect_sid_uid}
use acos_chat.ConnMgr.Inv.{
  Inv, IsLive, known, owner, address, insert-IsLive, find-IsLive, has-IsLive, has-insert,
  get-insert,
}
use acos_chat.ConnMgr.Preserve.{detach-Inv, known-detach, owner-detach, address-detach}

-- A connection that belongs to nobody, and is not listed, joins a registered user.
module _ (c : ConnMgr) (sid uid : ℕ) (i : Inv c) (new : known c sid ≡ false) where
  known-attach : (s : ℕ) → known (attach c sid uid) s ≡ ((sid == s) || known c s)
  unfolding attach
  known-attach s = has-insert c.sid_to_uid i.sids s sid uid

  owner-attach : (s : ℕ) → owner (attach c sid uid) s ≡ (if sid == s then uid else owner c s)
  unfolding attach
  owner-attach s = ground (arith, get-insert c.sid_to_uid i.sids s sid uid)

  address-attach : (u : ℕ) → address (attach c sid uid) u ≡ address c u
  unfolding attach
  address-attach u = ap (get u) (Laws.view-find_val c.uid_to_sid i.uids.valid uid)

  attach_maps :
      (p : ℕ)
      → (attach c sid uid).maps p ≡ (
          if address c uid == 0
          then c.maps p
          else (if address c uid == p then (Ops.insert (c.maps p) sid 0).0 else c.maps p))
  unfolding attach
  attach_maps p = ground (arith, Laws.find_val_result c.uid_to_sid i.uids.valid uid)

  attach-IsLive : (p : ℕ) → IsLive (c.maps p) → IsLive ((attach c sid uid).maps p)
  attach-IsLive p h =
      rw (attach_maps p)
        (if_both IsLive _ h (if_both IsLive _ (insert-IsLive (c.maps p) h sid 0) h))

  attach_session :
      (u s : ℕ)
      → address c u ≢ 0
      → has s (view ((attach c sid uid).maps (address c u)))
        ≡ (if sid == s then uid == u else has s (view (c.maps (address c u))))
  attach_session u s n =
      ap (λ m. has s (view m)) (attach_maps (address c u))
      ∙ ground (
        arith,
        has-insert (c.maps (address c u)) (i.sessions u n) s sid 0,
        i.agree u sid n,
        i.apart u uid n,
      )

  attach-Inv : address c uid ≢ 0 → Inv (attach c sid uid)
  unfolding attach
  attach-Inv r = record {
    sids = insert-IsLive c.sid_to_uid i.sids sid uid;
    uids = find-IsLive c.uid_to_sid i.uids uid;
    sessions = λ u n.
        rw (address-attach u)
          (attach-IsLive (address c u) (i.sessions u (rw (address-attach u) at n)));
    fresh = λ u. rw (address-attach u) (i.fresh u);
    apart = λ u w n e. ground (arith, address-attach u, address-attach w, i.apart u w);
    registered = λ u h. ground (
      arith,
      address-attach u,
      i.registered u (sym (ap (has u) (Laws.view-find_val c.uid_to_sid i.uids.valid uid)) ∙ h),
    );
    nobody = address-attach 0 ∙ i.nobody;
    owned = λ s n.
        ground (arith, owner-attach s, address-attach (owner (attach c sid uid) s), i.owned s);
    agree = λ u s n.
        ground (
          arith,
          address-attach u,
          attach_session u s,
          known-attach s,
          owner-attach s,
          i.agree u s,
        );
  }

looked : ConnMgr → ℕ → ConnMgr
looked c sid = record c { sid_to_uid = (Ops.has_val c.sid_to_uid sid).0 }

view-looked : (c : ConnMgr) (sid : ℕ) → Inv c → view (looked c sid).sid_to_uid ≡ view c.sid_to_uid
unfolding looked
view-looked c sid i = Laws.view-has_val c.sid_to_uid i.sids.valid sid

looked-Inv : (c : ConnMgr) (sid : ℕ) → Inv c → Inv (looked c sid)
unfolding looked
looked-Inv c sid i =
    let e = view-looked c sid i in
    record {
      sids = has-IsLive c.sid_to_uid i.sids sid;
      uids = i.uids;
      sessions = i.sessions;
      fresh = i.fresh;
      apart = i.apart;
      registered = i.registered;
      nobody = i.nobody;
      owned = λ s. rw (Laws.view-has_val c.sid_to_uid i.sids.valid sid) (i.owned s);
      agree = λ u s. rw (Laws.view-has_val c.sid_to_uid i.sids.valid sid) (i.agree u s);
    }

module _ (c : ConnMgr) (sid uid : ℕ) (i : Inv c) (r : address c uid ≢ 0) where
  gone : known (detach (looked c sid) sid) sid ≡ false
  gone = ground (arith, known-detach (looked c sid) sid (looked-Inv c sid i) sid)

  moved : ConnMgr
  moved = attach (detach (looked c sid) sid) sid uid

  connect_cases : connect_sid_uid c sid uid ≡ (if known c sid then moved else looked c sid)
  unfolding connect_sid_uid looked moved
  connect_cases = rw (Laws.has_val_result c.sid_to_uid i.sids.valid sid)

  moved-Inv : Inv moved
  unfolding moved looked
  moved-Inv =
      let j = looked-Inv c sid i in
      attach-Inv (detach (looked c sid) sid) sid uid (detach-Inv (looked c sid) sid j) gone
        (rw (address-detach (looked c sid) sid j uid) r)

  -- In a consistent manager where the user is registered, `conn_mgr_connect_sid_uid` leaves the
  -- manager consistent.
  pub connect_sid_uid-Inv : Inv (connect_sid_uid c sid uid)
  connect_sid_uid-Inv = rw connect_cases (if_both Inv _ moved-Inv (looked-Inv c sid i))

  known-looked : (s : ℕ) → known (looked c sid) s ≡ known c s
  known-looked s = ap (has s) (view-looked c sid i)

  owner-looked : (s : ℕ) → owner (looked c sid) s ≡ owner c s
  owner-looked s = ap (get s) (view-looked c sid i)

  moved_known : (s : ℕ) → known moved s ≡ ((sid == s) || known c s)
  unfolding moved
  moved_known s =
      let j = looked-Inv c sid i in
      known-attach (detach (looked c sid) sid) sid uid (detach-Inv (looked c sid) sid j) gone s
      ∙ ground (arith, known-detach (looked c sid) sid j s, known-looked s)

  moved_owner : (s : ℕ) → owner moved s ≡ (if sid == s then uid else owner c s)
  unfolding moved
  moved_owner s =
      let j = looked-Inv c sid i in
      owner-attach (detach (looked c sid) sid) sid uid (detach-Inv (looked c sid) sid j) gone s
      ∙ ground (arith, owner-detach (looked c sid) sid j s, owner-looked s)

  -- In a consistent manager where the user is registered, after `conn_mgr_connect_sid_uid` a known
  -- connection belongs to the user, an unknown one stays unknown; all other connections stay as
  -- known as they were and keep their owner.
  pub connect_sid_uid-owner :
      (s : ℕ)
      → (known (connect_sid_uid c sid uid) s ≡ known c s)
        × (owner (connect_sid_uid c sid uid) s
            ≡ (if known c sid && (sid == s) then uid else owner c s))
  connect_sid_uid-owner s = elim (Bool-cases (known c sid)) [
    | inl k ↦ rw (connect_cases, k) (moved_known s ∙ ground arith, moved_owner s)
    | inr k ↦ rw (connect_cases, k) (known-looked s, owner-looked s)
  ]

  address-moved : (u : ℕ) → address moved u ≡ address c u
  unfolding moved looked
  address-moved u =
      let j = looked-Inv c sid i in
      address-attach (detach (looked c sid) sid) sid uid (detach-Inv (looked c sid) sid j) gone u
      ∙ address-detach (looked c sid) sid j u

  address-looked : (u : ℕ) → address (looked c sid) u ≡ address c u
  unfolding looked
  address-looked u = refl

  pub address-connect_sid_uid : (u : ℕ) → address (connect_sid_uid c sid uid) u ≡ address c u
  address-connect_sid_uid u =
      ap (λ m. address m u) connect_cases
      ∙ if_both (λ m. address m u ≡ address c u) (known c sid) (address-moved u) (address-looked u)
