-- ===== src/ConnMgr/Inv.antt =====
-- The two directions of the manager agree, and every operation keeps them so.
use acos_chat.Base.{ℕ, ◌<◌, ◌≡◌, ◌≢◌, ap, ◌∙◌, Bool, true, false, ◌&&◌, ◌||◌, if◌then◌else◌, ◌==◌}
use acos_chat.TsMap.Spec.{has, get}
use acos_chat.TsMap.Reference.{has-put_new, get-put_new, has-erase, get-erase}
use acos_chat.TsMap.Ops.{TsMap}
use acos_chat.TsMap.Ops
use acos_chat.TsMap.Laws.{IsValid, view}
use acos_chat.TsMap.Laws
use acos_chat.ConnMgr.{ConnMgr}

-- A connection is known; the uid it belongs to; the address of a user's session map, 0 for none.
abbrev pub known : ConnMgr → ℕ → Bool
known c s = has s (view c.sid_to_uid)

abbrev pub owner : ConnMgr → ℕ → ℕ
owner c s = get s (view c.sid_to_uid)

abbrev pub address : ConnMgr → ℕ → ℕ
address c u = get u (view c.uid_to_sid)

-- The map is in use.
pub record IsLive (m : TsMap) : Type 0 where
  pub valid : IsValid m
  pub live : m.frosen ≡ false

pub record Inv (c : ConnMgr) : Type 0 where
  pub sids : IsLive c.sid_to_uid
  pub uids : IsLive c.uid_to_sid
  pub sessions : (u : ℕ) → address c u ≢ 0 → IsLive (c.maps (address c u))
  pub fresh : (u : ℕ) → address c u < c.next
  pub apart : (u w : ℕ) → address c u ≢ 0 → address c u ≡ address c w → u ≡ w
  pub registered : (u : ℕ) → has u (view c.uid_to_sid) ≡ true → address c u ≢ 0
  pub nobody : address c 0 ≡ 0
  pub owned : (s : ℕ) → owner c s ≢ 0 → address c (owner c s) ≢ 0
  pub agree :
      (u s : ℕ)
      → address c u ≢ 0
      → has s (view (c.maps (address c u))) ≡ (known c s && (owner c s == u))

pub init-IsLive : IsLive Ops.init
init-IsLive = record { valid = Laws.init-IsValid; live = Laws.frosen-init }

pub has-init : (k : ℕ) → has k (view Ops.init) ≡ false
unfolding has
has-init k = ap (has k) Laws.view-init

pub get-init : (k : ℕ) → get k (view Ops.init) ≡ 0
unfolding get
get-init k = ap (get k) Laws.view-init

-- What the laws of the map say of each call on a map in use.
module _ (m : TsMap) (h : IsLive m) where
  pub insert-IsLive : (k v : ℕ) → IsLive (Ops.insert m k v).0
  insert-IsLive k v = record {
    valid = Laws.insert-IsValid m h.valid k v;
    live = Laws.frosen-insert m k v ∙ h.live;
  }

  pub erase-IsLive : (k : ℕ) → IsLive (Ops.erase_key m k).0
  erase-IsLive k = record {
    valid = Laws.erase_key-IsValid m h.valid k;
    live = Laws.frosen-erase_key m k ∙ h.live;
  }

  pub find-IsLive : (k : ℕ) → IsLive (Ops.find_val m k).0
  find-IsLive k = record {
    valid = Laws.find_val-IsValid m h.valid k;
    live = Laws.frosen-find_val m k ∙ h.live;
  }

  pub has-IsLive : (k : ℕ) → IsLive (Ops.has_val m k).0
  has-IsLive k = record {
    valid = Laws.has_val-IsValid m h.valid k;
    live = Laws.frosen-has_val m k ∙ h.live;
  }

  pub has-insert : (p k v : ℕ) → has p (view (Ops.insert m k v).0) ≡ ((k == p) || has p (view m))
  has-insert p k v = ap (has p) (Laws.view-insert m h.valid k v h.live) ∙ has-put_new p k v (view m)

  pub get-insert :
      (p k v : ℕ)
      → get p (view (Ops.insert m k v).0)
        ≡ (if k == p then (if has k (view m) then get p (view m) else v) else get p (view m))
  get-insert p k v =
      ap (get p) (Laws.view-insert m h.valid k v h.live)
      ∙ get-put_new p k v (view m) h.valid.ascending

  pub has-erase_key :
      (p k : ℕ) → has p (view (Ops.erase_key m k).0) ≡ (if k == p then false else has p (view m))
  has-erase_key p k =
      ap (has p) (Laws.view-erase_key m h.valid k h.live) ∙ has-erase p k (view m) h.valid.ascending

  pub get-erase_key :
      (p k : ℕ) → get p (view (Ops.erase_key m k).0) ≡ (if k == p then 0 else get p (view m))
  get-erase_key p k =
      ap (get p) (Laws.view-erase_key m h.valid k h.live) ∙ get-erase p k (view m) h.valid.ascending
