-- ===== src/ConnMgr/Sessions.antt =====
-- `conn_mgr_get_number_of_sessions` counts the connections of a user, and
-- `conn_mgr_forall_uid` visits them.
use acos_chat.Base.{
  ℕ, suc, ◌≡◌, ◌≢◌, refl, sym, ap, ap₂, ◌∙◌, inl, inr, true, ◌&&◌, List, [], ◌∷◌, map, length,
  if◌then◌else◌, ◌==◌, arith, Bool-cases,
}
use acos_chat.TsMap.{Tree, leaf, node, is_null, get_size}
use acos_chat.TsMap.Spec.{Entry, Above, IsAscending, has, get}
use acos_chat.TsMap.Order.{has-Above, Above-mono}
use acos_chat.TsMap.Ops.{TsMap}
use acos_chat.TsMap.Ops
use acos_chat.TsMap.Laws.{view, fold_entries}
use acos_chat.TsMap.Laws
use acos_chat.ConnMgr.{ConnMgr, get_uid, forall_uid, number_of_sessions}
use acos_chat.ConnMgr.Inv.{Inv, IsLive, owner, address}

-- The keys of the entries with this value.
abbrev pub keys_of : ℕ → List Entry → List ℕ
keys_of uid [] = []
keys_of uid ((k, v) ∷ es) = if v == uid then k ∷ keys_of uid es else keys_of uid es

abbrev keys : List Entry → List ℕ
keys = map (λ e. e.0)

-- The entries with this value.
with_value : ℕ → List Entry → List Entry
with_value uid [] = []
with_value uid ((k, v) ∷ es) = if v == uid then (k, v) ∷ with_value uid es else with_value uid es

keys-with_value : (uid : ℕ) (es : List Entry) → keys (with_value uid es) ≡ keys_of uid es
unfolding with_value
keys-with_value uid [] = refl
keys-with_value uid ((k, v) ∷ es) = ground (arith, keys-with_value uid es)

Above-with_value : (b uid : ℕ) (es : List Entry) → Above b es → Above b (with_value uid es)
unfolding with_value
Above-with_value b uid [] a = tt
Above-with_value b uid ((k, v) ∷ es) a = ground (arith, Above-with_value b uid es)

with_value-IsAscending :
    (uid : ℕ) (es : List Entry) → IsAscending es → IsAscending (with_value uid es)
unfolding with_value
with_value-IsAscending uid [] a = tt
with_value-IsAscending uid ((k, v) ∷ es) a =
    ground (arith, with_value-IsAscending uid es, Above-with_value k uid es)

has-with_value :
    (q uid : ℕ) (es : List Entry)
    → IsAscending es
    → has q (with_value uid es) ≡ (has q es && (get q es == uid))
unfolding with_value has get
has-with_value q uid [] a = refl
has-with_value q uid ((k, v) ∷ es) a = ground (arith, has-with_value q uid es, has-Above q es)

-- Two ascending lists with the same keys list them alike.
keys_ext :
    (xs ys : List Entry)
    → IsAscending xs
    → IsAscending ys
    → ((q : ℕ) → has q xs ≡ has q ys)
    → keys xs ≡ keys ys
unfolding has
keys_ext [] [] a b h = refl
keys_ext [] ((k, v) ∷ ys) a b h = ground (arith, h k)
keys_ext ((k, v) ∷ xs) [] a b h = ground (arith, h k)
keys_ext ((k, v) ∷ xs) ((j, w) ∷ ys) a b h =
    let same : k ≡ j =
      ground
        (arith, h k, h j, has-Above k ys, has-Above j xs, Above-mono k j ys, Above-mono j k xs) in
    ap₂ ◌∷◌ same (keys_ext xs ys a.1 b.1 (λ q. ground (arith, h q, has-Above q xs, has-Above q ys)))

-- The session map of a user lists the connections that belong to the user.
session_keys :
    (c : ConnMgr) (uid : ℕ)
    → Inv c
    → address c uid ≢ 0
    → keys (view (c.maps (address c uid))) ≡ keys_of uid (view c.sid_to_uid)
session_keys c uid i n =
    let es = view c.sid_to_uid in
    keys_ext (view (c.maps (address c uid))) (with_value uid es) (i.sessions uid n).valid.ascending
      (with_value-IsAscending uid es i.sids.valid.ascending)
      (λ q. i.agree uid q n ∙ sym (has-with_value q uid es i.sids.valid.ascending))
    ∙ keys-with_value uid es

-- A user without a session map has no connection.
pub no_session_keys :
    (c : ConnMgr) (uid : ℕ)
    → Inv c
    → uid ≢ 0
    → address c uid ≡ 0
    → keys_of uid (view c.sid_to_uid) ≡ []
unfolding has
no_session_keys c uid i nz e =
    let es = view c.sid_to_uid in
    sym (keys-with_value uid es)
    ∙ keys_ext (with_value uid es) [] (with_value-IsAscending uid es i.sids.valid.ascending) tt
        (λ q. has-with_value q uid es i.sids.valid.ascending ∙ ground (arith, i.owned q))

length-keys : (es : List Entry) → length (keys es) ≡ length es
length-keys [] = refl
length-keys ((k, v) ∷ es) = ap suc (length-keys es)

null_size : (t : Tree) → is_null t ≡ true → get_size t ≡ 0
null_size leaf e = refl
null_size (node l k v s r) e = absurd (cc)

root_size :
    (m : TsMap) → IsLive m → (if is_null m.root then 0 else get_size m.root) ≡ length (view m)
unfolding Ops.size
root_size m h = ground (arith, null_size m.root, Laws.size-length m h.valid)

pub session_size :
    (c : ConnMgr) (uid : ℕ)
    → Inv c
    → address c uid ≢ 0
    → Ops.size (c.maps (address c uid)) ≡ length (keys_of uid (view c.sid_to_uid))
session_size c uid i n =
    Laws.size-length (c.maps (address c uid)) (i.sessions uid n).valid
    ∙ sym (length-keys (view (c.maps (address c uid))))
    ∙ ap length (session_keys c uid i n)

-- In a consistent manager, for a uid that is not 0, `conn_mgr_get_number_of_sessions` returns the
-- number of connections that belong to the user, and leaves the map of the connections as it is.
pub number_of_sessions-length :
    (c : ConnMgr) (uid : ℕ)
    → Inv c
    → uid ≢ 0
    → ((number_of_sessions c uid).1 ≡ length (keys_of uid (view c.sid_to_uid)))
      × ((number_of_sessions c uid).0.sid_to_uid ≡ c.sid_to_uid)
unfolding number_of_sessions
number_of_sessions-length c uid i nz = (
  rw (Laws.find_val_result c.uid_to_sid i.uids.valid uid) (elim (Bool-cases (address c uid == 0)) [
    | inl e ↦ rw e (ap length (sym (no_session_keys c uid i nz (ground arith))))
    | inr e ↦ rw e (
        root_size (c.maps (address c uid)) (i.sessions uid (ground arith))
        ∙ sym (length-keys (view (c.maps (address c uid))))
        ∙ ap length (session_keys c uid i (ground arith)))
  ]),
  refl,
)

-- The calls on a list of connections, one after the other.
abbrev pub fold_keys {ℓ} : {S : Type ℓ} → (ℕ → S → S) → List ℕ → S → S
fold_keys callback [] s = s
fold_keys callback (k ∷ ks) s = fold_keys callback ks (callback k s)

fold-keys {ℓ} :
    {S : Type ℓ} (callback : ℕ → S → S) (es : List Entry) (s : S)
    → fold_entries (λ k v. callback k) es s ≡ fold_keys callback (keys es) s
fold-keys callback [] s = refl
fold-keys callback ((k, v) ∷ es) s = fold-keys callback es (callback k s)

-- In a consistent manager, for a uid that is not 0, `conn_mgr_forall_uid`, with a callback that
-- does not read the value, visits the connections that belong to the user, each once, in ascending
-- order.
pub forall_uid-fold_keys {ℓ} :
    {S : Type ℓ} (c : ConnMgr) (uid : ℕ) (callback : ℕ → S → S) (s : S)
    → Inv c
    → uid ≢ 0
    → (forall_uid c uid (λ k v. callback k) s).1
      ≡ fold_keys callback (keys_of uid (view c.sid_to_uid)) s
unfolding forall_uid
forall_uid-fold_keys c uid callback s i nz =
    rw (Laws.find_val_result c.uid_to_sid i.uids.valid uid)
      (elim (Bool-cases (address c uid == 0)) [
        | inl e ↦
            rw e
              (ap (λ ks. fold_keys callback ks s) (sym (no_session_keys c uid i nz (ground arith))))
        | inr e ↦ rw e (
            Laws.forall_entries-fold (c.maps (address c uid)) (λ k v. callback k) s
            ∙ fold-keys callback (view (c.maps (address c uid))) s
            ∙ ap (λ ks. fold_keys callback ks s) (session_keys c uid i (ground arith)))
      ])

-- In a consistent manager `conn_mgr_get_uid` returns the uid that the connection belongs to, 0 for
-- nobody, and keeps the entries of the map of connections.
pub get_uid-owner :
    (c : ConnMgr) (sid : ℕ)
    → Inv c
    → ((get_uid c sid).1 ≡ owner c sid) × (view (get_uid c sid).0.sid_to_uid ≡ view c.sid_to_uid)
unfolding get_uid
get_uid-owner c sid i = (
  Laws.find_val_result c.sid_to_uid i.sids.valid sid,
  Laws.view-find_val c.sid_to_uid i.sids.valid sid,
)
