-- ===== src/TsMap/Change.antt =====
-- `add` and `remove` against the reference operations.
use acos_chat.Base.{
  ℕ, ◌≡◌, refl, sym, ap, ◌∙◌, inl, inr, true, false, not, List, [], ◌∷◌, ◌++◌, ◌==◌, arith,
  Bool-cases,
}
use acos_chat.TsMap.{
  Tree, leaf, node, is_null, cut, find, split, has_key, add, take_root, remove, root_value,
}
use acos_chat.TsMap.Spec.{Entry, entries, IsAscending, IsSized, has, get, erase, put_new}
use acos_chat.TsMap.Order.{has-Above, Above-mono}
use acos_chat.TsMap.Find.{Nearest, find-entries, find-leaf, find-IsSized}
use acos_chat.TsMap.Root.{root-has, root-get, root-erase, cut-entries, cut-IsSized}
use acos_chat.TsMap.Merge.{merge-entries, merge-IsSized}

pub has_key-has :
    (key : ℕ) (t : Tree)
    → IsAscending (entries t)
    → Nearest key t
    → has key (entries t) ≡ has_key key t
has_key-has key leaf a n = absurd n
has_key-has key (node l k v s r) a n = root-has key l k v s r a n

cut-put_new :
    (key w : ℕ) (t : Tree)
    → IsAscending (entries t)
    → Nearest key t
    → has_key key t ≡ false
    → entries (cut key t).0 ++ (key, w) ∷ entries (cut key t).1 ≡ put_new key w (entries t)
cut-put_new key w leaf a n h = absurd n
cut-put_new key w (node l k v s r) a n h = cut-entries key l k v s r a n w (ground arith)

put_new_present :
    (key w : ℕ) (es : List Entry) → IsAscending es → has key es ≡ true → put_new key w es ≡ es
unfolding put_new has
put_new_present key w [] a h = absurd (cc)
put_new_present key w ((k, v) ∷ es) a h =
    ground (arith, put_new_present key w es a.1, has-Above key es, Above-mono key k es)

Nearest-not-null : (key : ℕ) (t : Tree) → Nearest key t → is_null t ≡ false
Nearest-not-null key leaf n = absurd n
Nearest-not-null key (node l k v s r) n = refl

-- `find` once and once more, as `add` does it through `split`.
record Found (key : ℕ) (es : List Entry) (t : Tree) : Type 0 where
  same : entries t ≡ es
  ascending : IsAscending (entries t)
  near : Nearest key t

find-Found :
    (key : ℕ) (es : List Entry) (t : Tree)
    → is_null t ≡ false
    → IsAscending es
    → entries t ≡ es
    → Found key es (find t key)
find-Found key es t n a e =
    let found = find-entries t key n (rw e a) in
    record { same = found.0 ∙ e; ascending = rw (found.0, e) a; near = found.1 }

find_again : (key : ℕ) (es : List Entry) (t : Tree) → Found key es t → Found key es (find t key)
find_again key es t f =
    find-Found key es t (Nearest-not-null key t f.near) (rw f.same at f.ascending) f.same

Found-has : (key : ℕ) (es : List Entry) (t : Tree) → Found key es t → has key es ≡ has_key key t
Found-has key es t f = rw f.same at (has_key-has key t f.ascending f.near)

put_new-nil : (key w : ℕ) → put_new key w [] ≡ (key, w) ∷ []
unfolding put_new
put_new-nil key w = refl

has-nil : (key : ℕ) → has key [] ≡ false
unfolding has
has-nil key = refl

-- `add` is `put_new` on the entries, and succeeds when the key was not there.
pub add-put_new :
    (t : Tree) (key w : ℕ)
    → IsAscending (entries t)
    → (entries (add t key w).0 ≡ put_new key w (entries t))
      × ((add t key w).1 ≡ not (has key (entries t)))
unfolding add split
add-put_new leaf key w a = (sym (put_new-nil key w), sym (ap not (has-nil key)))
add-put_new (node l k v s r) key w a =
    let es : List Entry = entries (node l k v s r) in
    let once = find-Found key es (node l k v s r) refl a refl in
    let again = find_again key es _ once in
    let had = Found-has key es _ once in
    elim (Bool-cases (has_key key (find (node l k v s r) key))) [
      | inl old ↦
          rw old
            (once.same ∙ sym (put_new_present key w es a (had ∙ old)), sym (ap not (had ∙ old)))
      | inr new ↦ rw new (
        cut-put_new key w _ again.ascending again.near (sym (Found-has key es _ again) ∙ had ∙ new)
            ∙ ap (put_new key w) again.same,
        sym (ap not (had ∙ new)),
      )
    ]

pub add-IsSized : (t : Tree) (key w : ℕ) → IsSized t → IsSized (add t key w).0
unfolding add split
add-IsSized leaf key w h = (refl, tt, tt)
add-IsSized (node l k v s r) key w h =
    let once = find-IsSized (node l k v s r) key h in
    let parts = cut-IsSized key _ (find-IsSized _ key once) in
    elim (Bool-cases (has_key key (find (node l k v s r) key))) [
      | inl old ↦ rw old once
      | inr new ↦ rw new (refl, parts.0, parts.1)
    ]

take_root-erase :
    (key : ℕ) (t : Tree)
    → IsAscending (entries t)
    → Nearest key t
    → (entries (take_root key t).0 ≡ erase key (entries t))
      × ((take_root key t).1 ≡ get key (entries t))
take_root-erase key leaf a n = absurd n
take_root-erase key (node l k v s r) a n =
    ground (arith, root-erase key l k v s r a n, root-get key l k v s r a n, merge-entries l r)

erase-nil : (key : ℕ) → erase key [] ≡ []
unfolding erase
erase-nil key = refl

get-nil : (key : ℕ) → get key [] ≡ 0
unfolding get
get-nil key = refl

-- `remove` is `erase` on the entries, and hands out the value of the key.
pub remove-erase :
    (t : Tree) (key : ℕ)
    → IsAscending (entries t)
    → (entries (remove t key).0 ≡ erase key (entries t)) × ((remove t key).1 ≡ get key (entries t))
unfolding remove
remove-erase leaf key a = (sym (erase-nil key), sym (get-nil key))
remove-erase (node l k v s r) key a =
    let f = find-Found key _ (node l k v s r) refl a refl in
    let taken = take_root-erase key _ f.ascending f.near in
    (taken.0 ∙ ap (erase key) f.same, taken.1 ∙ ap (get key) f.same)

take_root-IsSized : (key : ℕ) (t : Tree) → IsSized t → IsSized (take_root key t).0
take_root-IsSized key leaf h = tt
take_root-IsSized key (node l k v s r) h = elim (Bool-cases (k == key)) [
  | inl hit ↦ rw hit (merge-IsSized l r h.1 h.2)
  | inr miss ↦ rw miss h
]

pub remove-IsSized : (t : Tree) (key : ℕ) → IsSized t → IsSized (remove t key).0
unfolding remove
remove-IsSized leaf key h = tt
remove-IsSized (node l k v s r) key h =
    take_root-IsSized key _ (find-IsSized (node l k v s r) key h)

root_value-near :
    (key : ℕ) (t : Tree)
    → IsAscending (entries t)
    → Nearest key t
    → root_value key t ≡ get key (entries t)
root_value-near key leaf a n = absurd n
root_value-near key (node l k v s r) a n = sym (root-get key l k v s r a n)

-- What the root shows after `find` on any tree, and the entries that `find` keeps.
pub root_value-find :
    (key : ℕ) (t : Tree)
    → IsAscending (entries t)
    → root_value key (find t key) ≡ get key (entries t)
root_value-find key leaf a = rw (find-leaf key) (sym (get-nil key))
root_value-find key (node l k v s r) a =
    let f = find-Found key _ (node l k v s r) refl a refl in
    root_value-near key _ f.ascending f.near ∙ ap (get key) f.same

pub has_key-find :
    (key : ℕ) (t : Tree) → IsAscending (entries t) → has_key key (find t key) ≡ has key (entries t)
has_key-find key leaf a = rw (find-leaf key) (sym (has-nil key))
has_key-find key (node l k v s r) a =
    sym (Found-has key _ _ (find-Found key _ (node l k v s r) refl a refl))

pub entries-find : (key : ℕ) (t : Tree) → IsAscending (entries t) → entries (find t key) ≡ entries t
entries-find key leaf a = rw (find-leaf key)
entries-find key (node l k v s r) a = (find-Found key _ (node l k v s r) refl a refl).same
