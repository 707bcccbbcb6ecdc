-- ===== src/TsMap/Laws.antt =====
-- The well-formedness of a map, kept by every operation, and each operation on the entries.
use acos_chat.Base.{
  ℕ, ◌≡◌, refl, sym, ap, ◌∙◌, inl, inr, true, false, not, List, [], ◌∷◌, ◌++◌, length,
  length-append, arith, Bool-cases,
}
use acos_chat.TsMap.{Tree, leaf, node, get_size}
use acos_chat.TsMap.Spec.{Entry, entries, IsAscending, IsSized, has, get, put_new, erase}
use acos_chat.TsMap.Find.{find-IsSized}
use acos_chat.TsMap.Change.{
  add-put_new, add-IsSized, remove-erase, remove-IsSized, root_value-find, has_key-find,
  entries-find,
}
use acos_chat.TsMap.Reference.{put_new-IsAscending, erase-IsAscending}
use acos_chat.TsMap.Ops.{
  TsMap, init, insert, find_val, has_val, erase_key, size, forall_helper, forall_entries,
}

-- The entries of a map in ascending order of keys: the map as its clients see it.
abbrev pub view : TsMap → List Entry
view m = entries m.root

-- A search tree whose nodes know the size of their subtrees.
pub record IsValid (m : TsMap) : Type 0 where
  pub ascending : IsAscending (view m)
  pub sized : IsSized m.root

pub init-IsValid : IsValid init
unfolding init
init-IsValid = record { ascending = tt; sized = tt }

pub frosen-init : init.frosen ≡ false
unfolding init
frosen-init = refl

pub view-init : view init ≡ []
unfolding init
view-init = refl

module _ (m : TsMap) (valid : IsValid m) where
  -- An insertion into a map that is not frozen.
  pub view-insert : (k v : ℕ) → m.frosen ≡ false → view (insert m k v).0 ≡ put_new k v (view m)
  unfolding insert
  view-insert k v f = rw f (add-put_new m.root k v valid.ascending).0

  pub insert_result : (k v : ℕ) → m.frosen ≡ false → (insert m k v).1 ≡ not (has k (view m))
  unfolding insert
  insert_result k v f = rw f (add-put_new m.root k v valid.ascending).1

  -- `ts_map_insert` keeps a map valid: a search tree whose nodes know the sizes of their subtrees.
  pub insert-IsValid : (k v : ℕ) → IsValid (insert m k v).0
  unfolding insert
  insert-IsValid k v = elim (Bool-cases m.frosen) [
    | inl f ↦ simp f valid
    | inr f ↦ rw f (record {
      ascending =
          rw (add-put_new m.root k v valid.ascending).0 (put_new-IsAscending k v _ valid.ascending);
      sized = add-IsSized m.root k v valid.sized;
    })
  ]

  pub view-find_val : (k : ℕ) → view (find_val m k).0 ≡ view m
  unfolding find_val
  view-find_val k = entries-find k m.root valid.ascending

  pub find_val_result : (k : ℕ) → (find_val m k).1 ≡ get k (view m)
  unfolding find_val
  find_val_result k = root_value-find k m.root valid.ascending

  pub find_val-IsValid : (k : ℕ) → IsValid (find_val m k).0
  unfolding find_val
  find_val-IsValid k = record {
    ascending = rw (entries-find k m.root valid.ascending) valid.ascending;
    sized = find-IsSized m.root k valid.sized;
  }

  pub view-has_val : (k : ℕ) → view (has_val m k).0 ≡ view m
  unfolding has_val
  view-has_val k = entries-find k m.root valid.ascending

  pub has_val_result : (k : ℕ) → (has_val m k).1 ≡ has k (view m)
  unfolding has_val
  has_val_result k = has_key-find k m.root valid.ascending

  pub has_val-IsValid : (k : ℕ) → IsValid (has_val m k).0
  unfolding has_val
  has_val-IsValid k = record {
    ascending = rw (entries-find k m.root valid.ascending) valid.ascending;
    sized = find-IsSized m.root k valid.sized;
  }

  pub view-erase_key : (k : ℕ) → m.frosen ≡ false → view (erase_key m k).0 ≡ erase k (view m)
  unfolding erase_key
  view-erase_key k f = rw f (remove-erase m.root k valid.ascending).0

  pub erase_key_result : (k : ℕ) → m.frosen ≡ false → (erase_key m k).1 ≡ get k (view m)
  unfolding erase_key
  erase_key_result k f = rw f (remove-erase m.root k valid.ascending).1

  -- `ts_map_erase` keeps a map valid: a search tree whose nodes know the sizes of their subtrees.
  pub erase_key-IsValid : (k : ℕ) → IsValid (erase_key m k).0
  unfolding erase_key
  erase_key-IsValid k = elim (Bool-cases m.frosen) [
    | inl f ↦ simp f valid
    | inr f ↦ rw f (record {
      ascending =
          rw (remove-erase m.root k valid.ascending).0 (erase-IsAscending k _ valid.ascending);
      sized = remove-IsSized m.root k valid.sized;
    })
  ]

get_size-length : (t : Tree) → IsSized t → get_size t ≡ length (entries t)
get_size-length leaf h = refl
get_size-length (node l k v s r) h = omega (
  arith,
  length-append (entries l) ((k, v) ∷ entries r),
  get_size-length l h.1,
  get_size-length r h.2,
)

-- `ts_map_size` of a valid map is the number of its entries.
pub size-length : (m : TsMap) → IsValid m → size m ≡ length (view m)
unfolding size
size-length m valid = get_size-length m.root valid.sized

-- The calls on a list of entries, in its order.
abbrev pub fold_entries {ℓ} : {S : Type ℓ} → (ℕ → ℕ → S → S) → List Entry → S → S
fold_entries callback [] s = s
fold_entries callback ((k, v) ∷ es) s = fold_entries callback es (callback k v s)

fold-append {ℓ} :
    {S : Type ℓ} (callback : ℕ → ℕ → S → S) (xs ys : List Entry) (s : S)
    → fold_entries callback (xs ++ ys) s ≡ fold_entries callback ys (fold_entries callback xs s)
fold-append callback [] ys s = refl
fold-append callback ((k, v) ∷ xs) ys s = fold-append callback xs ys (callback k v s)

forall_helper-fold {ℓ} :
    {S : Type ℓ} (t : Tree) (callback : ℕ → ℕ → S → S) (s : S)
    → forall_helper t callback s ≡ fold_entries callback (entries t) s
unfolding forall_helper
forall_helper-fold leaf callback s = refl
forall_helper-fold (node l k v n r) callback s =
    forall_helper-fold r callback _
    ∙ ap (λ z. fold_entries callback (entries r) (callback k v z)) (forall_helper-fold l callback s)
    ∙ sym (fold-append callback (entries l) ((k, v) ∷ entries r) s)

-- `ts_map_forall` makes its calls on the entries in ascending order of the tree, each once.
pub forall_entries-fold {ℓ} :
    {S : Type ℓ} (m : TsMap) (callback : ℕ → ℕ → S → S) (s : S)
    → forall_entries m callback s ≡ fold_entries callback (view m) s
unfolding forall_entries
forall_entries-fold m callback s = forall_helper-fold m.root callback s

-- The flag `frosen` is set by `destroy` alone.
module _ (m : TsMap) where
  pub frosen-insert : (k v : ℕ) → (insert m k v).0.frosen ≡ m.frosen
  unfolding insert
  frosen-insert k v = ground arith

  pub frosen-find_val : (k : ℕ) → (find_val m k).0.frosen ≡ m.frosen
  unfolding find_val
  frosen-find_val k = refl

  pub frosen-has_val : (k : ℕ) → (has_val m k).0.frosen ≡ m.frosen
  unfolding has_val
  frosen-has_val k = refl

  pub frosen-erase_key : (k : ℕ) → (erase_key m k).0.frosen ≡ m.frosen
  unfolding erase_key
  frosen-erase_key k = ground arith

  -- A frozen map refuses insertions and deletions, and stays as it is.
  pub frosen_refuses :
      (k v : ℕ) → m.frosen ≡ true → (insert m k v ≡ (m, false)) × (erase_key m k ≡ (m, 0))
  unfolding insert erase_key
  frosen_refuses k v f = (rw f, rw f)
