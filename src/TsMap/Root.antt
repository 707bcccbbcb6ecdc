-- ===== src/TsMap/Root.antt =====
-- What the root shows after `find`: the reference operations on the entries, read off the root.
use acos_chat.Base.{
  ℕ, ◌<◌, ◌≡◌, ◌≢◌, refl, sym, ◌∙◌, inl, inr, ap, All-append, [], ◌∷◌, ◌++◌, if◌then◌else◌, ◌==◌,
  arith, trichotomy, append_assoc,
}
use acos_chat.TsMap.{Tree, leaf, node, cut, update_size}
use acos_chat.TsMap.Spec.{entries, Below, Above, IsAscending, IsSized, has, get, erase, put_new}
use acos_chat.TsMap.Order.{
  Below-mono, Above-mono, SplitsAt, split_ascending, get-Below, get-Above, has-Below, has-Above,
  erase-Below, erase-Above, put_new-Below, put_new-Above,
}
use acos_chat.TsMap.Find.{Nearest}

update_size-entries : (t : Tree) → entries (update_size t) ≡ entries t
update_size-entries leaf = refl
update_size-entries (node l k v s r) = refl

module _ (key : ℕ) (l : Tree) (k v s : ℕ) (r : Tree) (a : IsAscending (entries (node l k v s r)))
    (near : Nearest key (node l k v s r)) where
  parts : SplitsAt k (entries l) (entries r)
  parts = split_ascending (entries l) k v (entries r) a

  -- On both sides of the root the keys keep their distance from `key`.
  low-Below : Below key (entries l)
  low-Below = elim (trichotomy key k) [
    | inl lt ↦ near.1 lt
    | inr (inl eq) ↦ rw eq parts.low-Below
    | inr (inr gt) ↦ Below-mono k key _ gt parts.low-Below
  ]

  high-Above : Above key (entries r)
  high-Above = elim (trichotomy key k) [
    | inl lt ↦ Above-mono key k _ lt parts.high-Above
    | inr (inl eq) ↦ rw eq parts.high-Above
    | inr (inr gt) ↦ near.0 gt
  ]

  pub root-has : has key (entries (node l k v s r)) ≡ (k == key)
  unfolding has
  root-has =
      has-Below key (entries l) _ low-Below ∙ ground (arith, has-Above key (entries r) high-Above)

  pub root-get : get key (entries (node l k v s r)) ≡ (if k == key then v else 0)
  unfolding get
  root-get =
      get-Below key (entries l) _ low-Below ∙ ground (arith, get-Above key (entries r) high-Above)

  pub root-erase :
      erase key (entries (node l k v s r))
      ≡ (if k == key then entries l ++ entries r else entries (node l k v s r))
  unfolding erase
  root-erase =
      erase-Below key (entries l) _ low-Below
      ∙ ground (arith, erase-Above key (entries r) high-Above)

  cut_after : k < key → cut key (node l k v s r) ≡ (update_size (node l k v s leaf), update_size r)
  unfolding cut
  cut_after h = ground arith

  cut_before : key < k → cut key (node l k v s r) ≡ (update_size l, update_size (node leaf k v s r))
  unfolding cut
  cut_before h = ground arith

  -- `cut` divides the entries at a key that is not there.
  pub cut-entries :
      (w : ℕ)
      → k ≢ key
      → entries (cut key (node l k v s r)).0 ++ (key, w) ∷ entries (cut key (node l k v s r)).1
        ≡ put_new key w (entries (node l k v s r))
  cut-entries w ne = elim (trichotomy key k) [
    | inl lt ↦
        rw (cut_before lt, update_size-entries l)
          (sym (
            put_new-Below key w (entries l) _ low-Below
            ∙ ap (λ es. entries l ++ es) (put_new-Above key w _ (lt, high-Above))))
    | inr (inl eq) ↦ absurd (ne (sym eq))
    | inr (inr gt) ↦
        rw (cut_after gt, update_size-entries r)
          (sym (
            ap (put_new key w) (sym (append_assoc (entries l) ((k, v) ∷ []) (entries r)))
            ∙ put_new-Below key w (entries l ++ (k, v) ∷ []) (entries r)
                (All-append _ (entries l) ((k, v) ∷ []) low-Below (gt, tt))
            ∙ ap (λ es. (entries l ++ (k, v) ∷ []) ++ es) (put_new-Above key w _ high-Above)))
  ]

pub update_size-IsSized : (t : Tree) → IsSized t → IsSized (update_size t)
update_size-IsSized leaf h = tt
update_size-IsSized (node l k v s r) h = (refl, h.1, h.2)

pub cut-IsSized : (key : ℕ) (t : Tree) → IsSized t → IsSized (cut key t).0 × IsSized (cut key t).1
unfolding cut
cut-IsSized key leaf h = (tt, tt)
cut-IsSized key (node l k v s r) h =
    ground (arith, update_size-IsSized l h.1, update_size-IsSized r h.2)
