-- ===== src/TsMap/Find.antt =====
-- `find` keeps the entries, and brings the key, or a neighbour of where it would be, to the root.
use acos_chat.Base.{
  ℕ, ◌<◌, ◌≡◌, refl, ◌∙◌, inl, inr, true, false, List, [], ◌∷◌, ◌++◌, All-append, arith, append-nil,
  append_assoc, trichotomy, Bool-cases,
}
use acos_chat.TsMap.{Tree, leaf, node, Frame, left_of, right_of, is_null, splay, find_from, find}
use acos_chat.TsMap.Spec.{Entry, entries, Below, Above, IsAscending, IsSized}
use acos_chat.TsMap.Order.{
  compare-lt, compare-gt, compare_refl, Below-mono, Above-mono, split_ascending,
}
use acos_chat.TsMap.Splay.{before, after, RootIs, splay-RootIs, PathIsSized, splay-IsSized}

-- The root has the key, or lies next to the place of the key.
abbrev pub Nearest : ℕ → Tree → Type 0
Nearest key leaf = ⊥
Nearest key (node l k v s r) = (k < key → Above key (entries r)) × (key < k → Below key (entries l))

RootIs-entries :
    (k v : ℕ) (low high : List Entry) (t : Tree)
    → RootIs k v low high t
    → entries t ≡ low ++ (k, v) ∷ high
RootIs-entries k v low high leaf h = absurd h
RootIs-entries k v low high (node l k' v' s r) (a, b, c, d) = rw (a, b, c, d)

RootIs-Nearest :
    (key k v : ℕ) (low high : List Entry) (t : Tree)
    → RootIs k v low high t
    → (k < key → Above key high)
    → (key < k → Below key low)
    → Nearest key t
RootIs-Nearest key k v low high leaf h p q = h
RootIs-Nearest key k v low high (node l k' v' s r) (a, b, c, d) p q = rw (a, c, d) (p, q)

-- The result of `find_from`, for a list of entries around the subtree.
abbrev Finds : ℕ → List Entry → Tree → Type 0
Finds key es t = (entries t ≡ es) × Nearest key t

null-entries : (t : Tree) → is_null t ≡ true → entries t ≡ []
null-entries leaf h = refl
null-entries (node l k v s r) h = absurd (cc)

splay-Finds :
    (key : ℕ) (path : List Frame) (l : Tree) (k v s : ℕ) (r : Tree) (es : List Entry)
    → (k < key → Above key (entries r ++ after path))
    → (key < k → Below key (before path ++ entries l))
    → before path ++ (entries (node l k v s r) ++ after path) ≡ es
    → Finds key es (splay path (node l k v s r))
splay-Finds key path l k v s r es p q e =
    let at_root = splay-RootIs path l k v s r _ _ refl refl in
    (
      RootIs-entries k v _ _ _ at_root ∙ simp append_assoc (simp append_assoc at e),
      RootIs-Nearest key k v _ _ _ at_root p q,
    )

find_from-Finds :
    (path : List Frame) (t : Tree) (key : ℕ) (es : List Entry)
    → is_null t ≡ false
    → IsAscending (entries t)
    → Below key (before path)
    → Above key (after path)
    → before path ++ (entries t ++ after path) ≡ es
    → Finds key es (find_from path t key)
unfolding find_from
find_from-Finds path leaf key es n a b c e = absurd (cc)
find_from-Finds path (node l k v s r) key es n a b c e =
    let parts = split_ascending (entries l) k v (entries r) a in
    elim (trichotomy key k) [
      | inl lt ↦
          rw (compare-lt key k lt, find_from)
            (elim (Bool-cases (is_null l)) [
              | inl null ↦ rw null (
                  splay-Finds key path l k v s r es (λ gt. absurd (omega arith))
                    (λ _. rw (null-entries l null) (All-append _ (before path) [] b tt)) e)
              | inr more ↦ rw more (
                  find_from-Finds (left_of k v s r ∷ path) l key es more parts.low_ascending b
                    (
                      lt,
                      All-append _ (entries r) (after path) (Above-mono key k _ lt parts.high-Above)
                          c,
                    )
                    (simp append_assoc at e))
            ])
      | inr (inl eq) ↦
          rw (eq, compare_refl k, find_from)
            (splay-Finds k path l k v s r es (λ gt. absurd (omega arith))
              (λ lt. absurd (omega arith)) e)
      | inr (inr gt) ↦
          rw (compare-gt key k gt, find_from)
            (elim (Bool-cases (is_null r)) [
              | inl null ↦ rw null (
                  splay-Finds key path l k v s r es (λ _. rw (null-entries r null) c)
                    (λ lt. absurd (omega arith)) e)
              | inr more ↦ rw more (
                  find_from-Finds (right_of l k v s ∷ path) r key es more parts.high_ascending
                    (All-append _ (before path ++ entries l) _
                      (All-append _ (before path) _ b (Below-mono k key _ gt parts.low-Below))
                      (gt, tt))
                    c (simp append_assoc (simp append_assoc at e)))
            ])
    ]

find_from-IsSized :
    (path : List Frame) (t : Tree) (key : ℕ)
    → IsSized t
    → PathIsSized path
    → IsSized (find_from path t key)
unfolding find_from
find_from-IsSized path leaf key h p = tt
find_from-IsSized path (node l k v s r) key h p = ground (
  arith,
  splay-IsSized path l k v s r,
  find_from-IsSized (left_of k v s r ∷ path) l key,
  find_from-IsSized (right_of l k v s ∷ path) r key,
)

-- `find` on a tree that is not empty keeps the entries, and the root is the key or next to it.
pub find-entries :
    (t : Tree) (key : ℕ)
    → is_null t ≡ false
    → IsAscending (entries t)
    → (entries (find t key) ≡ entries t) × Nearest key (find t key)
unfolding find
find-entries t key n a = find_from-Finds [] t key (entries t) n a tt tt (append-nil (entries t))

pub find-leaf : (key : ℕ) → find leaf key ≡ leaf
unfolding find
find-leaf key = refl

pub find-IsSized : (t : Tree) (key : ℕ) → IsSized t → IsSized (find t key)
unfolding find
find-IsSized t key h = find_from-IsSized [] t key h tt
