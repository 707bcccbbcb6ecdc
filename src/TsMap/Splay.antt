-- ===== src/TsMap/Splay.antt =====
-- `splay` brings the node to the root and keeps the order of the entries.
use acos_chat.Base.{ℕ, ◌≡◌, refl, List, [], ◌∷◌, ◌++◌, append-nil, append_assoc, arith}
use acos_chat.TsMap.{Tree, leaf, node, Frame, left_of, right_of, splay}
use acos_chat.TsMap.Spec.{Entry, entries, IsSized}

-- What stands before and after a subtree with the given path.
abbrev pub before : List Frame → List Entry
before [] = []
before (left_of k v s r ∷ path) = before path
before (right_of l k v s ∷ path) = before path ++ entries l ++ (k, v) ∷ []

abbrev pub after : List Frame → List Entry
after [] = []
after (left_of k v s r ∷ path) = (k, v) ∷ entries r ++ after path
after (right_of l k v s ∷ path) = after path

-- The tree has the entry at its root, and these entries on the two sides.
abbrev pub RootIs : ℕ → ℕ → List Entry → List Entry → Tree → Type 0
RootIs k v low high leaf = ⊥
RootIs k v low high (node l k' v' s r) =
    (k' ≡ k) × (v' ≡ v) × (entries l ≡ low) × (entries r ≡ high)

-- The node comes to the root, with what stood before it on the left and after it on the right.
pub splay-RootIs :
    (path : List Frame) (l : Tree) (k v s : ℕ) (r : Tree) (low high : List Entry)
    → before path ++ entries l ≡ low
    → entries r ++ after path ≡ high
    → RootIs k v low high (splay path (node l k v s r))
unfolding splay
splay-RootIs [] l k v s r low high e f = (refl, refl, e, simp append-nil at f)
splay-RootIs (left_of k' v' s' r' ∷ []) l k v s r low high e f =
    (refl, refl, e, simp append-nil at f)
splay-RootIs (right_of l' k' v' s' ∷ []) l k v s r low high e f =
    (refl, refl, simp append_assoc at e, simp append-nil at f)
splay-RootIs (left_of k1 v1 s1 r1 ∷ left_of k2 v2 s2 r2 ∷ path) l k v s r low high e f =
    splay-RootIs path _ k v _ _ low high e (simp append_assoc f)
splay-RootIs (left_of k1 v1 s1 r1 ∷ right_of l2 k2 v2 s2 ∷ path) l k v s r low high e f =
    splay-RootIs path _ k v _ _ low high (simp append_assoc at e) (simp append_assoc f)
splay-RootIs (right_of l1 k1 v1 s1 ∷ left_of k2 v2 s2 r2 ∷ path) l k v s r low high e f =
    splay-RootIs path _ k v _ _ low high (simp append_assoc at e) (simp append_assoc f)
splay-RootIs (right_of l1 k1 v1 s1 ∷ right_of l2 k2 v2 s2 ∷ path) l k v s r low high e f =
    splay-RootIs path _ k v _ _ low high (simp append_assoc (simp append_assoc at e)) f

-- The siblings along a path have right sizes; those of the ancestors are computed anew.
abbrev pub PathIsSized : List Frame → Type 0
PathIsSized [] = Unit
PathIsSized (left_of k v s r ∷ path) = IsSized r × PathIsSized path
PathIsSized (right_of l k v s ∷ path) = IsSized l × PathIsSized path

pub splay-IsSized :
    (path : List Frame) (l : Tree) (k v s : ℕ) (r : Tree)
    → IsSized (node l k v s r)
    → PathIsSized path
    → IsSized (splay path (node l k v s r))
unfolding splay
splay-IsSized [] l k v s r h p = h
splay-IsSized (left_of k' v' s' r' ∷ []) l k v s r h p = ground arith
splay-IsSized (right_of l' k' v' s' ∷ []) l k v s r h p = ground arith
splay-IsSized (left_of k1 v1 s1 r1 ∷ left_of k2 v2 s2 r2 ∷ path) l k v s r h p =
    splay-IsSized path _ k v _ _ (ground arith) p.1.1
splay-IsSized (left_of k1 v1 s1 r1 ∷ right_of l2 k2 v2 s2 ∷ path) l k v s r h p =
    splay-IsSized path _ k v _ _ (ground arith) p.1.1
splay-IsSized (right_of l1 k1 v1 s1 ∷ left_of k2 v2 s2 r2 ∷ path) l k v s r h p =
    splay-IsSized path _ k v _ _ (ground arith) p.1.1
splay-IsSized (right_of l1 k1 v1 s1 ∷ right_of l2 k2 v2 s2 ∷ path) l k v s r h p =
    splay-IsSized path _ k v _ _ (ground arith) p.1.1
