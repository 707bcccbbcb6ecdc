-- ===== src/TsMap/Merge.antt =====
-- `merge` of two trees, the second right of the first.
use acos_chat.Base.{
  ℕ, ◌≡◌, refl, ◌∙◌, ap, false, List, [], ◌∷◌, ◌++◌, append-nil, append_assoc, arith,
}
use acos_chat.TsMap.{
  Tree, leaf, node, Frame, right_of, is_null, update_size, set_right, splay, rightest, merge,
}
use acos_chat.TsMap.Spec.{Entry, entries, IsSized}
use acos_chat.TsMap.Splay.{before, after, RootIs, splay-RootIs, PathIsSized, splay-IsSized}

-- The node that `rightest` stops at has no right son, and nothing comes after it.
record IsRightest (es : List Entry) (path : List Frame) (t : Tree) : Type 0 where
  left : Tree
  key : ℕ
  val : ℕ
  size : ℕ
  shape : t ≡ node left key val size leaf
  last : after path ≡ []
  all : before path ++ entries t ≡ es

rightest-IsRightest :
    (path : List Frame) (l : Tree) (k v s : ℕ) (r : Tree) (es : List Entry)
    → after path ≡ []
    → before path ++ entries (node l k v s r) ≡ es
    → IsRightest es (rightest path (node l k v s r)).0 (rightest path (node l k v s r)).1
unfolding rightest
rightest-IsRightest path l k v s leaf es a e = record {
  left = l;
  key = k;
  val = v;
  size = s;
  shape = refl;
  last = a;
  all = e;
}
rightest-IsRightest path l k v s (node l' k' v' s' r') es a e =
    rightest-IsRightest (right_of l k v s ∷ path) l' k' v' s' r' es a (simp append_assoc e)

rightest-IsSized :
    (path : List Frame) (t : Tree)
    → IsSized t
    → PathIsSized path
    → IsSized (rightest path t).1 × PathIsSized (rightest path t).0
unfolding rightest
rightest-IsSized path leaf h p = (tt, p)
rightest-IsSized path (node l k v s r) h p =
    ground (arith, rightest-IsSized (right_of l k v s ∷ path) r)

set_right-entries :
    (k v : ℕ) (low : List Entry) (t r : Tree)
    → RootIs k v low [] t
    → entries (update_size (set_right t r)) ≡ (low ++ (k, v) ∷ []) ++ entries r
set_right-entries k v low leaf r h = absurd h
set_right-entries k v low (node l k' v' s r') r (a, b, c, d) = rw (a, b, c) (simp append_assoc)

hang_right :
    (es : List Entry) (path : List Frame) (t r : Tree)
    → IsRightest es path t
    → entries (update_size (set_right (splay path t) r)) ≡ es ++ entries r
hang_right es path t r m =
    let at_root = splay-RootIs path m.left m.key m.val m.size leaf _ [] refl m.last in
    let all : before path ++ entries (node m.left m.key m.val m.size leaf) ≡ es =
      rw m.shape at m.all in
    rw m.shape (
      set_right-entries m.key m.val _ _ r at_root
      ∙ ap (λ xs. xs ++ entries r) (append_assoc (before path) _ _ ∙ all))

-- The entries of the two trees one after the other.
pub merge-entries : (l r : Tree) → entries (merge l r) ≡ entries l ++ entries r
unfolding merge
merge-entries leaf r = refl
merge-entries (node l k v s r) leaf = simp append-nil
merge-entries (node l k v s r) (node l' k' v' s' r') =
    hang_right _ _ _ (node l' k' v' s' r') (rightest-IsRightest [] l k v s r _ refl refl)

set_right-IsSized : (t r : Tree) → IsSized t → IsSized r → IsSized (update_size (set_right t r))
set_right-IsSized leaf r h p = tt
set_right-IsSized (node l k v s r') r h p = (refl, h.1, p)

splay_tree-IsSized :
    (path : List Frame) (t : Tree)
    → is_null t ≡ false
    → IsSized t
    → PathIsSized path
    → IsSized (splay path t)
splay_tree-IsSized path leaf n h p = absurd (cc)
splay_tree-IsSized path (node l k v s r) n h p = splay-IsSized path l k v s r h p

pub merge-IsSized : (l r : Tree) → IsSized l → IsSized r → IsSized (merge l r)
unfolding merge
merge-IsSized leaf r h p = p
merge-IsSized (node l k v s r) leaf h p = h
merge-IsSized (node l k v s r) (node l' k' v' s' r') h p =
    let sizes = rightest-IsSized [] (node l k v s r) h tt in
    let top = rightest-IsRightest [] l k v s r _ refl refl in
    set_right-IsSized _ (node l' k' v' s' r')
      (splay_tree-IsSized _ _ (rw top.shape) sizes.0 sizes.1) p
