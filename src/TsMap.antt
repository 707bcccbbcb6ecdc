-- ===== src/TsMap.antt =====
-- lib/ts_map: the splay tree with cached subtree sizes behind `ts_map_t`, its static functions.
-- A `void *` is a number, and NULL is 0. A parent pointer is the first frame of a path: the path of
-- a node lists its ancestors, innermost first, each with the subtree on its other side. `calloc` is
-- taken to succeed, and sizes count allocated nodes, so they do not wrap.
pub mod Spec
pub mod Splay
pub mod Order
pub mod Find
pub mod Root
pub mod Merge
pub mod Change
pub mod Ops
pub mod Reference
pub mod Laws
pub mod Refines
use Prim.Native.Nat.{compare, Ordering}
use acos_chat.Base.{ℕ, ◌+◌, Bool, true, false, List, [], ◌∷◌, ◌++◌, ◌==◌, ltb, if◌then◌else◌}

-- `ts_map_node_t`: left, key, val, size, right.
pub data Tree : Type 0 where
  leaf : Tree
  node : Tree → ℕ → ℕ → ℕ → Tree → Tree

-- An ancestor without the son that the path comes from: `left_of` where that son is the left one.
pub data Frame : Type 0 where
  left_of : ℕ → ℕ → ℕ → Tree → Frame
  right_of : Tree → ℕ → ℕ → ℕ → Frame

abbrev pub is_null : Tree → Bool
is_null leaf = true
is_null (node l k v s r) = false

abbrev pub get_size : Tree → ℕ
get_size leaf = 0
get_size (node l k v s r) = s

abbrev pub update_size : Tree → Tree
update_size leaf = leaf
update_size (node l k v s r) = node l k v (1 + get_size l + get_size r) r

abbrev pub is_left_son : Frame → Bool
is_left_son (left_of k v s r) = true
is_left_son (right_of l k v s) = false

-- `connect_left` and `connect_right`: the son goes back under its parent.
abbrev pub connect : Frame → Tree → Tree
connect (left_of k v s r) t = node t k v s r
connect (right_of l k v s) t = node l k v s t

unfoldable pub left_turn : Tree → Tree
left_turn leaf = leaf
left_turn (node l k v s leaf) = node l k v s leaf
left_turn (node l k v s (node l' k' v' s' r')) =
    update_size (node (update_size (node l k v s l')) k' v' s' r')

unfoldable pub right_turn : Tree → Tree
right_turn leaf = leaf
right_turn (node leaf k v s r) = node leaf k v s r
right_turn (node (node l' k' v' s' r') k v s r) =
    update_size (node l' k' v' s' (update_size (node r' k v s r)))

-- The loop body where the parent `p` is the root.
unfoldable pub splay_root : Frame → Tree → Tree
unfolding left_turn right_turn
splay_root p t = if is_left_son p then right_turn (connect p t) else left_turn (connect p t)

-- The loop body where the node `t` has a parent `p` and a grandparent `g`.
unfoldable pub splay_step : Frame → Frame → Tree → Tree
unfolding left_turn right_turn
splay_step p g t =
    if is_left_son p
    then (if is_left_son g
        then right_turn (right_turn (connect g (connect p t)))
        else left_turn (connect g (right_turn (connect p t))))
    else (if is_left_son g
        then right_turn (connect g (left_turn (connect p t)))
        else left_turn (left_turn (connect g (connect p t))))

-- `splay`, on the node at the end of the path: the loop goes up until the node has no parent.
unfoldable pub splay : List Frame → Tree → Tree
unfolding splay_root splay_step
splay [] t = t
splay (p ∷ []) t = splay_root p t
splay (p ∷ g ∷ path) t = splay path (splay_step p g t)

-- `find`, called on a node with its path.
unfoldable pub find_from : List Frame → Tree → ℕ → Tree
unfolding splay
find_from path leaf key = leaf
find_from path (node l k v s r) key = elim (compare key k) [
  | Ordering.eq ↦ splay path (node l k v s r)
  | Ordering.lt ↦
      if is_null l then splay path (node l k v s r) else find_from (left_of k v s r ∷ path) l key
  | Ordering.gt ↦
      if is_null r then splay path (node l k v s r) else find_from (right_of l k v s ∷ path) r key
]

-- `find` on a root.
unfoldable pub find : Tree → ℕ → Tree
unfolding find_from
find root key = find_from [] root key

-- `rightest`, as the path and the subtree of the node that the loop stops at.
unfoldable pub rightest : List Frame → Tree → List Frame × Tree
rightest path leaf = (path, leaf)
rightest path (node l k v s r) =
    if is_null r then (path, node l k v s r) else rightest (right_of l k v s ∷ path) r

-- `connect_right` at a root.
abbrev pub set_right : Tree → Tree → Tree
set_right leaf r = leaf
set_right (node l k v s r') r = node l k v s r

unfoldable pub merge : Tree → Tree → Tree
merge leaf right = right
merge (node l k v s r) leaf = node l k v s r
merge (node l k v s r) (node l' k' v' s' r') =
    let (path, top) = rightest [] (node l k v s r) in
    update_size (set_right (splay path top) (node l' k' v' s' r'))

-- The part of `split` after `find`.
unfoldable pub cut : ℕ → Tree → Tree × Tree
cut key leaf = (leaf, leaf)
cut key (node l k v s r) =
    if ltb k key
    then (update_size (node l k v s leaf), update_size r)
    else (update_size l, update_size (node leaf k v s r))

unfoldable pub split : Tree → ℕ → Tree × Tree
split tree key = cut key (find tree key)

abbrev pub has_key : ℕ → Tree → Bool
has_key key leaf = false
has_key key (node l k v s r) = k == key

-- `add` with the value of `*success`.
unfoldable pub add : Tree → ℕ → ℕ → Tree × Bool
add leaf key val = (node leaf key val 1 leaf, true)
add (node l k v s r) key val =
    let tree = find (node l k v s r) key in
    let (left, right) = split tree key in
    if has_key key tree then (tree, false) else (update_size (node left key val 0 right), true)

-- The part of `remove` after `find`, with the value of `*val`.
abbrev pub take_root : ℕ → Tree → Tree × ℕ
take_root key leaf = (leaf, 0)
take_root key (node l k v s r) = if k == key then (merge l r, v) else (node l k v s r, 0)

unfoldable pub remove : Tree → ℕ → Tree × ℕ
remove leaf key = (leaf, 0)
remove (node l k v s r) key = take_root key (find (node l k v s r) key)

-- The reads after `find` in `ts_map_find` and `ts_map_has`.
abbrev pub root_value : ℕ → Tree → ℕ
root_value key leaf = 0
root_value key (node l k v s r) = if k == key then v else 0
