-- ===== src/TsMap/Ops.antt =====
-- The global functions of lib/ts_map/src/ts_map.c. Each holds the mutex from its first access to
-- its last, so that a call is one step; where a call reads and changes, it returns the new map too.
use acos_chat.Base.{ℕ, Bool, true, false, List, [], ◌∷◌, ◌++◌, if◌then◌else◌}
use acos_chat.TsMap.{Tree, leaf, node, get_size, find, has_key, root_value, add, remove}

-- `ts_map_t` without its mutex.
pub record TsMap : Type 0 where
  pub root : Tree
  pub frosen : Bool

unfoldable pub init : TsMap
init = record { root = leaf; frosen = false }

unfoldable pub insert : TsMap → ℕ → ℕ → TsMap × Bool
insert m key val =
    if m.frosen
    then (m, false)
    else (record m { root = (add m.root key val).0 }, (add m.root key val).1)

-- `ts_map_find` does not look at `frosen`, and moves the tree.
unfoldable pub find_val : TsMap → ℕ → TsMap × ℕ
find_val m key = let root = find m.root key in (record m { root = root }, root_value key root)

unfoldable pub has_val : TsMap → ℕ → TsMap × Bool
has_val m key = let root = find m.root key in (record m { root = root }, has_key key root)

unfoldable pub erase_key : TsMap → ℕ → TsMap × ℕ
erase_key m key =
    if m.frosen then (m, 0) else (record m { root = (remove m.root key).0 }, (remove m.root key).1)

unfoldable pub size : TsMap → ℕ
size m = get_size m.root

-- `ts_map_forall_helper`: the callback, on the state that it reaches through `ptr`.
unfoldable pub forall_helper {ℓ} : {S : Type ℓ} → Tree → (ℕ → ℕ → S → S) → S → S
forall_helper leaf callback s = s
forall_helper (node l k v n r) callback s =
    forall_helper r callback (callback k v (forall_helper l callback s))

unfoldable pub forall_entries {ℓ} : {S : Type ℓ} → TsMap → (ℕ → ℕ → S → S) → S → S
unfolding forall_helper
forall_entries m callback s = forall_helper m.root callback s

-- `ts_map_node_destroy`, as the values that it hands to the destructor, in order.
unfoldable pub node_destroy : Tree → List ℕ
node_destroy leaf = []
node_destroy (node l k v s r) = node_destroy l ++ (node_destroy r ++ v ∷ [])

-- `ts_map_destroy` frees the nodes and freezes the map. `root` keeps its value in the source, and
-- so it does here: nothing is said of calls that would follow it, but that they change nothing.
unfoldable pub destroy : TsMap → TsMap × List ℕ
unfolding node_destroy
destroy m = (record m { frosen = true }, node_destroy m.root)
