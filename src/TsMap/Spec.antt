-- ===== src/TsMap/Spec.antt =====
-- What `ts_map_t` promises: a finite map, as the list of its entries in ascending order of keys.
use Prim.Native.Nat.{compare, Ordering}
use acos_chat.Base.{
  ℕ, ◌+◌, ◌<◌, ◌≡◌, Bool, false, List, [], ◌∷◌, ◌++◌, All, if◌then◌else◌, ◌==◌, ◌||◌,
}
use acos_chat.TsMap.{Tree, leaf, node, get_size}

abbrev pub Entry : Type 0
Entry = ℕ × ℕ

-- The entries from left to right.
abbrev pub entries : Tree → List Entry
entries leaf = []
entries (node l k v s r) = entries l ++ (k, v) ∷ entries r

abbrev pub Below : ℕ → List Entry → Type 0
Below q = All (λ (e : Entry). e.0 < q)

abbrev pub Above : ℕ → List Entry → Type 0
Above q = All (λ (e : Entry). q < e.0)

abbrev pub IsAscending : List Entry → Type 0
IsAscending [] = Unit
IsAscending ((k, v) ∷ es) = Above k es × IsAscending es

-- Each node's `size` counts the nodes of its subtree.
abbrev pub IsSized : Tree → Type 0
IsSized leaf = Unit
IsSized (node l k v s r) = (s ≡ 1 + get_size l + get_size r) × IsSized l × IsSized r

-- The reference operations on a list of entries.
unfoldable pub has : ℕ → List Entry → Bool
has q [] = false
has q ((k, v) ∷ es) = (k == q) || has q es

unfoldable pub get : ℕ → List Entry → ℕ
get q [] = 0
get q ((k, v) ∷ es) = if k == q then v else get q es

unfoldable pub put_new : ℕ → ℕ → List Entry → List Entry
put_new q w [] = (q, w) ∷ []
put_new q w ((k, v) ∷ es) = elim (compare q k) [
  | Ordering.lt ↦ (q, w) ∷ (k, v) ∷ es
  | Ordering.eq ↦ (k, v) ∷ es
  | Ordering.gt ↦ (k, v) ∷ put_new q w es
]

unfoldable pub erase : ℕ → List Entry → List Entry
erase q [] = []
erase q ((k, v) ∷ es) = if k == q then es else (k, v) ∷ erase q es
