-- ===== src/TsMap/Order.antt =====
-- Ascending lists of entries: bounds, and the reference operations beside a split list.
use Prim.Native.Nat.{compare, Ordering}
use acos_chat.Base.{
  ℕ, ◌<◌, ◌≡◌, refl, false, List, [], ◌∷◌, ◌++◌, All-append, All-append_left, All-append_right,
  All-imp, arith,
}
use acos_chat.TsMap.Spec.{Entry, Below, Above, IsAscending, has, get, put_new, erase}

pub compare-lt : (a b : ℕ) → a < b → compare a b ≡ Ordering.lt
compare-lt a b h = ground arith

pub compare-gt : (a b : ℕ) → b < a → compare a b ≡ Ordering.gt
compare-gt a b h = ground arith

pub compare_refl : (a : ℕ) → compare a a ≡ Ordering.eq
compare_refl a = ground arith

pub Above-mono : (a b : ℕ) (es : List Entry) → a < b → Above b es → Above a es
Above-mono a b es h = All-imp (λ e p. omega arith) es

pub Below-mono : (a b : ℕ) (es : List Entry) → a < b → Below a es → Below b es
Below-mono a b es h = All-imp (λ e p. omega arith) es

-- The parts of an ascending list around one entry.
pub record SplitsAt (k : ℕ) (low high : List Entry) : Type 0 where
  pub low_ascending : IsAscending low
  pub low-Below : Below k low
  pub high-Above : Above k high
  pub high_ascending : IsAscending high

pub split_ascending :
    (low : List Entry) (k v : ℕ) (high : List Entry)
    → IsAscending (low ++ (k, v) ∷ high)
    → SplitsAt k low high
split_ascending [] k v high a = record {
  low_ascending = tt;
  low-Below = tt;
  high-Above = a.0;
  high_ascending = a.1;
}
split_ascending ((j, w) ∷ low) k v high a =
    let rest = split_ascending low k v high a.1 in
    record {
      low_ascending = (All-append_left _ low _ a.0, rest.low_ascending);
      low-Below = ((All-append_right _ low ((k, v) ∷ high) a.0).0, rest.low-Below);
      high-Above = rest.high-Above;
      high_ascending = rest.high_ascending;
    }

-- An ascending list below and one above make an ascending list.
pub join-IsAscending :
    (low : List Entry) (k v : ℕ) (high : List Entry)
    → IsAscending low
    → Below k low
    → Above k high
    → IsAscending high
    → IsAscending (low ++ (k, v) ∷ high)
join-IsAscending [] k v high a b c d = (c, d)
join-IsAscending ((j, w) ∷ low) k v high a b c d = (
  All-append _ low ((k, v) ∷ high) a.0 (b.0, Above-mono j k high b.0 c),
  join-IsAscending low k v high a.1 b.1 c d,
)

pub append-IsAscending :
    (low : List Entry) (k : ℕ) (high : List Entry)
    → IsAscending low
    → Below k low
    → Above k high
    → IsAscending high
    → IsAscending (low ++ high)
append-IsAscending [] k high a b c d = d
append-IsAscending ((j, w) ∷ low) k high a b c d = (
  All-append _ low high a.0 (Above-mono j k high b.0 c),
  append-IsAscending low k high a.1 b.1 c d,
)

-- The reference operations pass over what lies below the key.
module _ (q : ℕ) where
  pub get-Below : (low es : List Entry) → Below q low → get q (low ++ es) ≡ get q es
  unfolding get
  get-Below [] es b = refl
  get-Below ((k, v) ∷ low) es b = ground (arith, get-Below low es b.1)

  pub has-Below : (low es : List Entry) → Below q low → has q (low ++ es) ≡ has q es
  unfolding has
  has-Below [] es b = refl
  has-Below ((k, v) ∷ low) es b = ground (arith, has-Below low es b.1)

  pub erase-Below : (low es : List Entry) → Below q low → erase q (low ++ es) ≡ low ++ erase q es
  unfolding erase
  erase-Below [] es b = refl
  erase-Below ((k, v) ∷ low) es b = ground (arith, erase-Below low es b.1)

  pub put_new-Below :
      (w : ℕ) (low es : List Entry) → Below q low → put_new q w (low ++ es) ≡ low ++ put_new q w es
  unfolding put_new
  put_new-Below w [] es b = refl
  put_new-Below w ((k, v) ∷ low) es b = ground (arith, put_new-Below w low es b.1)

  -- And they find nothing above it.
  pub get-Above : (es : List Entry) → Above q es → get q es ≡ 0
  unfolding get
  get-Above [] a = refl
  get-Above ((k, v) ∷ es) a = ground (arith, get-Above es a.1)

  pub has-Above : (es : List Entry) → Above q es → has q es ≡ false
  unfolding has
  has-Above [] a = refl
  has-Above ((k, v) ∷ es) a = ground (arith, has-Above es a.1)

  pub erase-Above : (es : List Entry) → Above q es → erase q es ≡ es
  unfolding erase
  erase-Above [] a = refl
  erase-Above ((k, v) ∷ es) a = ground (arith, erase-Above es a.1)

  pub put_new-Above : (w : ℕ) (es : List Entry) → Above q es → put_new q w es ≡ (q, w) ∷ es
  unfolding put_new
  put_new-Above w [] a = refl
  put_new-Above w ((k, v) ∷ es) a = ground arith
