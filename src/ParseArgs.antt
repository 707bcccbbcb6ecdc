-- ===== src/ParseArgs.antt =====
-- lib/parseargs/src/parseargs.c. A flag is known by its character; `known` are the characters for which
-- `_args` has a pointer, and the state is the flags that are set.
pub mod Flags
use acos_chat.Base.{
  ℕ, Bool, true, false, List, [], ◌∷◌, Option, none, some, ◌>>=◌, ltb, ◌==◌, ◌||◌, ◌&&◌,
  if◌then◌else◌,
}

abbrev pub dash : ℕ
dash = 45

abbrev pub set : (ℕ → Bool) → ℕ → ℕ → Bool
set flags c d = if c == d then true else flags d

module _ (known : ℕ → Bool) where
  -- The `while`. A `char` from 128 on is a negative index: none.
  unfoldable pub set_flags : List ℕ → (ℕ → Bool) → Option (ℕ → Bool)
  set_flags [] flags = some flags
  set_flags (c ∷ chars) flags =
      let next = if known c then set flags c else flags in
      let rest = set_flags chars next in if ltb c 128 then rest else none

  -- One argument.
  unfoldable pub parse_arg : List ℕ → (ℕ → Bool) → Option (ℕ → Bool)
  parse_arg [] flags = some flags
  parse_arg (c ∷ chars) flags = if c == dash then set_flags chars flags else some flags

  -- The `for`, on the arguments behind the name of the program.
  unfoldable pub parse_args : List (List ℕ) → (ℕ → Bool) → Option (ℕ → Bool)
  parse_args [] flags = some flags
  parse_args (arg ∷ args) flags = parse_arg arg flags >>= (λ next. parse_args args next)
