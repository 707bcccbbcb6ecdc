-- ===== src/ParseArgs/Flags.antt =====
-- Which flags the arguments set.
use acos_chat.Base.{
  ℕ, ◌<◌, ◌≡◌, refl, ap, ◌∙◌, Bool, false, List, [], ◌∷◌, some, ◌>>=◌, lt→ltb, ◌==◌, ◌||◌, ◌&&◌,
  if◌then◌else◌, All, Bool-cases, inl, inr, arith,
}
use acos_chat.ParseArgs.{dash, set, set_flags, parse_arg, parse_args}

abbrev pub member : ℕ → List ℕ → Bool
member d [] = false
member d (c ∷ chars) = (c == d) || member d chars

-- A dash comes first, and the character behind it.
abbrev pub given : ℕ → List ℕ → Bool
given d [] = false
given d (c ∷ chars) = (c == dash) && member d chars

abbrev pub given_in : ℕ → List (List ℕ) → Bool
given_in d [] = false
given_in d (arg ∷ args) = given d arg || given_in d args

abbrev IsAscii : List ℕ → Type 0
IsAscii chars = All (λ c. c < 128) chars

module _ (known : ℕ → Bool) where
  set_one :
      (flags : ℕ → Bool) (c d : ℕ)
      → (if known c then set flags c else flags) d ≡ (flags d || (known d && (c == d)))
  set_one flags c d = elim (Bool-cases (known c)) [
    | inl k ↦ rw k (ground (arith, k, ap known))
    | inr k ↦ rw k (ground (arith, k))
  ]

  set_flags_lem :
      (chars : List ℕ) (flags : ℕ → Bool)
      → IsAscii chars
      → (after : ℕ → Bool) × (set_flags known chars flags ≡ some after)
        × ((d : ℕ) → after d ≡ (flags d || (known d && member d chars)))
  unfolding set_flags
  set_flags_lem [] flags h = (flags, refl, λ d. ground arith)
  set_flags_lem (c ∷ chars) flags h =
      let next : ℕ → Bool = if known c then set flags c else flags in
      let (after, e, f) = set_flags_lem chars next h.1 in
      (after, rw (lt→ltb c 128 h.0) e, λ d. f d ∙ ground (arith, set_one flags c d))

  parse_arg_lem :
      (arg : List ℕ) (flags : ℕ → Bool)
      → IsAscii arg
      → (after : ℕ → Bool) × (parse_arg known arg flags ≡ some after)
        × ((d : ℕ) → after d ≡ (flags d || (known d && given d arg)))
  unfolding parse_arg
  parse_arg_lem [] flags h = (flags, refl, λ d. ground arith)
  parse_arg_lem (c ∷ chars) flags h = elim (Bool-cases (c == dash)) [
    | inl first ↦
        let (after, e, f) = set_flags_lem chars flags h.1 in
        (after, rw first e, λ d. rw first (f d))
    | inr other ↦ (flags, rw other refl, λ d. rw other (ground arith))
  ]

  parse_args_from :
      (args : List (List ℕ)) (flags : ℕ → Bool)
      → All IsAscii args
      → (after : ℕ → Bool) × (parse_args known args flags ≡ some after)
        × ((d : ℕ) → after d ≡ (flags d || (known d && given_in d args)))
  unfolding parse_args
  parse_args_from [] flags h = (flags, refl, λ d. ground arith)
  parse_args_from (arg ∷ args) flags h =
      let (first, e, f) = parse_arg_lem arg flags h.0 in
      let (after, e', f') = parse_args_from args first h.1 in
      (
        after,
        ap (λ o. o >>= (λ next. parse_args known args next)) e ∙ e',
        λ d. f' d ∙ ground (arith, f d),
      )

  -- For arguments of ASCII characters and no flag set before, exactly the flags are set that have
  -- a variable and stand in an argument behind a dash at its start.
  pub parse_args_lem :
      (args : List (List ℕ))
      → All IsAscii args
      → (after : ℕ → Bool) × (parse_args known args (λ d. false) ≡ some after)
        × ((d : ℕ) → after d ≡ (known d && given_in d args))
  parse_args_lem args h =
      let (after, e, f) = parse_args_from args (λ d. false) h in (after, e, λ d. f d ∙ ground arith)
