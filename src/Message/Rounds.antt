-- ===== src/Message/Rounds.antt =====
-- One round of the loop of `unpack_message_2`: where it goes on, it comes closer to the end.
use acos_chat.Base.{
  ℕ, suc, zero, ◌+◌, ◌-◌, ◌*◌, ◌%◌, ◌^◌, ◌<◌, ◌≤◌, ◌≡◌, ◌⊎◌, refl, sym, ap, ◌∙◌, inl, inr, false,
  List, [], ◌∷◌, ◌++◌, Option, none, some, All, All-append, length, length-append, take, drop, ◌==◌,
  if◌then◌else◌, arith, Bool-cases,
}
use acos_chat.Message.{
  PascalString, of_be, u32, pstrdup, passes_end, next_pos, read_int, Round, corrupted, out_of_body,
  goes_on, take_token, round,
}

abbrev pub IsByte : ℕ → Type 0
IsByte b = b < 256

drop-take : (n : ℕ) (xs ys : List ℕ) → n ≤ length xs → drop n (take n xs ++ ys) ≡ ys
drop-take zero xs ys h = refl
drop-take (suc n) [] ys h = elim h [ ]
drop-take (suc n) (x ∷ xs) ys h = drop-take n xs ys (omega arith)

length-take-drop : (n : ℕ) (xs : List ℕ) → length (take n xs) + length (drop n xs) ≡ length xs
length-take-drop zero xs = omega arith
length-take-drop (suc n) [] = omega arith
length-take-drop (suc n) (x ∷ xs) = omega (arith, length-take-drop n xs)

pos-le-length : (n : ℕ) (xs : List ℕ) {x : ℕ} {rest : List ℕ} → drop n xs ≡ x ∷ rest → n ≤ length xs
pos-le-length zero xs e = omega arith
pos-le-length (suc n) [] e = absurd (cc)
pos-le-length (suc n) (x ∷ xs) e = omega (arith, pos-le-length n xs e)

All-take : (n : ℕ) (xs : List ℕ) → All IsByte xs → All IsByte (take n xs)
All-take zero xs h = tt
All-take (suc n) [] h = tt
All-take (suc n) (x ∷ xs) h = (h.0, All-take n xs h.1)

All-drop : (n : ℕ) (xs : List ℕ) → All IsByte xs → All IsByte (drop n xs)
All-drop zero xs h = h
All-drop (suc n) [] h = tt
All-drop (suc n) (x ∷ xs) h = All-drop n xs h.1

take_token_goes :
    (mem : List ℕ) (pos len : ℕ) {m : List ℕ} {t : PascalString} {n : ℕ}
    → take_token mem pos len ≡ goes_on m t n
    → (m ≡ mem) × (pos + (4 + len) % u32 ≤ length mem) × (next_pos pos len ≡ some n)
unfolding take_token pstrdup next_pos
take_token_goes mem pos len e = ground arith

next_pos_lem :
    (pos len size : ℕ) {n : ℕ}
    → next_pos pos len ≡ some n
    → pos + (4 + len) % u32 ≤ size
    → size < 2 ^ 31
    → len < u32
    → ((len < 2 ^ 31) × (n ≡ pos + 4 + len)) ⊎ ((u32 - 4 ≤ len) × (n ≡ pos + (len - (u32 - 4))))
unfolding next_pos
next_pos_lem pos len size e fits small range = ground arith

-- A length of -4 keeps the position, once: then the length is in host order.
abbrev stall : Option ℕ → ℕ
stall none = 0
stall (some len) = if len == u32 - 4 then 1 else 0

-- What falls in each round.
abbrev pub rank : List ℕ → ℕ → ℕ → ℕ
rank mem pos end = 2 * (end - pos) + stall (read_int (drop pos mem))

pub stall-le : (o : Option ℕ) → stall o ≤ 1
stall-le none = omega arith
stall-le (some len) = ground arith

pub record Goes (mem : List ℕ) (pos end : ℕ) (mem' : List ℕ) (next : ℕ) : Type 0 where
  pub same_length : length mem' ≡ length mem
  pub of_bytes : All IsByte mem'
  pub falls : rank mem' next end < rank mem pos end

-- The rank falls whether the length is small or one of -4 to -1.
rank-falls :
    (mem mem' : List ℕ) (pos end next a b c d : ℕ) (rest : List ℕ)
    → drop pos mem ≡ a ∷ b ∷ c ∷ d ∷ rest
    → drop pos mem' ≡ d ∷ c ∷ b ∷ a ∷ rest
    → All IsByte (a ∷ b ∷ c ∷ d ∷ [])
    → pos < end
    → passes_end pos (of_be a b c d) end ≡ false
    → ((of_be a b c d < 2 ^ 31) × (next ≡ pos + 4 + of_be a b c d))
      ⊎ ((u32 - 4 ≤ of_be a b c d) × (next ≡ pos + (of_be a b c d - (u32 - 4))))
    → rank mem' next end < rank mem pos end
unfolding passes_end
rank-falls mem mem' pos end next a b c d rest e e' h lt p (inl (small, n)) =
    ground (arith, stall-le (read_int (drop next mem')))
rank-falls mem mem' pos end next a b c d rest e e' h lt p (inr (big, n)) =
    elim (Bool-cases (of_be a b c d == u32 - 4)) [
      | inl stays ↦
          let at_pos : next ≡ pos = ground arith in rw (at_pos, e, e', stays) (ground arith)
      | inr moves ↦ ground (arith, stall-le (read_int (drop next mem')))
    ]

-- The round in terms of what is left of the buffer.
pub round_read :
    (mem : List ℕ) (pos end a b c d : ℕ) (rest : List ℕ)
    → drop pos mem ≡ a ∷ b ∷ c ∷ d ∷ rest
    → round mem pos end ≡ (
        if passes_end pos (of_be a b c d) end
        then corrupted
        else take_token (take pos mem ++ d ∷ c ∷ b ∷ a ∷ rest) pos (of_be a b c d))
unfolding round
round_read mem pos end a b c d rest e = rw (round, e, e)

goes_on-contradiction {ℓ} :
    {A : Type ℓ} {m : List ℕ} {t : PascalString} {n : ℕ} → corrupted ≡ goes_on m t n → A
goes_on-contradiction e = absurd (cc)

read-Goes :
    (mem : List ℕ) (pos end a b c d : ℕ) (rest : List ℕ) {m : List ℕ} {t : PascalString} {n : ℕ}
    → drop pos mem ≡ a ∷ b ∷ c ∷ d ∷ rest
    → All IsByte mem
    → length mem < 2 ^ 31
    → pos < end
    → round mem pos end ≡ goes_on m t n
    → Goes mem pos end m n
read-Goes mem pos end a b c d rest {m} {t} {n} e h small lt r =
    let xs : List ℕ = take pos mem ++ d ∷ c ∷ b ∷ a ∷ rest in
    let bytes : All IsByte (a ∷ b ∷ c ∷ d ∷ rest) = rw e at (All-drop pos mem h) in
    let inside : pos ≤ length mem = pos-le-length pos mem e in
    let same : length xs ≡ length mem = omega (
      arith,
      length-append (take pos mem) (d ∷ c ∷ b ∷ a ∷ rest),
      length-take-drop pos mem,
      ap length e,
    ) in
    let left : drop pos xs ≡ d ∷ c ∷ b ∷ a ∷ rest = drop-take pos mem _ inside in
    elim (Bool-cases (passes_end pos (of_be a b c d) end)) [
      | inl over ↦
          goes_on-contradiction (rw over at (sym (round_read mem pos end a b c d rest e) ∙ r))
      | inr fits ↦
          let taken =
            take_token_goes xs pos (of_be a b c d)
              (rw fits at (sym (round_read mem pos end a b c d rest e) ∙ r)) in
          let swapped : drop pos m ≡ d ∷ c ∷ b ∷ a ∷ rest = ap (drop pos) taken.0 ∙ left in
          record {
            same_length = ap length taken.0 ∙ same;
            of_bytes = rw taken.0 (
                All-append IsByte (take pos mem) (d ∷ c ∷ b ∷ a ∷ rest) (All-take pos mem h)
                  (bytes.1.1.1.0, (bytes.1.1.0, (bytes.1.0, (bytes.0, bytes.1.1.1.1)))));
            falls =
                rank-falls mem m pos end n a b c d rest e swapped
                  (bytes.0, (bytes.1.0, (bytes.1.1.0, (bytes.1.1.1.0, tt)))) lt fits
                  (next_pos_lem pos (of_be a b c d) (length mem) taken.2 (omega arith) small
                    (omega arith));
          }
    ]

-- Fewer than four bytes are left.
round_short :
    (mem : List ℕ) (pos end : ℕ) → read_int (drop pos mem) ≡ none → round mem pos end ≡ out_of_body
unfolding round
round_short mem pos end e = rw (round, e)

not-goes_on {ℓ} :
    {A : Type ℓ} {m : List ℕ} {t : PascalString} {n : ℕ} → out_of_body ≡ goes_on m t n → A
not-goes_on e = absurd (cc)

read_cases :
    (xs : List ℕ)
    → (read_int xs ≡ none) ⊎ ((a b c d : ℕ) × (rest : List ℕ) × (xs ≡ a ∷ b ∷ c ∷ d ∷ rest))
read_cases [] = inl refl
read_cases (a ∷ []) = inl refl
read_cases (a ∷ b ∷ []) = inl refl
read_cases (a ∷ b ∷ c ∷ []) = inl refl
read_cases (a ∷ b ∷ c ∷ d ∷ rest) = inr (a, b, c, d, rest, refl)

pub round-Goes :
    (mem : List ℕ) (pos end : ℕ) {m : List ℕ} {t : PascalString} {n : ℕ}
    → All IsByte mem
    → length mem < 2 ^ 31
    → pos < end
    → round mem pos end ≡ goes_on m t n
    → Goes mem pos end m n
round-Goes mem pos end h small lt r = elim (read_cases (drop pos mem)) [
  | inl short ↦ not-goes_on (sym (round_short mem pos end short) ∙ r)
  | inr (a, b, c, d, rest, e) ↦ read-Goes mem pos end a b c d rest e h small lt r
]

pub Round-cases :
    (r : Round)
    → ((r ≡ corrupted) ⊎ (r ≡ out_of_body))
      ⊎ ((m : List ℕ) × (t : PascalString) × (n : ℕ) × (r ≡ goes_on m t n))
Round-cases corrupted = inl (inl refl)
Round-cases out_of_body = inl (inr refl)
Round-cases (goes_on m t n) = inr (m, t, n, refl)
