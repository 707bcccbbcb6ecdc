-- ===== src/Message/Total.antt =====
-- The loop of `unpack_message_2` on any body: it ends, and on which bodies it leaves the buffer.
use acos_chat.Base.{
  ℕ, suc, zero, ◌+◌, ◌-◌, ◌*◌, ◌^◌, ◌<◌, ◌≤◌, ◌≡◌, ◌≢◌, refl, sym, ◌∙◌, inl, inr, List, [], ◌∷◌,
  ◌++◌, some, All, length, take, drop, ltb, lt→ltb, ltb→lt, ltb→le, ltb-false, if◌then◌else◌, arith,
  Bool-cases,
}
use acos_chat.Message.{
  PascalString, Outcome, done, rejected, fault, no_fuel, of_be, u32, pstrdup, passes_end, read_int,
  unpack_message_2, map_outcome, corrupted, out_of_body, goes_on, take_token, round, unpack_loop,
}
use acos_chat.Message.Rounds.{IsByte, rank, stall-le, round_read, round-Goes, Round-cases}

module _ (fuel : ℕ) (mem : List ℕ) (pos end : ℕ) (acc : List PascalString) where
  loop_done : end ≤ pos → unpack_loop (suc fuel) mem pos end acc ≡ done acc
  unfolding unpack_loop
  loop_done h = rw (unpack_loop, ltb-false pos end h)

  loop_corrupted :
      pos < end → round mem pos end ≡ corrupted → unpack_loop (suc fuel) mem pos end acc ≡ rejected
  unfolding unpack_loop
  loop_corrupted h e = rw (unpack_loop, lt→ltb pos end h, e)

  pub loop_fault :
      pos < end → round mem pos end ≡ out_of_body → unpack_loop (suc fuel) mem pos end acc ≡ fault
  unfolding unpack_loop
  loop_fault h e = rw (unpack_loop, lt→ltb pos end h, e)

  loop_goes :
      (m : List ℕ) (t : PascalString) (n : ℕ)
      → pos < end
      → round mem pos end ≡ goes_on m t n
      → unpack_loop (suc fuel) mem pos end acc ≡ unpack_loop fuel m n end (acc ++ t ∷ [])
  unfolding unpack_loop
  loop_goes m t n h e = rw (unpack_loop, lt→ltb pos end h, e)

unpack_loop-ends :
    (fuel : ℕ) (mem : List ℕ) (pos end : ℕ) (acc : List PascalString)
    → All IsByte mem
    → length mem < 2 ^ 31
    → rank mem pos end < fuel
    → unpack_loop fuel mem pos end acc ≢ no_fuel
unpack_loop-ends zero mem pos end acc h small f e = elim f [ ]
unpack_loop-ends (suc fuel) mem pos end acc h small f e = elim (Bool-cases (ltb pos end)) [
  | inr over ↦ cc (loop_done fuel mem pos end acc (ltb→le pos end over))
  | inl more ↦
      let lt : pos < end = ltb→lt pos end more in
      elim (Round-cases (round mem pos end)) [
        | inl (inl c) ↦ cc (loop_corrupted fuel mem pos end acc lt c)
        | inl (inr o) ↦ cc (loop_fault fuel mem pos end acc lt o)
        | inr (m, t, n, g) ↦
            let goes = round-Goes mem pos end h small lt g in
            unpack_loop-ends fuel m n end (acc ++ t ∷ []) goes.of_bytes
              (omega (arith, goes.same_length)) (omega (arith, goes.falls))
              (sym (loop_goes fuel mem pos end acc m t n lt g) ∙ e)
      ]
]

map_outcome-no_fuel {ℓ κ} :
    {A : Type ℓ} {B : Type κ} (f : A → B) (o : Outcome A) → map_outcome f o ≡ no_fuel → o ≡ no_fuel
map_outcome-no_fuel f (done a) e = absurd (cc)
map_outcome-no_fuel f rejected e = absurd (cc)
map_outcome-no_fuel f fault e = absurd (cc)
map_outcome-no_fuel f no_fuel e = refl

negative_out :
    (a b c d end : ℕ) (rest : List ℕ)
    → 2 ^ 31 ≤ of_be a b c d
    → of_be a b c d < u32 - 4
    → length rest + 4 < 2 ^ 31
    → (if passes_end 0 (of_be a b c d) end
        then corrupted
        else take_token (take 0 (a ∷ b ∷ c ∷ d ∷ rest) ++ d ∷ c ∷ b ∷ a ∷ rest) 0 (of_be a b c d))
      ≡ out_of_body
unfolding passes_end take_token pstrdup
negative_out a b c d end rest low high fits = ground arith

-- The loop of `unpack_message_2` ends on every body of fewer than 2 ^ 31 bytes, whatever its
-- lengths say and whatever length the header states: fuel above twice the stated length plus one
-- is never used up.
pub unpack_message_2-ends :
    (fuel : ℕ) (header body : List ℕ)
    → All IsByte body
    → length body < 2 ^ 31
    → (len : ℕ) → read_int (drop 1 header) ≡ some len
    → 2 * len + 1 < fuel
    → unpack_message_2 fuel header body ≢ no_fuel
unfolding unpack_message_2
unpack_message_2-ends fuel [] body h small len e f r = absurd (cc)
unpack_message_2-ends fuel (type ∷ header) body h small len e f r =
    let end : ℕ = if ltb len (2 ^ 31) then len else 0 in
    let short : end ≤ len = ground arith in
    unpack_loop-ends fuel body 0 end [] h small (omega (arith, stall-le (read_int body)))
      (map_outcome-no_fuel _ _ (rw (unpack_message_2, e) at r))

-- A first token whose length field reads as -2147483648 to -5 makes the receiver copy from outside
-- of the body, in any message of a positive stated length whose body is shorter than 2 ^ 31 bytes.
pub unpack_message_2-fault :
    (fuel type a b c d len : ℕ) (header rest : List ℕ)
    → read_int header ≡ some len
    → 0 < len
    → len < 2 ^ 31
    → 2 ^ 31 ≤ of_be a b c d
    → of_be a b c d < u32 - 4
    → length rest + 4 < 2 ^ 31
    → unpack_message_2 (suc fuel) (type ∷ header) (a ∷ b ∷ c ∷ d ∷ rest) ≡ fault
unfolding unpack_message_2
unpack_message_2-fault fuel type a b c d len header rest e pos small low high fits = rw (
  unpack_message_2,
  e,
  lt→ltb len (2 ^ 31) small,
  loop_fault fuel _ 0 len [] pos (
      round_read (a ∷ b ∷ c ∷ d ∷ rest) 0 len a b c d rest refl
      ∙ negative_out a b c d len rest low high fits),
)
