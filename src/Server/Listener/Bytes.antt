-- ===== src/Server/Listener/Bytes.antt =====
-- Consecutive parts of a list.
use acos_chat.Base.{
  ℕ, zero, suc, ◌+◌, ◌-◌, ◌≤◌, ◌≡◌, refl, sym, ap, ◌∙◌, List, [], ◌∷◌, ◌++◌, take, drop, length,
  arith,
}

module _ {ℓ} {A : Type ℓ} where
  take_nil : (n : ℕ) → take {A = A} n [] ≡ []
  take_nil zero = refl
  take_nil (suc n) = refl

  drop_nil : (n : ℕ) → drop {A = A} n [] ≡ []
  drop_nil zero = refl
  drop_nil (suc n) = refl

  pub take-append_drop : (k j : ℕ) (xs : List A) → take k xs ++ take j (drop k xs) ≡ take (k + j) xs
  take-append_drop zero j xs = ap (λ i. take i xs) (omega arith)
  take-append_drop (suc k) j [] = take_nil j ∙ sym (take_nil (suc k + j))
  take-append_drop (suc k) j (x ∷ xs) =
      let same : suc (k + j) ≡ suc k + j = omega arith in
      ap (◌∷◌ x) (take-append_drop k j xs) ∙ ap (λ i. take i (x ∷ xs)) same

  pub drop-drop : (k j : ℕ) (xs : List A) → drop j (drop k xs) ≡ drop (k + j) xs
  drop-drop zero j xs = ap (λ i. drop i xs) (omega arith)
  drop-drop (suc k) j [] = drop_nil j ∙ sym (drop_nil (suc k + j))
  drop-drop (suc k) j (x ∷ xs) =
      let same : suc (k + j) ≡ suc k + j = omega arith in
      drop-drop k j xs ∙ ap (λ i. drop i (x ∷ xs)) same

  pub length-drop : (k : ℕ) (xs : List A) → k ≤ length xs → length (drop k xs) ≡ length xs - k
  length-drop zero xs h = omega arith
  length-drop (suc k) [] h = omega arith
  length-drop (suc k) (x ∷ xs) h = length-drop k xs (omega arith) ∙ omega arith
