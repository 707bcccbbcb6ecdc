-- ===== src/Server/Sql/Answers.antt =====
-- Statements that run to their end: what the loops make of their rows.
use acos_chat.Base.{
  ◌≡◌, refl, ap, Bool, true, false, List, [], ◌∷◌, none, some, ◌++◌, ◌∙◌, subst, ◌>>=◌,
}
use acos_chat.Server.Database.{Row}
use acos_chat.Server.Sql.{Step, row, busy, failed, read_rows, browse_steps}

-- The results are those of a statement with these rows: each wait for a busy data base ends with a row.
abbrev pub Answers : {R : Type 0} → List (Step R) → List R → Type 0
Answers [] [] = Unit
Answers [] (r ∷ rows) = ⊥
Answers (row r ∷ results) [] = ⊥
Answers (row r ∷ results) (r' ∷ rows) = (r ≡ r') × Answers results rows
Answers (busy ∷ []) rows = ⊥
Answers (busy ∷ result ∷ results) rows = Answers (result ∷ results) rows
Answers (failed error ∷ results) rows = ⊥

abbrev pub fold {ℓ} : {R : Type 0} {A : Type ℓ} → (A → R → A) → A → List R → A
fold f a [] = a
fold f a (r ∷ rows) = fold f (f a r) rows

-- What holds of every row of the results.
abbrev pub AllRows {κ} : {R : Type 0} → (R → Type κ) → List (Step R) → Type κ
AllRows Good [] = Unit
AllRows Good (row r ∷ results) = Good r × AllRows Good results
AllRows Good (busy ∷ results) = AllRows Good results
AllRows Good (failed error ∷ results) = AllRows Good results

some_inj {ℓ} : {A : Type ℓ} {x y : A} → some x ≡ some y → x ≡ y
some_inj e = cc

module _ {ℓ} {R : Type 0} {A : Type ℓ} (f : A → R → A) where
  -- Where it waits, a row is still to come.
  read_rows_waiting :
      (a : A) (result : Step R) (results : List (Step R)) (rows : List R)
      → Answers (result ∷ results) rows
      → read_rows f a true (result ∷ results) ≡ read_rows f a false (result ∷ results)
  unfolding read_rows
  read_rows_waiting a (row r) results rows h = refl
  read_rows_waiting a busy results rows h = refl
  read_rows_waiting a (failed error) results rows h = refl

  pub read_rows_lem :
      (a : A) (results : List (Step R)) (rows : List R)
      → Answers results rows
      → read_rows f a false results ≡ some (fold f a rows)
  unfolding read_rows
  read_rows_lem a [] [] h = refl
  read_rows_lem a [] (r ∷ rows) h = elim h [ ]
  read_rows_lem a (row r ∷ results) [] h = elim h [ ]
  read_rows_lem a (row r ∷ results) (r' ∷ rows) h =
      read_rows_lem (f a r) results rows h.1 ∙ ap (λ x. some (fold f (f a x) rows)) h.0
  read_rows_lem a (busy ∷ []) rows h = elim h [ ]
  read_rows_lem a (busy ∷ result ∷ results) rows h =
      read_rows_waiting a result results rows h ∙ read_rows_lem a (result ∷ results) rows h
  read_rows_lem a (failed error ∷ results) rows h = elim h [ ]

  -- A failed step ends the loop without a result.
  pub read_rows_failed :
      (a : A) (waiting error : Bool) (before after : List (Step R))
      → read_rows f a waiting (before ++ failed error ∷ after) ≡ none
  unfolding read_rows
  read_rows_failed a true error [] after = refl
  read_rows_failed a false error [] after = refl
  read_rows_failed a true error (row r ∷ before) after =
      read_rows_failed (f a r) false error before after
  read_rows_failed a false error (row r ∷ before) after =
      read_rows_failed (f a r) false error before after
  read_rows_failed a true error (busy ∷ before) after = read_rows_failed a true error before after
  read_rows_failed a false error (busy ∷ before) after = read_rows_failed a true error before after
  read_rows_failed a true error (failed e ∷ before) after = refl
  read_rows_failed a false error (failed e ∷ before) after = refl

  -- What holds at the start and is kept by every row holds of the result.
  pub read_rows_keeps {κ} :
      (P : A → Type κ) (Good : R → Type κ)
      → ((a : A) (r : R) → P a → Good r → P (f a r))
      → (a : A) (waiting : Bool) (results : List (Step R)) {result : A} → AllRows Good results
      → P a
      → read_rows f a waiting results ≡ some result
      → P result
  unfolding read_rows
  read_rows_keeps P Good keep a true [] h p e = absurd (cc)
  read_rows_keeps P Good keep a false [] h p e = subst P (some_inj e) p
  read_rows_keeps P Good keep a true (row r ∷ results) h p e =
      read_rows_keeps P Good keep (f a r) false results h.1 (keep a r p h.0) e
  read_rows_keeps P Good keep a false (row r ∷ results) h p e =
      read_rows_keeps P Good keep (f a r) false results h.1 (keep a r p h.0) e
  read_rows_keeps P Good keep a true (busy ∷ results) h p e =
      read_rows_keeps P Good keep a true results h p e
  read_rows_keeps P Good keep a false (busy ∷ results) h p e =
      read_rows_keeps P Good keep a true results h p e
  read_rows_keeps P Good keep a true (failed error ∷ results) h p e = absurd (cc)
  read_rows_keeps P Good keep a false (failed error ∷ results) h p e = absurd (cc)

browse_waiting :
    (result : Step Row) (results : List (Step Row)) (rows : List Row)
    → Answers (result ∷ results) rows
    → browse_steps true (result ∷ results) ≡ browse_steps false (result ∷ results)
unfolding browse_steps
browse_waiting (row r) results rows h = refl
browse_waiting busy results rows h = refl
browse_waiting (failed error) results rows h = refl

-- For every statement that runs to its end, the callback of `browse_history` reads each of its rows once,
-- in order.
pub browse_steps_lem :
    (results : List (Step Row)) (rows : List Row)
    → Answers results rows
    → browse_steps false results ≡ some rows
unfolding browse_steps
browse_steps_lem [] [] h = refl
browse_steps_lem [] (r ∷ rows) h = elim h [ ]
browse_steps_lem (row r ∷ results) [] h = elim h [ ]
browse_steps_lem (row r ∷ results) (r' ∷ rows) h =
    ap (λ rest. rest >>= (λ rows. some (r ∷ rows))) (browse_steps_lem results rows h.1)
    ∙ ap (λ x. some (x ∷ rows)) h.0
browse_steps_lem (busy ∷ []) rows h = elim h [ ]
browse_steps_lem (busy ∷ result ∷ results) rows h =
    browse_waiting result results rows h ∙ browse_steps_lem (result ∷ results) rows h
browse_steps_lem (failed error ∷ results) rows h = elim h [ ]
