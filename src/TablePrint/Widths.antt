-- ===== src/TablePrint/Widths.antt =====
-- The columns of a table stand below each other.
use acos_chat.Base.{
  ℕ, zero, suc, ◌+◌, ◌≤◌, ◌≡◌, refl, sym, ap, ◌∙◌, map, take, append-nil, append_assoc, List, [],
  ◌∷◌, ◌++◌, Option, none, some, ◌>>=◌, length, length-append, replicate, length-replicate, All,
  All-append, All-imp, arith,
}
use acos_chat.TablePrint.{
  Table, init_table, max_i32, widen, taken, add_row, print_rest, print_row, print_rows, print_table,
}

-- The entries of a row are as many as the columns, and not wider.
abbrev pub Fits : List ℕ → List (List ℕ) → Type 0
Fits [] [] = Unit
Fits [] (entry ∷ row) = ⊥
Fits (width ∷ widths) [] = ⊥
Fits (width ∷ widths) (entry ∷ row) = (length entry ≤ width) × Fits widths row

record Widened (widths : List ℕ) (args : List (List ℕ)) : Type 0 where
  wider : List ℕ
  done : widen widths args ≡ some wider
  as_many : length wider ≡ length widths
  new : Fits wider (taken widths args)
  old : (row : List (List ℕ)) → Fits widths row → Fits wider row

-- A row has the first arguments, one for each column.
taken-take :
    (widths : List ℕ) (args : List (List ℕ)) → taken widths args ≡ take (length widths) args
taken-take [] args = refl
taken-take (width ∷ widths) [] = refl
taken-take (width ∷ widths) (str ∷ args) = ap (λ row. str ∷ row) (taken-take widths args)

max_i32_lem : (a b : ℕ) → (a ≤ max_i32 a b) × (b ≤ max_i32 a b)
unfolding max_i32
max_i32_lem a b = (ground arith, ground arith)

cons-Fits :
    (width wide : ℕ) (widths wider : List ℕ)
    → width ≤ wide
    → ((row : List (List ℕ)) → Fits widths row → Fits wider row)
    → (row : List (List ℕ)) → Fits (width ∷ widths) row
    → Fits (wide ∷ wider) row
cons-Fits width wide widths wider le old [] h = h
cons-Fits width wide widths wider le old (entry ∷ row) h = (omega (arith, h.0), old row h.1)

widen_lem :
    (widths : List ℕ) (args : List (List ℕ)) → length widths ≤ length args → Widened widths args
unfolding widen
widen_lem [] args h = record { wider = []; done = refl; as_many = refl; new = tt; old = λ row f. f }
widen_lem (width ∷ widths) [] h = absurd (omega arith)
widen_lem (width ∷ widths) (str ∷ args) h =
    let rest = widen_lem widths args (omega arith) in
    let wide = max_i32 width (length str) in
    let bound = max_i32_lem width (length str) in
    record {
      wider = wide ∷ rest.wider;
      done = ap (λ o. o >>= (λ rest. some (wide ∷ rest))) rest.done;
      as_many = ap suc rest.as_many;
      new = (bound.1, rest.new);
      old = cons-Fits width wide widths rest.wider bound.0 rest.old;
    }

-- A table of `n` columns whose entries fit.
record Even (n : ℕ) (t : Table) : Type 0 where
  columns : length t.col_widths ≡ n
  plain : t.formatters ≡ replicate n none
  rows_fit : All (Fits t.col_widths) t.rows

init_table-Even : (n : ℕ) → Even n (init_table n)
unfolding init_table
init_table-Even n = record { columns = length-replicate n 0; plain = refl; rows_fit = tt }

add_row-Even :
    (n : ℕ) (t : Table) (args : List (List ℕ))
    → Even n t
    → n ≤ length args
    → (u : Table) × (add_row t args ≡ some u) × Even n u × (u.rows ≡ t.rows ++ take n args ∷ [])
unfolding add_row
add_row-Even n t args h enough =
    let w = widen_lem t.col_widths args (omega (arith, h.columns)) in
    let row = taken t.col_widths args in
    let u : Table = record t { rows = t.rows ++ row ∷ []; col_widths = w.wider } in
    (
      u,
      ap (λ o. o >>= (λ widths. some (record t { rows = t.rows ++ row ∷ []; col_widths = widths })))
          w.done,
      record {
        columns = w.as_many ∙ h.columns;
        plain = h.plain;
        rows_fit =
            All-append (Fits w.wider) t.rows (row ∷ []) (All-imp w.old t.rows h.rows_fit)
              (w.new, tt);
      },
      ap (λ row. t.rows ++ row ∷ [])
          (taken-take t.col_widths args ∙ ap (λ k. take k args) h.columns),
    )

-- `add_row` for each of the rows.
abbrev pub add_rows : List (List (List ℕ)) → Table → Option Table
add_rows [] t = some t
add_rows (args ∷ rows) t = add_row t args >>= (λ u. add_rows rows u)

add_rows-Even :
    (n : ℕ) (rows : List (List (List ℕ))) (t : Table)
    → Even n t
    → All (λ args. n ≤ length args) rows
    → (u : Table) × (add_rows rows t ≡ some u) × Even n u × (u.rows ≡ t.rows ++ map (take n) rows)
add_rows-Even n [] t h enough = (t, refl, h, sym (append-nil t.rows))
add_rows-Even n (args ∷ rows) t h enough =
    let (u, e, even, one) = add_row-Even n t args h enough.0 in
    let (v, f, rest, more) = add_rows-Even n rows u even enough.1 in
    (
      v,
      ap (λ o. o >>= (λ u. add_rows rows u)) e ∙ f,
      rest,
      more
          ∙ ap (λ before. before ++ map (take n) rows) one
          ∙ append_assoc t.rows (take n args ∷ []) (map (take n) rows),
    )

-- A blank before each column, and the columns.
abbrev rest_width : List ℕ → ℕ
rest_width [] = 0
rest_width (width ∷ widths) = 1 + width + rest_width widths

abbrev pub line_width : List ℕ → ℕ
line_width [] = 0
line_width (width ∷ widths) = width + rest_width widths

module _ (print : Option (List ℕ) → ℕ → List ℕ → List ℕ)
    (padded : (width : ℕ) (entry : List ℕ)
      → length entry ≤ width
      → length (print none width entry) ≡ width) where
  length-print_rest :
      (widths : List ℕ) (row : List (List ℕ)) (n : ℕ)
      → length widths ≡ n
      → Fits widths row
      → length (print_rest print (replicate n none) widths row) ≡ rest_width widths
  unfolding print_rest
  length-print_rest [] [] zero e h = refl
  length-print_rest [] [] (suc n) e h = refl
  length-print_rest [] (entry ∷ row) n e h = absurd h
  length-print_rest (width ∷ widths) [] n e h = absurd h
  length-print_rest (width ∷ widths) (entry ∷ row) zero e h = absurd (omega arith)
  length-print_rest (width ∷ widths) (entry ∷ row) (suc n) e h = omega (
    arith,
    length-append (print none width entry) (print_rest print (replicate n none) widths row),
    padded width entry h.0,
    length-print_rest widths row n (omega arith) h.1,
  )

  length-print_row :
      (widths : List ℕ) (row : List (List ℕ)) (n : ℕ)
      → length widths ≡ n
      → Fits widths row
      → length (print_row print (replicate n none) widths row) ≡ line_width widths
  unfolding print_row
  length-print_row [] [] zero e h = refl
  length-print_row [] [] (suc n) e h = refl
  length-print_row [] (entry ∷ row) n e h = absurd h
  length-print_row (width ∷ widths) [] n e h = absurd h
  length-print_row (width ∷ widths) (entry ∷ row) zero e h = absurd (omega arith)
  length-print_row (width ∷ widths) (entry ∷ row) (suc n) e h = omega (
    arith,
    length-append (print none width entry) (print_rest print (replicate n none) widths row),
    padded width entry h.0,
    length-print_rest widths row n (omega arith) h.1,
  )

  length-print_rows :
      (t : Table) (rows : List (List (List ℕ))) → length (print_rows print t rows) ≡ length rows
  unfolding print_rows
  length-print_rows t [] = refl
  length-print_rows t (row ∷ rows) = ap suc (length-print_rows t rows)

  length-all : (n : ℕ) (rows : List (List (List ℕ))) → length (map (take n) rows) ≡ length rows
  length-all n [] = refl
  length-all n (row ∷ rows) = ap suc (length-all n rows)

  print_rows_long :
      (n : ℕ) (t : Table) (rows : List (List (List ℕ)))
      → Even n t
      → All (Fits t.col_widths) rows
      → All (λ line. length line ≡ line_width t.col_widths) (print_rows print t rows)
  unfolding print_rows
  print_rows_long n t [] h f = tt
  print_rows_long n t (row ∷ rows) h f = (
    rw h.plain (length-print_row t.col_widths row n h.columns f.0),
    print_rows_long n t rows h f.1,
  )

  -- For a `printf` that pads an entry with "%*s" to the width where the entry is not longer, a
  -- table of `n` columns and rows of at least `n` entries: all rows are added, in order, each with
  -- its first `n` entries, `print_table` prints one line for each, and all lines are equally long.
  pub print_table_even :
      (n : ℕ) (rows : List (List (List ℕ)))
      → All (λ args. n ≤ length args) rows
      → (t : Table) × (add_rows rows (init_table n) ≡ some t)
        × (t.rows ≡ map (take n) rows)
        × (length (print_table print t) ≡ length rows)
        × All (λ line. length line ≡ line_width t.col_widths) (print_table print t)
  unfolding print_table init_table
  print_table_even n rows enough =
      let (t, e, even, all) = add_rows-Even n rows (init_table n) (init_table-Even n) enough in
      (
        t,
        e,
        all,
        length-print_rows t t.rows ∙ ap length all ∙ length-all n rows,
        print_rows_long n t t.rows even even.rows_fit,
      )
