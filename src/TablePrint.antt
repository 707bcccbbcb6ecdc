-- ===== src/TablePrint.antt =====
-- lib/tableprint/src/tableprint.c. The chain of rows is a list, a row the list of its entries, as many as
-- the table has columns; `printf` is the argument `print`, which gets a formatter, or none for the default
-- "%*s", a width and an entry.
pub mod Widths
use acos_chat.Base.{
  ℕ, zero, suc, ◌+◌, List, [], ◌∷◌, ◌++◌, Option, none, some, ◌>>=◌, length, replicate, ltb,
  if◌then◌else◌,
}

pub record Table : Type 0 where
  pub rows : List (List (List ℕ))
  pub col_widths : List ℕ
  pub formatters : List (Option (List ℕ))
  pub row_width : ℕ

unfoldable pub init_table : ℕ → Table
init_table row_width = record {
  rows = [];
  col_widths = replicate row_width 0;
  formatters = replicate row_width none;
  row_width = row_width;
}

abbrev pub replace {ℓ} : {A : Type ℓ} → ℕ → A → List A → List A
replace i y [] = []
replace zero y (x ∷ xs) = y ∷ xs
replace (suc i) y (x ∷ xs) = x ∷ replace i y xs

unfoldable pub table_set_formatter : Table → ℕ → List ℕ → Table
table_set_formatter table row fmt = record table {
  formatters = replace row (some fmt) table.formatters;
}

unfoldable pub max_i32 : ℕ → ℕ → ℕ
max_i32 a b = if ltb a b then b else a

-- The loop over the columns; none is an argument that is not there.
unfoldable pub widen : List ℕ → List (List ℕ) → Option (List ℕ)
widen [] args = some []
widen (width ∷ widths) [] = none
widen (width ∷ widths) (str ∷ args) = do
  rest ← widen widths args
  some (max_i32 width (length str) ∷ rest)

abbrev pub taken : List ℕ → List (List ℕ) → List (List ℕ)
taken [] args = []
taken (width ∷ widths) [] = []
taken (width ∷ widths) (str ∷ args) = str ∷ taken widths args

unfoldable pub add_row : Table → List (List ℕ) → Option Table
add_row table args = do
  widths ← widen table.col_widths args
  some (record table { rows = table.rows ++ taken table.col_widths args ∷ []; col_widths = widths })

module _ (print : Option (List ℕ) → ℕ → List ℕ → List ℕ) where
  -- The columns of a row from the second on.
  unfoldable pub print_rest : List (Option (List ℕ)) → List ℕ → List (List ℕ) → List ℕ
  print_rest (fmt ∷ fmts) (width ∷ widths) (entry ∷ entries) =
      32 ∷ (print fmt width entry ++ print_rest fmts widths entries)
  print_rest _ _ _ = []

  unfoldable pub print_row : List (Option (List ℕ)) → List ℕ → List (List ℕ) → List ℕ
  print_row (fmt ∷ fmts) (width ∷ widths) (entry ∷ entries) =
      print fmt width entry ++ print_rest fmts widths entries
  print_row _ _ _ = []

  unfoldable pub print_rows : Table → List (List (List ℕ)) → List (List ℕ)
  print_rows table [] = []
  print_rows table (row ∷ rows) =
      print_row table.formatters table.col_widths row ∷ print_rows table rows

  -- The lines of `print_table`.
  unfoldable pub print_table : Table → List (List ℕ)
  print_table table = print_rows table table.rows
