-- ===== src/Tests/Maps.antt =====
-- Runs of lib/ts_map.
use acos_chat.Base.{ℕ, ◌≡◌, refl, true, false, List, [], ◌∷◌}
use acos_chat.TsMap.Ops.{TsMap, init, insert, find_val, has_val, erase_key, size, destroy}
use acos_chat.TsMap.Laws.{IsValid, view, init-IsValid, frosen-init, insert-IsValid}
use acos_chat.TsMap.Refines.{
  Call, Answer, inserts, finds, has_it, erases, counts, flag, val, answers, list_answers,
  answers-refines,
}

abbrev calls : List Call
calls =
    inserts 5 50
    ∷ inserts 3 30
    ∷ inserts 9 90
    ∷ inserts 3 31
    ∷ counts
    ∷ finds 3
    ∷ has_it 4
    ∷ erases 5
    ∷ finds 5
    ∷ counts
    ∷ []

answers-refines_example : answers calls init ≡ list_answers calls (view init)
answers-refines_example = answers-refines calls init init-IsValid frosen-init

-- What the answers are.
answers_run : answers calls init ≡ (
    flag true
    ∷ flag true
    ∷ flag true
    ∷ flag false
    ∷ val 3
    ∷ val 30
    ∷ flag false
    ∷ val 50
    ∷ val 0
    ∷ val 2
    ∷ [])
unfolding answers init acos_chat.TsMap.Refines.step insert size find_val has_val erase_key
    acos_chat.TsMap.add acos_chat.TsMap.find acos_chat.TsMap.remove acos_chat.TsMap.split
    acos_chat.TsMap.cut acos_chat.TsMap.merge acos_chat.TsMap.rightest
answers_run = refl

abbrev one : TsMap
one = (insert init 5 50).0

one-IsValid : IsValid one
one-IsValid = insert-IsValid init init-IsValid 5 50

abbrev two : TsMap
two = (insert one 3 30).0

two-IsValid : IsValid two
two-IsValid = insert-IsValid one one-IsValid 3 30

-- The callback of the test collects the values.
abbrev collect : ℕ → ℕ → List ℕ → List ℕ
collect key value seen = value ∷ seen

abbrev gone : TsMap
gone = (destroy two).0

gone_frosen : gone.frosen ≡ true
unfolding destroy
gone_frosen = refl
