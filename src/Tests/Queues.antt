-- ===== src/Tests/Queues.antt =====
-- Runs of lib/ts_queue.
use acos_chat.Base.{ℕ, ◌≡◌, List, [], ◌∷◌, some}
use acos_chat.TsQueue.{init}
use acos_chat.TsQueue.Laws.{init-Holds}
use acos_chat.TsQueue.Refines.{
  Call, pushes, urgently, pops, counts, answers, list_answers, queue_answers-refines,
}

abbrev calls : List (Call ℕ)
calls = pushes 1 ∷ pushes 2 ∷ urgently 3 ∷ counts ∷ pops ∷ pops ∷ pops ∷ pops ∷ []

queue_answers-refines_example : answers calls init ≡ some (list_answers calls [])
queue_answers-refines_example = queue_answers-refines calls init [] init-Holds
