-- ===== src/Tests/Pools.antt =====
-- Runs of lab_2/chat/src/server/controller.c: two workers, of which one is sent away.
use acos_chat.Base.{◌≡◌, some, refl, [], ◌∷◌}
use acos_chat.Server.Workers.{
  Pool, minus_key, controller_init, change_worker_cnt, leave, stop_workers, run_worker,
  decrease_workers, Stopping, leaves, changes, stops, Reach, start, later,
}
use acos_chat.Server.Workers.Counted.{Counted, workers-Counted}
use acos_chat.Server.Workers.Shutdown.{Ends, stop_workers-Ends}

abbrev two : Pool
two = change_worker_cnt 2 controller_init

-- Two presses of '-' before the first is handled both ask for one worker, and two workers are told to
-- stop.
presses : minus_key two ≡ some 1
unfolding change_worker_cnt controller_init run_worker decrease_workers minus_key
presses = refl

abbrev asked : Pool
asked = change_worker_cnt 1 (change_worker_cnt 1 two)

asked_exits : asked.exits ≡ 2
unfolding change_worker_cnt controller_init run_worker decrease_workers
asked_exits = refl

-- One of them has stopped.
abbrev fewer : Pool
fewer = leave [] 2 (1 ∷ []) asked

one_stops : Stopping asked fewer
unfolding change_worker_cnt controller_init run_worker decrease_workers
one_stops = leaves 1 [] 2 (1 ∷ []) refl refl

fewer-Reach : Reach fewer
fewer-Reach =
    later (later (later (later start (changes 2)) (changes 1)) (changes 1)) (stops one_stops)

workers-Counted_example : Counted fewer
workers-Counted_example = workers-Counted fewer-Reach

stop_workers-Ends_example : Ends (stop_workers fewer)
stop_workers-Ends_example = stop_workers-Ends fewer-Reach
