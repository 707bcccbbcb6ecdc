-- ===== src/Server/Workers.antt =====
-- lab_2/chat/src/server/controller.c, worker.c and the two events of the worker threads: how many there
-- are. A worker is its id; `stopped` are the `worker_exit_event_t`s in the queue of the controller, `exits`
-- the `EXIT_EVT`s at the front of the queue of the workers. A count of workers is not negative.
pub mod Counted
pub mod Shutdown
use acos_chat.Base.{
  ℕ, zero, suc, ◌+◌, ◌-◌, ◌≡◌, List, [], ◌∷◌, ◌++◌, length, Option, none, some, ltb, ◌==◌,
  if◌then◌else◌,
}
use acos_chat.TsMap.Ops.{TsMap}
use acos_chat.TsMap.Ops

pub record Pool : Type 0 where
  pub workers : TsMap
  pub workers_cnt : ℕ
  pub exits : ℕ
  pub running : List ℕ
  pub stopped : List ℕ
  pub next_id : ℕ

unfoldable pub controller_init : Pool
controller_init = record {
  workers = Ops.init;
  workers_cnt = 0;
  exits = 0;
  running = [];
  stopped = [];
  next_id = 1;
}

-- The value in the map is the address of the worker's block, which is not 0.
unfoldable pub run_worker : Pool → Pool
run_worker p = record p {
  workers = (Ops.insert p.workers p.next_id (suc p.next_id)).0;
  workers_cnt = p.workers_cnt + 1;
  running = p.next_id ∷ p.running;
  next_id = p.next_id + 1;
}

unfoldable pub decrease_workers : Pool → Pool
decrease_workers p = record p { exits = p.exits + 1 }

abbrev pub times : ℕ → (Pool → Pool) → Pool → Pool
times zero f p = p
times (suc n) f p = times n f (f p)

-- `change_worker_cnt_event_handler`; at most one of the two loops runs.
unfoldable pub change_worker_cnt : ℕ → Pool → Pool
change_worker_cnt cnt p =
    times (p.workers_cnt - cnt) decrease_workers (times (cnt - p.workers_cnt) run_worker p)

-- The keys '+' and '-' of `main`: the number of workers asked for, if an event is sent.
unfoldable pub plus_key : Pool → ℕ
plus_key p = p.workers_cnt + 1

unfoldable pub minus_key : Pool → Option ℕ
minus_key p = if ltb 1 p.workers_cnt then some (p.workers_cnt - 1) else none

-- `worker_exit_event_handler` with `kill_worker`.
unfoldable pub worker_exit : ℕ → Pool → Pool
worker_exit id p =
    let erased = Ops.erase_key p.workers id in
    if erased.1 == 0
    then record p { workers = erased.0 }
    else record p { workers = erased.0; workers_cnt = p.workers_cnt - 1 }

-- The start of the end of `controller_thread`.
unfoldable pub stop_workers : Pool → Pool
stop_workers p = times p.workers_cnt decrease_workers p

-- The end of `run_event_loop` in `worker_thread`, and the event that it sends.
unfoldable pub leave : List ℕ → ℕ → List ℕ → Pool → Pool
leave before id after p = record p {
  exits = p.exits - 1;
  running = before ++ after;
  stopped = p.stopped ++ id ∷ [];
}

-- What happens while the controller waits for its workers: a worker takes an `EXIT_EVT`, or the controller
-- takes the event of a worker that has stopped.
pub data Stopping (p : Pool) : Pool → Type 0 where
  leaves :
      (n : ℕ) (before : List ℕ) (id : ℕ) (after : List ℕ)
      → p.exits ≡ suc n
      → p.running ≡ before ++ id ∷ after
      → Stopping p (leave before id after p)
  joins :
      (id : ℕ) (rest : List ℕ)
      → p.stopped ≡ id ∷ rest
      → Stopping p (worker_exit id (record p { stopped = rest }))

-- And what happens before.
pub data Step (p : Pool) : Pool → Type 0 where
  changes : (cnt : ℕ) → Step p (change_worker_cnt cnt p)
  stops : {q : Pool} → Stopping p q → Step p q

pub data Reach : Pool → Type 0 where
  start : Reach controller_init
  later : {p q : Pool} → Reach p → Step p q → Reach q
