-- ===== src/Server/Workers/Counted.antt =====
-- `workers_cnt` and the map of the workers agree with the threads.
use acos_chat.Base.{
  ℕ, zero, suc, ◌+◌, ◌-◌, ◌≤◌, ◌≡◌, ◌≢◌, refl, ap, true, false, List, [], ◌∷◌, ◌++◌, length,
  length-append, ◌==◌, if◌then◌else◌, arith,
}
use acos_chat.TsMap.Spec.{has, get}
use acos_chat.TsMap.Laws.{view}
use acos_chat.TsMap.Laws
use acos_chat.TsMap.Ops
use acos_chat.ConnMgr.Inv.{
  IsLive, init-IsLive, insert-IsLive, erase-IsLive, has-init, has-insert, get-insert, has-erase_key,
  get-erase_key,
}
use acos_chat.Server.Workers.{
  Pool, controller_init, run_worker, decrease_workers, times, change_worker_cnt, worker_exit, leave,
  Stopping, leaves, joins, Step, changes, stops, Reach, start, later,
}

abbrev pub count : ℕ → List ℕ → ℕ
count id [] = 0
count id (x ∷ xs) = (if id == x then 1 else 0) + count id xs

count-append : (id : ℕ) (xs ys : List ℕ) → count id (xs ++ ys) ≡ count id xs + count id ys
count-append id [] ys = omega arith
count-append id (x ∷ xs) ys = omega (arith, count-append id xs ys)

-- The map has the workers that run and those whose end the controller has not seen, each of them once, and
-- `workers_cnt` is their number.
pub record Counted (p : Pool) : Type 0 where
  pub map : IsLive p.workers
  pub each :
      (id : ℕ)
      → count id p.running + count id p.stopped ≡ (if has id (view p.workers) then 1 else 0)
  pub blocks : (id : ℕ) → has id (view p.workers) ≡ true → get id (view p.workers) ≢ 0
  pub new : (id : ℕ) → p.next_id ≤ id → has id (view p.workers) ≡ false
  pub total : p.workers_cnt ≡ length p.running + length p.stopped

controller_init-Counted : Counted controller_init
unfolding controller_init
controller_init-Counted = record {
  map = init-IsLive;
  each = λ id. rw (has-init id) refl;
  blocks = λ id h. absurd (cc (has-init id));
  new = λ id h. has-init id;
  total = refl;
}

module _ (p : Pool) (h : Counted p) where
  run_worker-Counted : Counted (run_worker p)
  unfolding run_worker
  run_worker-Counted = record {
    map = insert-IsLive p.workers h.map p.next_id (suc p.next_id);
    each = λ id.
        ground
          (arith, h.each id, h.new id, has-insert p.workers h.map id p.next_id (suc p.next_id));
    blocks = λ id k. ground (
      arith,
      h.blocks id,
      h.new id,
      has-insert p.workers h.map id p.next_id (suc p.next_id),
      get-insert p.workers h.map id p.next_id (suc p.next_id),
    );
    new = λ id k. ground (arith, h.new id, has-insert p.workers h.map id p.next_id (suc p.next_id));
    total = omega (arith, h.total);
  }

  decrease_workers-Counted : Counted (decrease_workers p)
  unfolding decrease_workers
  decrease_workers-Counted = record {
    map = h.map;
    each = h.each;
    blocks = h.blocks;
    new = h.new;
    total = h.total;
  }

  leave-Counted :
      (before : List ℕ) (id : ℕ) (after : List ℕ)
      → p.running ≡ before ++ id ∷ after
      → Counted (leave before id after p)
  unfolding leave
  leave-Counted before id after e = record {
    map = h.map;
    each = λ w. omega (
      arith,
      h.each w,
      ap (count w) e,
      count-append w before (id ∷ after),
      count-append w before after,
      count-append w p.stopped (id ∷ []),
    );
    blocks = h.blocks;
    new = h.new;
    total = omega (
      arith,
      h.total,
      ap length e,
      length-append before (id ∷ after),
      length-append before after,
      length-append p.stopped (id ∷ []),
    );
  }

  worker_exit-Counted :
      (id : ℕ) (rest : List ℕ)
      → p.stopped ≡ id ∷ rest
      → Counted (worker_exit id (record p { stopped = rest }))
  unfolding worker_exit
  worker_exit-Counted id rest e =
      let there : has id (view p.workers) ≡ true = ground (arith, h.each id, ap (count id) e) in
      let value = Laws.erase_key_result p.workers h.map.valid id h.map.live in
      let found : ((Ops.erase_key p.workers id).1 == 0) ≡ false =
        ground (arith, value, h.blocks id there) in
      rw found (record {
        map = erase-IsLive p.workers h.map id;
        each = λ w. ground (arith, h.each w, ap (count w) e, has-erase_key p.workers h.map w id);
        blocks = λ w k. ground (
          arith,
          h.blocks w,
          has-erase_key p.workers h.map w id,
          get-erase_key p.workers h.map w id,
        );
        new = λ w k. ground (arith, h.new w, has-erase_key p.workers h.map w id);
        total = omega (arith, h.total, ap length e);
      })

times-keeps :
    (n : ℕ) (f : Pool → Pool)
    → ((p : Pool) → Counted p → Counted (f p))
    → (p : Pool) → Counted p
    → Counted (times n f p)
times-keeps zero f keeps p h = h
times-keeps (suc n) f keeps p h = times-keeps n f keeps (f p) (keeps p h)

pub times-Counted : (n : ℕ) (p : Pool) → Counted p → Counted (times n decrease_workers p)
times-Counted n p h = times-keeps n decrease_workers decrease_workers-Counted p h

pub Stopping-Counted : {p q : Pool} → Stopping p q → Counted p → Counted q
Stopping-Counted {p} (leaves n before id after x e) h = leave-Counted p h before id after e
Stopping-Counted {p} (joins id rest e) h = worker_exit-Counted p h id rest e

step-Counted : {p q : Pool} → Step p q → Counted p → Counted q
unfolding change_worker_cnt
step-Counted {p} (changes cnt) h =
    times-Counted (p.workers_cnt - cnt) (times (cnt - p.workers_cnt) run_worker p)
      (times-keeps (cnt - p.workers_cnt) run_worker run_worker-Counted p h)
step-Counted (stops s) h = Stopping-Counted s h

-- In every state that the controller reaches, by requests for any numbers of workers and by the
-- ends of workers in any order, the map of the workers has those that run and those whose end the
-- controller has still to handle, each of them once, and `workers_cnt` is their number.
pub workers-Counted : {p : Pool} → Reach p → Counted p
workers-Counted start = controller_init-Counted
workers-Counted (later r s) = step-Counted s (workers-Counted r)
