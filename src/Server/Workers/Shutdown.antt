-- ===== src/Server/Workers/Shutdown.antt =====
-- The end of `controller_thread`: the workers stop, whatever the order in which things happen.
use acos_chat.Base.{
  ℕ, zero, suc, ◌+◌, ◌-◌, ◌*◌, ◌≤◌, ◌<◌, ◌≡◌, refl, ap, List, [], ◌∷◌, ◌++◌, length, length-append,
  ◌==◌, if_both, ◌⊎◌, inl, inr, arith,
}
use acos_chat.TsMap.Ops
use acos_chat.Server.Workers.{
  Pool, decrease_workers, times, worker_exit, leave, stop_workers, Stopping, leaves, joins, Reach,
}
use acos_chat.Server.Workers.Counted.{Counted, Stopping-Counted, times-Counted, workers-Counted}

-- However things go on, `workers_cnt` becomes 0: it is, or something can happen, and whatever happens
-- leads to such a state.
pub data Ends : Pool → Type 0 where
  ended : {p : Pool} → p.workers_cnt ≡ 0 → Ends p
  goes_on : {p : Pool} (q : Pool) → Stopping p q → ((r : Pool) → Stopping p r → Ends r) → Ends p

-- There are `EXIT_EVT`s for all that run.
abbrev Enough : Pool → Type 0
Enough p = length p.running ≤ p.exits

-- What falls.
abbrev left : Pool → ℕ
left p = 2 * length p.running + length p.stopped

leave_left :
    (p : Pool) (n : ℕ) (before : List ℕ) (id : ℕ) (after : List ℕ)
    → p.exits ≡ suc n
    → p.running ≡ before ++ id ∷ after
    → Enough p
    → Enough (leave before id after p) × (left (leave before id after p) < left p)
unfolding leave
leave_left p n before id after x e enough =
    let long = ap length e in
    let split = length-append before (id ∷ after) in
    let rest = length-append before after in
    let more = length-append p.stopped (id ∷ []) in
    (omega (arith, long, split, rest, x), omega (arith, long, split, rest, more))

same_running :
    (p : Pool) (id : ℕ)
    → ((worker_exit id p).running ≡ p.running)
      × ((worker_exit id p).stopped ≡ p.stopped)
      × ((worker_exit id p).exits ≡ p.exits)
unfolding worker_exit
same_running p id =
    if_both (λ (q : Pool). (q.running ≡ p.running) × (q.stopped ≡ p.stopped) × (q.exits ≡ p.exits))
      ((Ops.erase_key p.workers id).1 == 0) (refl, refl, refl) (refl, refl, refl)

step_left : {p q : Pool} → Stopping p q → Enough p → Enough q × (left q < left p)
step_left {p} (leaves n before id after x e) enough = leave_left p n before id after x e enough
step_left {p} (joins id rest e) enough =
    let same = same_running (record p { stopped = rest }) id in
    let long = ap length e in
    (
      omega (arith, ap length same.0, same.2),
      omega (arith, ap length same.0, ap length same.1, long),
    )

-- Something can happen while a worker is left.
can_stop :
    (p : Pool) (running stopped : List ℕ)
    → p.running ≡ running
    → p.stopped ≡ stopped
    → Enough p
    → p.workers_cnt ≡ length running + length stopped
    → (p.workers_cnt ≡ 0) ⊎ ((q : Pool) × Stopping p q)
can_stop p [] [] r s enough total = inl (omega (arith, total))
can_stop p running (id ∷ rest) r s enough total =
    inr (worker_exit id (record p { stopped = rest }), joins id rest s)
can_stop p (id ∷ after) [] r s enough total =
    let long = ap length r in
    let exits : p.exits ≡ suc (p.exits - 1) = omega (arith, long) in
    inr (leave [] id after p, leaves (p.exits - 1) [] id after exits r)

left-Ends : (n : ℕ) (p : Pool) → left p < n → Enough p → Counted p → Ends p
left-Ends zero p small enough h = absurd (omega arith)
left-Ends (suc n) p small enough h =
    elim (can_stop p p.running p.stopped refl refl enough h.total) [
      | inl e ↦ ended e
      | inr (q, s) ↦ goes_on q s (λ r t.
          let step = step_left t enough in
          left-Ends n r (omega (arith, step.1)) step.0 (Stopping-Counted t h))
    ]

times_exits :
    (n : ℕ) (p : Pool)
    → ((times n decrease_workers p).exits ≡ p.exits + n)
      × ((times n decrease_workers p).running ≡ p.running)
unfolding decrease_workers
times_exits zero p = (omega arith, refl)
times_exits (suc n) p =
    let rest = times_exits n (decrease_workers p) in (omega (arith, rest.0), rest.1)

-- From every state that the controller reaches, after the `EXIT_EVT`s that `controller_thread`
-- sends at its end, in whatever order the workers take them and the controller handles what they
-- send: `workers_cnt` becomes 0, so that its last loop ends.
pub stop_workers-Ends : {p : Pool} → Reach p → Ends (stop_workers p)
unfolding stop_workers
stop_workers-Ends {p} r =
    let h = workers-Counted r in
    let sent = times_exits p.workers_cnt p in
    left-Ends (suc (left (times p.workers_cnt decrease_workers p)))
      (times p.workers_cnt decrease_workers p) (omega arith)
      (omega (arith, sent.0, ap length sent.1, h.total)) (times-Counted p.workers_cnt p h)
