-- ===== src/Canbus/Task/Paced.antt =====
-- The runs of one task over time, as the work queue makes them.
use eerie_leap_rt.Common.{
  ℕ, zero, suc, ◌+◌, ◌*◌, ◌≤◌, ◌≡◌, refl, sym, ap, ◌∙◌, inl, inr, Bool, true, false, returns, arith,
}
use eerie_leap_rt.Canbus.Platform.{Platform, CanbusTask}
use eerie_leap_rt.Canbus.Task.{WorkQueueTaskResult, process_canbus_work_task}
use eerie_leap_rt.Canbus.Task.Sends.{result_of, process_canbus_work_task_result}

module _ (p : Platform) (k : p.Config) (task : CanbusTask p) where
  -- A run: when it begins, in milliseconds, and in which world.
  pub record Run : Type 0 where
    pub at : ℕ
    pub before : p.World

  -- What the work queue promises of a run and the next one that it makes because the first one asked
  -- for it: its delay has passed.
  pub record Follows (r s : Run) : Type 0 where
    pub result : WorkQueueTaskResult
    pub answered : (process_canbus_work_task p k task r.before).0 ≡ returns result
    pub asked : result.reschedule ≡ true
    pub waited : r.at + result.delay ≤ s.at

  -- From the first run to the last one, with the number of runs that the one before asked for.
  -- `scheduled` is a run that Start, Resume or Restart asked for, at any time behind the one before.
  pub data Runs (r : Run) : ℕ → Run → Type 0 where
    once : Runs r 0 r
    again : {n : ℕ} {s t : Run} → Runs r n s → Follows s t → Runs r (suc n) t
    scheduled : {n : ℕ} {s t : Run} → Runs r n s → s.at ≤ t.at → Runs r n t

  result_of-returns :
      (w : p.World) (result : WorkQueueTaskResult)
      → (process_canbus_work_task p k task w).0 ≡ returns result
      → result ≡ result_of p task (p.is_valid task.canbus w)
  result_of-returns w result h = elim (process_canbus_work_task_result p k task w) [
    | inl e ↦ cc
    | inr e ↦ cc
  ]

  result_of-reschedule :
      (valid : Bool)
      → (result_of p task valid).reschedule ≡ true
      → (valid ≡ true) × ((result_of p task valid).delay ≡ task.task_interval_ms)
  unfolding result_of
  result_of-reschedule true h = (refl, refl)
  result_of-reschedule false h = cc

  -- Between two runs the task's interval passes, and the bus was valid at the first of them.
  Follows-paced :
      (r s : Run)
      → Follows r s
      → (p.is_valid task.canbus r.before ≡ true) × (r.at + task.task_interval_ms ≤ s.at)
  Follows-paced r s f =
      let e = result_of-returns r.before f.result f.answered in
      let (valid, delay) =
        result_of-reschedule _ (ap (λ (x : WorkQueueTaskResult). x.reschedule) (sym e) ∙ f.asked) in
      (valid, omega (arith, f.waited, ap (λ (x : WorkQueueTaskResult). x.delay) e, delay))

  Runs-passed : (r s : Run) (n : ℕ) → Runs r n s → r.at + n * task.task_interval_ms ≤ s.at
  Runs-passed r s zero once = omega arith
  Runs-passed r s (suc n) (again {s = u} q f) =
      let earlier = Runs-passed r u n q in let (valid, waits) = Follows-paced u s f in grind arith
  Runs-passed r s n (scheduled {s = u} q later) = let earlier = Runs-passed r u n q in omega arith

  -- A run of a task that the run before it asked for comes at least the task's interval after that
  -- one, at which the bus was valid. So over any runs of the task, of which n + 1 were asked for by
  -- the run before them and the others were scheduled by Start, Resume or Restart at any times, the
  -- last of them asked for, at least n + 1 intervals pass.
  pub Runs-paced :
      (r s t : Run) (n : ℕ)
      → Runs r n s
      → Follows s t
      → (r.at + suc n * task.task_interval_ms ≤ t.at) × (p.is_valid task.canbus s.before ≡ true)
  Runs-paced r s t n q f =
      let (valid, waits) = Follows-paced s t f in
      let passed = Runs-passed r s n q in (grind arith, valid)
