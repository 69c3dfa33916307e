-- ===== src/Canbus/Scheduler/Pause.antt =====
-- CanbusSchedulerService::Pause: the wait for the tasks.
use eerie_leap_rt.Common.{
  ℕ, zero, suc, ◌<◌, ◌≡◌, refl, true, some, List, [], ◌∷◌, arith, Bool-cases, inl, inr,
}
use eerie_leap_rt.Canbus.Platform.{Platform, CanbusTask}
use eerie_leap_rt.Canbus.Scheduler.{Scheduler, wait_canceled, cancel_all, pause}

-- A work item that is being cancelled stops running: after each millisecond there is less of its
-- run left, and no run is longer than `limit`.
pub record Stops (p : Platform) (limit : ℕ) : Type 0 where
  pub left : p.Handle → p.World → ℕ
  pub left_limit : (h : p.Handle) (w : p.World) → left h w < limit
  pub left_falls :
      (h : p.Handle) (w : p.World)
      → (p.cancel h w).0 ≡ true
      → left h (p.sleep 1 (p.cancel h w).1) < left h w

module _ (p : Platform) (limit : ℕ) (stops : Stops p limit) where
  open p use {World, Handle}

  wait_canceled_ends :
      (fuel : ℕ) (h : Handle) (w : World)
      → stops.left h w < fuel
      → (w' : World) × (wait_canceled p fuel h w ≡ some w')
  unfolding wait_canceled
  wait_canceled_ends zero h w enough = absurd (omega arith)
  wait_canceled_ends (suc fuel) h w enough = elim (Bool-cases (p.cancel h w).0) [
    | inl e ↦
        let less = stops.left_falls h w e in
        let (w', q) = wait_canceled_ends fuel h (p.sleep 1 (p.cancel h w).1) (omega arith) in
        (w', rw (e, wait_canceled) q)
    | inr e ↦ ((p.cancel h w).1, rw (e, wait_canceled) refl)
  ]

  cancel_all_ends :
      (tasks : List (CanbusTask p × Handle)) (w : World)
      → (w' : World) × (cancel_all p limit tasks w ≡ some w')
  unfolding cancel_all
  cancel_all_ends [] w = (w, refl)
  cancel_all_ends ((task, handle) ∷ tasks) w =
      let (w1, q1) = wait_canceled_ends limit handle w (stops.left_limit handle w) in
      let (w2, q2) = cancel_all_ends tasks w1 in (w2, rw (q1, cancel_all) q2)

  -- If no work item that is being cancelled runs on for `limit` milliseconds or more, Pause ends with
  -- at most `limit` calls of Cancel for each task, and keeps the tasks for Resume.
  pub pause_ends :
      (s : Scheduler p)
      → (t : Scheduler p) × (pause p limit s ≡ some t)
        × (t.work_queue_tasks ≡ s.work_queue_tasks)
        × (t.thread_ready ≡ s.thread_ready)
  unfolding pause
  pause_ends s =
      let (w, q) = cancel_all_ends s.work_queue_tasks s.world in
      (record s { world = w }, rw q refl, refl, refl)
