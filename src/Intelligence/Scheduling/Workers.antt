-- ===== src/Intelligence/Scheduling/Workers.antt =====
-- How the number of workers follows the load and the queue.
use chat_to_agent.Base.{ℕ, ◌≤◌, min, arith}
use chat_to_agent.Intelligence.Scheduling.{
  AdaptiveScheduler, health_score, decide, worker_count, desired_workers, SchedulingInputs,
  desired_workers, with_pressure,
}

desired_workers-health :
    (i : SchedulingInputs) (h k : ℕ)
    → h ≤ k
    → i.min_workers ≤ i.target_browsers
    → desired_workers h i ≤ desired_workers k i
unfolding desired_workers
desired_workers-health i h k le m = ground arith

with_pressure_mono :
    (i : SchedulingInputs) (d e q : ℕ)
    → d ≤ e
    → i.queue_depth ≤ q
    → min i.max_workers (with_pressure d i)
      ≤ min i.max_workers (with_pressure e (record i { queue_depth = q }))
unfolding with_pressure
with_pressure_mono i d e q le lq = ground arith

health_score_mono :
    (i : SchedulingInputs) (cpu ram q : ℕ)
    → cpu ≤ i.cpu_percent
    → ram ≤ i.ram_percent
    → health_score i
      ≤ health_score (record i { cpu_percent = cpu; ram_percent = ram; queue_depth = q })
unfolding health_score
health_score_mono i cpu ram q c r = omega arith

-- Where the least number of workers is at most the greatest and at most the target, the number
-- decided on lies between the least and the greatest, and it does not fall when the loads fall or
-- stay and the queue grows or stays.
pub decide-workers :
    (i : SchedulingInputs) (s : AdaptiveScheduler) (cpu ram q : ℕ)
    → i.min_workers ≤ i.max_workers
    → i.min_workers ≤ i.target_browsers
    → cpu ≤ i.cpu_percent
    → ram ≤ i.ram_percent
    → i.queue_depth ≤ q
    → let j = record i { cpu_percent = cpu; ram_percent = ram; queue_depth = q } in
      (i.min_workers ≤ (decide i s).0.0)
      × ((decide i s).0.0 ≤ i.max_workers)
      × ((decide i s).0.0 ≤ (decide j s).0.0)
unfolding decide worker_count desired_workers
decide-workers i s cpu ram q m t c r lq =
    let j = record i { cpu_percent = cpu; ram_percent = ram; queue_depth = q } in
    let d =
      desired_workers-health i (health_score i) (health_score j) (health_score_mono i cpu ram q c r)
        t in
    let p =
      with_pressure_mono i (desired_workers (health_score i) i) (desired_workers (health_score j) i)
        q d lq in
    (omega arith, omega arith, omega (arith, p))
