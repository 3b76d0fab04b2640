-- ===== src/Runtime/TaskManager/Accounts.antt =====
-- What `pool_stats` of a `TaskManager` reports after any steps.
use sagittarius_engine.Prelude.{ℕ, ◌+◌, ◌-◌, ◌≡◌, refl, List, arith}
use sagittarius_engine.Runtime.TaskManager.{
  is_background, is_critical, new, Step, run, pool_stats, stats_of,
}
use sagittarius_engine.Runtime.TaskManager.Counting.{count}
use sagittarius_engine.Runtime.TaskManager.Pools.{run-balance}
use sagittarius_engine.Runtime.TaskManager.Weights.{outstanding, refusals}
use sagittarius_engine.Runtime.TaskManager.Steps.{new-Sound}

-- After any steps of a new task manager, for both pools: what is in flight are the pool's tasks
-- whose future is not done and, for ever, every submission that the executor has refused; what is
-- queued is what of it exceeds the workers.
pub pool_stats_lem :
    (limit : ℕ) (es : List Step)
    → (let m = run limit es new in
        let waiting_background =
          count (outstanding is_background) m.tasks + refusals is_background es in
        let waiting_critical = count (outstanding is_critical) m.tasks + refusals is_critical es in
        ((pool_stats m).0.in_flight ≡ waiting_background)
        × ((pool_stats m).0.queue_depth ≡ waiting_background - 20)
        × ((pool_stats m).1.in_flight ≡ waiting_critical)
        × ((pool_stats m).1.queue_depth ≡ waiting_critical - 10))
unfolding new pool_stats stats_of count
pool_stats_lem limit es =
    let of_background =
      run-balance is_background (λ b c. b) (λ p b c. refl) (λ p b c. refl) limit es new 0 new-Sound
        (omega arith) in
    let of_critical =
      run-balance is_critical (λ b c. c) (λ p b c. refl) (λ p b c. refl) limit es new 0 new-Sound
        (omega arith) in
    (
      omega (arith, of_background),
      omega (arith, of_background),
      omega (arith, of_critical),
      omega (arith, of_critical),
    )
