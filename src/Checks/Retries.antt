-- ===== src/Checks/Retries.antt =====
-- The loop of executeCheck in packages/monitoring/src/execute.ts.
use uptimeflow.Common.{
  ℕ, zero, suc, ◌+◌, ◌≤◌, ◌<◌, ◌≡◌, refl, ◌⊎◌, inl, inr, true, false, Option, some, Bool-cases,
  arith,
}
use uptimeflow.Runtime.{Runtime}
use uptimeflow.Snapshot.{MonitorSnapshot, ProbeSignal, ProbeOutcome, is_success}
use uptimeflow.Checks.Execute.{classify_signal, attempt_from, execute_check}

module _ (rt : Runtime) (m : MonitorSnapshot) (signals : ℕ → ProbeSignal) where
  abbrev pub outcome_at : ℕ → ProbeOutcome
  outcome_at k = classify_signal rt m (signals k) (k + 1)

  -- Attempt `k` decided the check that began at attempt `start` with `left` retries.
  pub record IsDecided (start left : ℕ) (result : Option ProbeOutcome) (k : ℕ) : Type 0 where
    pub from : start ≤ k
    pub within : k ≤ start + left
    pub result_at : result ≡ some (outcome_at k)
    pub earlier_failed : (j : ℕ) → start ≤ j → j < k → is_success (outcome_at j).status ≡ false
    pub last_word : (is_success (outcome_at k).status ≡ true) ⊎ (k ≡ start + left)

  attempt_from-IsDecided :
      (left start : ℕ)
      → (k : ℕ) × IsDecided start left (attempt_from rt m (λ i. some (signals i)) left start) k
  unfolding attempt_from
  attempt_from-IsDecided zero start = (
    start,
    record {
      from = omega arith;
      within = omega arith;
      result_at = refl;
      earlier_failed = λ j a b. absurd (omega arith);
      last_word = inr (omega arith);
    },
  )
  attempt_from-IsDecided (suc left) start =
      elim (Bool-cases (is_success (outcome_at start).status)) [
        | inl e ↦ (
          start,
          record {
            from = omega arith;
            within = omega arith;
            result_at = rw e;
            earlier_failed = λ j a b. absurd (omega arith);
            last_word = inl e;
          },
        )
        | inr e ↦
            let (k, d) = attempt_from-IsDecided left (start + 1) in
            (
              k,
              record {
                from = omega arith;
                within = omega arith;
                result_at = rw e d.result_at;
                earlier_failed = λ j a b. ground (arith, e, d.earlier_failed j);
                last_word = ground (arith, d.last_word);
              },
            )
      ]

  -- When no attempt throws, a check always has an outcome: that of the first attempt that succeeds
  -- among the first `retries + 1`, or of the last of these where none does. Its `attempts` counts
  -- the attempts made.
  pub execute_check-IsDecided :
      (k : ℕ) × IsDecided 0 m.retries (execute_check rt m (λ i. some (signals i))) k
  unfolding execute_check
  execute_check-IsDecided = attempt_from-IsDecided m.retries 0
