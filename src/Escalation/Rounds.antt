-- ===== src/Escalation/Rounds.antt =====
-- How long the escalation of an open incident goes on in engine.ts.
use uptimeflow.Common.{
  ℕ, zero, suc, ◌+◌, ◌-◌, ◌*◌, ◌≤◌, ◌<◌, ◌≡◌, ap, sym, ◌∙◌, ltb→lt, lt→ltb, tests, true, ◌&&◌,
  Option, none, some, List, [], ◌∷◌, ◌++◌, refl, get_elem?, ◌==◌, ltb, find, length, Bool-cases,
  inl, inr, arith,
}
use uptimeflow.Common.Int.{ℤ}
use uptimeflow.Common.Text.{Text}
use uptimeflow.Enums.{Instant, is_open}
use uptimeflow.Store.{Store, Incident, EscalationJob, is_live}
use uptimeflow.Escalation.Policy.{
  StepRow, PolicyRow, PolicyTables, steps_of, minutes_to_ms, EscalationContext, first_job, add_job,
  start,
}
use uptimeflow.Escalation.Paging.{Wiring}
use uptimeflow.Escalation.Engine.{job_at, next_round, next_job, process_job}
use uptimeflow.Escalation.Positions.{
  positions_from, positions, times, positions_from-all, positions_from-next, times-positive,
  positions_from-last,
}
use uptimeflow.Escalation.Firing.{fired_positions, listed, get_some, get_none, process_job-Fires}

left_wrap :
    (n index rounds : ℕ)
    → suc index ≡ n
    → 0 < rounds
    → n - index + rounds * n ≡ 1 + (n - 0 + (rounds - 1) * n)
left_wrap n index zero e h = absurd (omega arith)
left_wrap n index (suc k) e h = let shrunk : suc k - 1 ≡ k = omega arith in rw shrunk (omega arith)

all_left : (n rounds : ℕ) → n - 0 + rounds * n ≡ n * (rounds + 1)
all_left n rounds = omega arith

module _ (tz_offset_ms : Instant → Text → ℤ) (w : Wiring tz_offset_ms) (tables : PolicyTables)
    (clock : ℕ → Instant) where
  abbrev serve : ℕ → (Store → List ℕ) → Store → List (EscalationJob × ℕ) → List ℕ
  serve fuel again s [] = []
  serve fuel again s ((job, delay) ∷ rest) =
      let (result, after) =
        process_job tz_offset_ms w tables (clock fuel) (record s { escalation_jobs = rest }) job in
      fired_positions result ++ again after

  -- Process the jobs of the queue in order, those that they leave included, each at its own time, and
  -- list the positions of the steps that fire.
  pub drain : ℕ → Store → List ℕ
  drain zero s = []
  drain (suc fuel) s = serve fuel (drain fuel) s s.escalation_jobs

  drain-empty : (fuel : ℕ) (s : Store) → s.escalation_jobs ≡ [] → drain fuel s ≡ []
  unfolding drain
  drain-empty zero s e = refl
  drain-empty (suc fuel) s e = ap (serve fuel (drain fuel) s) e

  module _ (incident : Incident) (policy : PolicyRow) (first : StepRow) (rest : List StepRow)
      (job : EscalationJob) (is_there : steps_of tables job.policy_id ≡ first ∷ rest)
      (is_policy : find
          (λ (p : PolicyRow). p.id == job.policy_id && is_live p.deleted_at)
          tables.policies
        ≡ some policy)
      (opened : is_open incident.status ≡ true) where
    abbrev steps : List StepRow
    steps = first ∷ rest

    -- The steps left, from step `index` with `rounds` more rounds to go.
    abbrev left : ℕ → ℕ → ℕ
    left index rounds = length steps - index + rounds * length steps

    -- The job after a step: the next step, or the first one of the next round.
    next_within :
        (index round : ℕ)
        → suc index < length steps
        → (d : ℕ) × (next_job steps policy.repeat_count (job_at job index round)
            ≡ some (job_at job (suc index) round, d))
    unfolding next_job
    next_within index round h =
        let (x, e) = get_some steps (suc index) h in
        (minutes_to_ms x.delay_minutes, rw (e, next_job))

    next_wraps :
        (index round : ℕ)
        → length steps ≤ suc index
        → next_job steps policy.repeat_count (job_at job index round)
          ≡ next_round steps policy.repeat_count (job_at job index round)
    unfolding next_job
    next_wraps index round h = rw (get_none steps (suc index) h, next_job)

    next_round-some :
        (index round : ℕ)
        → round < policy.repeat_count
        → next_round steps policy.repeat_count (job_at job index round)
          ≡ some (job_at job 0 (round + 1), minutes_to_ms first.delay_minutes)
    unfolding next_round
    next_round-some index round h = rw (lt→ltb _ _ h)

    next_round-none :
        (index round : ℕ)
        → round ≡ policy.repeat_count
        → next_round steps policy.repeat_count (job_at job index round) ≡ none
    unfolding next_round
    next_round-none index round h = ground arith

    drain_step :
        (fuel : ℕ) (s : Store) (index round delay : ℕ) (x : StepRow)
        (o : Option (EscalationJob × ℕ))
        → s.escalation_jobs ≡ (job_at job index round, delay) ∷ []
        → find (λ (i : Incident). i.id == job.incident_id) s.incidents ≡ some incident
        → get_elem? steps index ≡ some x
        → next_job steps policy.repeat_count (job_at job index round) ≡ o
        → (t : Store) × (drain (suc fuel) s ≡ x.position ∷ drain fuel t)
          × (t.escalation_jobs ≡ listed o)
          × (find (λ (i : Incident). i.id == job.incident_id) t.incidents ≡ some incident)
    unfolding drain
    drain_step fuel s index round delay x o q found h e =
        let (one, jobs, kept) =
          process_job-Fires tz_offset_ms w tables (clock fuel) incident policy first rest job
            is_there is_policy opened (record s { escalation_jobs = [] }) index round x found h in
        let after : Store =
          (process_job tz_offset_ms w tables (clock fuel) (record s { escalation_jobs = [] })
            (job_at job index round)).1 in
        (
          after,
          ap (serve fuel (drain fuel) s) q ∙ ap (λ ps. ps ++ drain fuel after) one,
          jobs ∙ ap listed e,
          ap (find (λ (i : Incident). i.id == job.incident_id)) kept ∙ found,
        )

    -- The positions still to fire, from step `index` with `rounds` more rounds to go.
    abbrev to_fire : ℕ → ℕ → List ℕ
    to_fire index rounds = positions_from steps index ++ times rounds (positions_from steps 0)

    to_fire-wraps :
        (index rounds : ℕ) (x : StepRow)
        → get_elem? steps index ≡ some x
        → length steps ≤ suc index
        → 0 < rounds
        → x.position ∷ to_fire 0 (rounds - 1) ≡ to_fire index rounds
    to_fire-wraps index rounds x e above positive =
        ap (λ ps. x.position ∷ ps) (sym (times-positive rounds (positions_from steps 0) positive))
        ∙ ap (λ ps. ps ++ times rounds (positions_from steps 0))
            (sym (positions_from-last steps index x e above))

    to_fire-last :
        (index rounds : ℕ) (x : StepRow)
        → get_elem? steps index ≡ some x
        → length steps ≤ suc index
        → rounds ≡ 0
        → x.position ∷ [] ≡ to_fire index rounds
    to_fire-last index rounds x e above none_left =
        rw none_left (ap (λ ps. ps ++ []) (sym (positions_from-last steps index x e above)))

    drain-left :
        (fuel : ℕ) (s : Store) (index round rounds delay : ℕ)
        → s.escalation_jobs ≡ (job_at job index round, delay) ∷ []
        → find (λ (i : Incident). i.id == job.incident_id) s.incidents ≡ some incident
        → index < length steps
        → round + rounds ≡ policy.repeat_count
        → left index rounds ≤ fuel
        → drain fuel s ≡ to_fire index rounds
    drain-left zero s index round rounds delay q found h r f = absurd (omega arith)
    drain-left (suc fuel) s index round rounds delay q found h r f =
        let (x, there) = get_some steps index h in
        elim (Bool-cases (ltb (suc index) (length steps))) [
          | inl more ↦
              let (d, e) = next_within index round (ltb→lt _ _ more) in
              let (t, run, queued, found') =
                drain_step fuel s index round delay x _ q found there e in
              let below : suc index < length steps = ltb→lt _ _ more in
              run
              ∙ ap (λ ps. x.position ∷ ps)
                  (drain-left fuel t (suc index) round rounds d queued found' below r (omega arith))
              ∙ ap (λ ps. ps ++ times rounds (positions_from steps 0))
                  (sym (positions_from-next steps index x there))
          | inr last ↦
              let above : suc index ≡ length steps = ground arith in
              let wraps = next_wraps index round (omega arith) in
              elim (Bool-cases (ltb round policy.repeat_count)) [
                | inl again ↦
                    let e = wraps ∙ next_round-some index round (ltb→lt _ _ again) in
                    let (t, run, queued, found') =
                      drain_step fuel s index round delay x _ q found there e in
                    let positive : 0 < rounds = omega (tests, ltb→lt _ _ again) in
                    let wrapped = left_wrap (length steps) index rounds above positive in
                    run
                    ∙ ap (λ ps. x.position ∷ ps)
                        (drain-left fuel t 0 (round + 1) (rounds - 1) _ queued found' (omega arith)
                          (omega arith) (omega (arith, wrapped)))
                    ∙ to_fire-wraps index rounds x there (omega arith) positive
                | inr over ↦
                    let e = wraps ∙ next_round-none index round (ground arith) in
                    let (t, run, queued, found') =
                      drain_step fuel s index round delay x _ q found there e in
                    let none_left : rounds ≡ 0 = ground arith in
                    run
                    ∙ ap (λ ps. x.position ∷ ps) (drain-empty fuel t queued)
                    ∙ to_fire-last index rounds x there (omega arith) none_left
              ]
        ]

  -- Where an incident is open, its policy is live and has steps, and no other job is queued, the jobs
  -- that a start of the escalation leads to fire the policy's steps one after another, all of them in
  -- each of `repeat_count + 1` rounds, and fire no others: with any fuel for at least so many jobs.
  pub escalation_rounds :
      (incident : Incident) (policy : PolicyRow) (first : StepRow) (rest : List StepRow)
      (ctx : EscalationContext) (fuel : ℕ) (s : Store)
      → steps_of tables ctx.policy_id ≡ first ∷ rest
      → find (λ (p : PolicyRow). p.id == ctx.policy_id && is_live p.deleted_at) tables.policies
        ≡ some policy
      → is_open incident.status ≡ true
      → find (λ (i : Incident). i.id == ctx.incident_id) s.incidents ≡ some incident
      → s.escalation_jobs ≡ []
      → length (first ∷ rest) * (policy.repeat_count + 1) ≤ fuel
      → drain fuel (start tables s ctx).1
        ≡ times (suc policy.repeat_count) (positions (first ∷ rest))
  unfolding start add_job
  escalation_rounds incident policy first rest ctx fuel s is_there is_policy opened found idle f =
      let total = all_left (length (first ∷ rest)) policy.repeat_count in
      let begun : (start tables s ctx).1
          ≡ add_job s (first_job ctx) (minutes_to_ms first.delay_minutes) =
        rw (is_there, start) refl in
      ap (drain fuel) begun
      ∙ drain-left incident policy first rest (first_job ctx) is_there is_policy opened fuel
          (add_job s (first_job ctx) (minutes_to_ms first.delay_minutes)) 0 0 policy.repeat_count _
          (ap (λ js. js ++ (first_job ctx, minutes_to_ms first.delay_minutes) ∷ []) idle) found
          (omega arith) (omega arith) (omega (arith, total))
      ∙ ap (λ ps. ps ++ times policy.repeat_count ps) (positions_from-all (first ∷ rest))
