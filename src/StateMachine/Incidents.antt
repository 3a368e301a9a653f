-- ===== src/StateMachine/Incidents.antt =====
-- The incident actions of state-machine.ts over a whole history, newest check first.
use uptimeflow.Common.{
  ℕ, ◌+◌, ◌≤◌, ◌≡◌, ◌≢◌, refl, Bool, true, false, List, [], ◌∷◌, All, Option, none, some, arith,
}
use uptimeflow.Enums.{MonitorHealth}
use uptimeflow.StateMachine.{
  IncidentAction, opens, resolves, nothing, Check, Progress, decide_check, advance,
}
use uptimeflow.StateMachine.Streaks.{after}

-- The protocol of incidents: one is opened only while none is open, and resolved only while one is.
abbrev pub follow : Option Bool → IncidentAction → Option Bool
follow (some false) opens = some true
follow (some true) resolves = some false
follow (some b) nothing = some b
follow _ _ = none

-- The healths in which an incident is open.
abbrev pub in_outage : MonitorHealth → Bool
in_outage MonitorHealth.down = true
in_outage MonitorHealth.recovering = true
in_outage _ = false

module _ (failure_threshold success_threshold : ℕ) where
  abbrev pub followed : Progress → List Check → Option Bool
  followed p [] = some (in_outage p.health)
  followed p (c ∷ older) =
      follow (followed p older)
        (decide_check failure_threshold success_threshold
          (after failure_threshold success_threshold p older) c).incident

  never_maintenance :
      (p : Progress) (history : List Check)
      → p.health ≢ MonitorHealth.maintenance
      → All (λ (c : Check). c.in_maintenance ≡ false) history
      → (after failure_threshold success_threshold p history).health ≢ MonitorHealth.maintenance
  unfolding advance
  never_maintenance p [] n h = n
  never_maintenance p (c ∷ older) n h = ground (arith, never_maintenance p older n h.1)

  -- From a health other than maintenance, the actions of any history outside maintenance open and
  -- resolve incidents strictly in turn, and an incident is open exactly while the monitor is down
  -- or recovering.
  pub incidents_bracketed :
      (p : Progress) (history : List Check)
      → p.health ≢ MonitorHealth.maintenance
      → All (λ (c : Check). c.in_maintenance ≡ false) history
      → followed p history
        ≡ some (in_outage (after failure_threshold success_threshold p history).health)
  unfolding advance
  incidents_bracketed p [] n h = refl
  incidents_bracketed p (c ∷ older) n h =
      ground (arith, incidents_bracketed p older n h.1, never_maintenance p older n h.1)

  -- When a check inside a maintenance window meets a monitor that is down, it asks for nothing;
  -- when the next check is outside the window and fails with the failure threshold reached, it
  -- asks to open an incident.
  pub maintenance_reopens :
      (p : Progress) (c d : Check)
      → p.health ≡ MonitorHealth.down
      → c.in_maintenance ≡ true
      → d.in_maintenance ≡ false
      → d.success ≡ false
      → failure_threshold ≤ (advance failure_threshold success_threshold p c).failures + 1
      → (decide_check failure_threshold success_threshold p c).incident ≡ nothing
        × ((decide_check failure_threshold success_threshold
              (advance failure_threshold success_threshold p c)
              d).incident
            ≡ opens)
  unfolding advance
  maintenance_reopens p c d h m n f k = ground arith
