-- ===== src/Jobs/Verdicts.antt =====
-- What `Reconcile` of internal/remediation/dispatch.go decides about stuck remediations.
use argus.Base.{ℕ, String, ◌≡◌, Bool, not, ◌&&◌, List, [], ◌∷◌, ◌++◌, leb, if◌then◌else◌}
use argus.Base.Result.{Result}
use argus.Jobs.Batches.{Among}
use argus.Jobs.Late.{IsLate}
use argus.Jobs.{Action, World}
use argus.Jobs.Reconcile.{Config, Stuck, Outcome, redispatches, has_worker}

-- A stuck row, with the number of its redispatches and whether a live worker supports it.
abbrev pub IsStuck : {L Q : Type 0} → Config → ℕ → World L Q → Stuck → Type 0
IsStuck c now w s =
    (a : Action) × Among a w.actions
    × IsLate c now w.dispatches a
    × ((s.id ≡ a.id)
        × (s.status ≡ a.status)
        × (s.redispatches ≡ redispatches a.id w.dispatches)
        × (s.has_worker ≡ has_worker c.worker_live_window now a.action_type w.heartbeats))

-- The three verdicts on a stuck row.
abbrev pub waits : Config → Stuck → Bool
waits c s = not s.has_worker

abbrev pub is_spent : Config → Stuck → Bool
is_spent c s = s.has_worker && leb c.max_redispatches s.redispatches

abbrev pub is_resent : Config → Stuck → Bool
is_resent c s = s.has_worker && not (leb c.max_redispatches s.redispatches)

abbrev pub ids : (Stuck → Bool) → List Stuck → List String
ids p [] = []
ids p (s ∷ rest) = let others = ids p rest in if p s then s.id ∷ others else others

-- One outcome after another: each verdict adds its rows.
abbrev pub Lists : Config → List Stuck → Outcome → Outcome → Type 0
Lists c l o o' =
    (o'.waiting_for_worker ≡ o.waiting_for_worker ++ ids (waits c) l)
    × (o'.exhausted ≡ o.exhausted ++ ids (is_spent c) l)
    × (o'.redispatched ≡ o.redispatched ++ ids (is_resent c) l)
