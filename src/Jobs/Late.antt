-- ===== src/Jobs/Late.antt =====
-- What makes a remediation stuck for `Reconcile` of internal/remediation/dispatch.go.
use argus.Base.{
  ℕ, ◌+◌, ◌≤◌, ◌<◌, String, ◌≡◌, ◌⊎◌, refl, ap, ◌∙◌, true, false, Option, none, some, List, [], ◌∷◌,
  All, arith, str_eq-eq, eq-str_eq, Bool-cases, inl, inr,
}
use argus.Remediation.States.{State, queued, running}
use argus.Jobs.{Action, Dispatch, DispatchState, pending}
use argus.Jobs.Outbox.{of_remediation, is_pending}
use argus.Jobs.Reconcile.{Config, older, newer, any_dispatch, overdue, is_recent, is_stuck}
use argus.Jobs.Batches.{Among}

-- A time that is set and more than an interval ago.
abbrev pub IsPast : Option ℕ → ℕ → ℕ → Type 0
IsPast time interval now = (t : ℕ) × (time ≡ some t) × (t + interval < now)

-- The remediation is queued for too long, or running for too long with a dispatch.
abbrev pub IsOverdue : Config → ℕ → List Dispatch → Action → Type 0
IsOverdue c now rows a =
    ((a.status ≡ queued) × IsPast a.queued_at c.redispatch_after now)
    ⊎ ((a.status ≡ running)
        × IsPast a.started_at c.running_stale_after now
        × ((d : Dispatch) × Among d rows × (d.remediation_id ≡ a.id)))

-- A dispatch of the remediation is not pending, and was stored and sent an interval ago at least.
abbrev pub IsSilent : String → ℕ → ℕ → Dispatch → Type 0
IsSilent id interval now d =
    d.remediation_id ≡ id
    → (d.state ≡ pending → ⊥)
      × (d.created_at + interval ≤ now)
      × ((t : ℕ) → d.published_at ≡ some t → t + interval ≤ now)

-- Overdue, and no dispatch of it is pending or recent.
abbrev pub IsLate : Config → ℕ → List Dispatch → Action → Type 0
IsLate c now rows a = IsOverdue c now rows a × All (IsSilent a.id c.redispatch_after now) rows

older-IsPast : (o : Option ℕ) (i now : ℕ) → older o i now ≡ true → IsPast o i now
older-IsPast none i now h = cc
older-IsPast (some t) i now h = (t, refl, ground arith)

IsPast-older : (o : Option ℕ) (i now : ℕ) → IsPast o i now → older o i now ≡ true
IsPast-older o i now (t, e, past) = rw e (ground arith)

any_dispatch-Among :
    (id : String) (rows : List Dispatch)
    → any_dispatch (of_remediation id) rows ≡ true
    → (d : Dispatch) × Among d rows × (d.remediation_id ≡ id)
unfolding any_dispatch
any_dispatch-Among id [] h = cc
any_dispatch-Among id (x ∷ rest) h = elim (Bool-cases (of_remediation id x)) [
  | inl own ↦ (x, inl refl, str_eq-eq x.remediation_id id own)
  | inr other ↦ let (d, m, e) = any_dispatch-Among id rest (ground arith) in (d, inr m, e)
]

Among-any_dispatch :
    (id : String) (rows : List Dispatch) (d : Dispatch)
    → Among d rows
    → d.remediation_id ≡ id
    → any_dispatch (of_remediation id) rows ≡ true
unfolding any_dispatch
Among-any_dispatch id [] d m e = elim m [ ]
Among-any_dispatch id (x ∷ rest) d (inl same) e =
    let own : of_remediation id x ≡ true =
      eq-str_eq x.remediation_id id (ap (λ (y : Dispatch). y.remediation_id) same ∙ e) in
    ground arith
Among-any_dispatch id (x ∷ rest) d (inr m) e = ground (arith, Among-any_dispatch id rest d m e)

overdue-IsOverdue :
    (c : Config) (now : ℕ) (rows : List Dispatch) (a : Action) (s : State)
    → a.status ≡ s
    → overdue s a c now rows ≡ true
    → IsOverdue c now rows a
overdue-IsOverdue c now rows a queued e h =
    inl (e, older-IsPast a.queued_at c.redispatch_after now h)
overdue-IsOverdue c now rows a running e h = inr (
  e,
  older-IsPast a.started_at c.running_stale_after now (ground arith),
  any_dispatch-Among a.id rows (ground arith),
)
overdue-IsOverdue c now rows a _ e h = cc

IsOverdue-overdue :
    (c : Config) (now : ℕ) (rows : List Dispatch) (a : Action)
    → IsOverdue c now rows a
    → overdue a.status a c now rows ≡ true
IsOverdue-overdue c now rows a (inl (e, past)) =
    ap (λ s. overdue s a c now rows) e ∙ IsPast-older a.queued_at c.redispatch_after now past
IsOverdue-overdue c now rows a (inr (e, past, (d, m, own))) =
    let old = IsPast-older a.started_at c.running_stale_after now past in
    let sent = Among-any_dispatch a.id rows d m own in
    ap (λ s. overdue s a c now rows) e ∙ ground arith

is_recent-IsSilent :
    (id : String) (interval now : ℕ) (d : Dispatch)
    → is_recent id interval now d ≡ false
    → IsSilent id interval now d
is_recent-IsSilent id interval now d h own =
    let own' : of_remediation id d ≡ true = eq-str_eq d.remediation_id id own in
    let quiet : is_pending d.state ≡ false = ground arith in
    (
      λ e. absurd (cc (ap is_pending e, quiet)),
      ground arith,
      λ t e. sent d.published_at t e (ground arith),
    )
  where
    sent : (o : Option ℕ) (t : ℕ) → o ≡ some t → newer o interval now ≡ false → t + interval ≤ now
    sent o t e f = let g = rw e at f in ground arith

IsSilent-is_recent :
    (id : String) (interval now : ℕ) (d : Dispatch)
    → IsSilent id interval now d
    → is_recent id interval now d ≡ false
IsSilent-is_recent id interval now d silent = elim (Bool-cases (of_remediation id d)) [
  | inr other ↦ ground arith
  | inl own ↦
      let (waits, stored, sent) = silent (str_eq-eq d.remediation_id id own) in
      let quiet = not_pending d.state waits in
      let old = not_newer d.published_at sent in ground arith
]
  where
    not_pending : (s : DispatchState) → (s ≡ pending → ⊥) → is_pending s ≡ false
    not_pending pending w = absurd (w refl)
    not_pending _ w = refl

    not_newer :
        (o : Option ℕ) → ((t : ℕ) → o ≡ some t → t + interval ≤ now) → newer o interval now ≡ false
    not_newer none sent = refl
    not_newer (some t) sent = let past = sent t refl in ground arith

none_recent :
    (id : String) (interval now : ℕ) (rows : List Dispatch)
    → any_dispatch (is_recent id interval now) rows ≡ false
    → All (IsSilent id interval now) rows
unfolding any_dispatch
none_recent id interval now [] h = tt
none_recent id interval now (d ∷ rest) h = (
  is_recent-IsSilent id interval now d (ground arith),
  none_recent id interval now rest (ground arith),
)

all_silent :
    (id : String) (interval now : ℕ) (rows : List Dispatch)
    → All (IsSilent id interval now) rows
    → any_dispatch (is_recent id interval now) rows ≡ false
unfolding any_dispatch
all_silent id interval now [] all = refl
all_silent id interval now (d ∷ rest) all =
    let one = IsSilent-is_recent id interval now d all.0 in
    let others = all_silent id interval now rest all.1 in ground arith

-- The `WHERE` of the search finds what is late, and nothing else.
pub is_stuck-IsLate :
    (c : Config) (now : ℕ) (rows : List Dispatch) (a : Action)
    → is_stuck c now rows a ≡ true
    → IsLate c now rows a
unfolding is_stuck
is_stuck-IsLate c now rows a h = (
  overdue-IsOverdue c now rows a a.status refl (ground arith),
  none_recent a.id c.redispatch_after now rows (ground arith),
)

pub IsLate-is_stuck :
    (c : Config) (now : ℕ) (rows : List Dispatch) (a : Action)
    → IsLate c now rows a
    → is_stuck c now rows a ≡ true
unfolding is_stuck
IsLate-is_stuck c now rows a (over, silent) =
    let o = IsOverdue-overdue c now rows a over in
    let n = all_silent a.id c.redispatch_after now rows silent in ground arith
