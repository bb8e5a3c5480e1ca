-- ===== src/Jobs/Follows.antt =====
-- What every operation on the jobs keeps: the life cycle of the rows and the outbox.
use argus.Base.{
  ℕ, String, ◌≡◌, refl, ap, ◌∙◌, Bool, true, false, ◌||◌, Option, none, some, List, [], ◌∷◌, ◌++◌,
  arith, All, Dict, str_eq-eq, str_eq_refl, Bool-cases, Option-cases, inl, inr,
}
use argus.Base.Result.{ok, or_err}
use argus.Actions.{Value}
use argus.Approvals.{Event, update_where}
use argus.Remediation.States.{State, cancelled, state_eq, require_transition}
use argus.Jobs.{Action, Reason, Dispatch, World, JobError}
use argus.Jobs.Store.{
  row_where, is_open, is_queued, is_approved, update_one, set_queued, mark_queued,
  claim_remediation, complete_remediation, cancel_remediation, set_completed, set_cancelled,
  set_claimed,
}
use argus.Jobs.Outbox.{
  of_remediation, on_dispatches, with_id, enqueue, new_dispatch, write_entry, record_entry,
}
use argus.Jobs.Reconcile.{any_dispatch}
use argus.Jobs.Moves.{
  Advances, Advances-refl, Advances-trans, IsEnd, mark_queued-Advances, claim-Advances,
  complete-Advances, cancel-Advances,
}

-- A queued row has a dispatch.
abbrev pub HasJob : List Dispatch → Action → Type 0
HasJob rows a = is_queued a.status ≡ true → any_dispatch (of_remediation a.id) rows ≡ true

abbrev pub Outboxed : {L Q : Type 0} → World L Q → Type 0
Outboxed w = All (HasJob w.dispatches) w.actions

pub record Follows {L Q : Type 0} (w w' : World L Q) : Type 0 where
  pub advances : Advances w.actions w'.actions
  pub outboxed : Outboxed w → Outboxed w'

module _ {L Q : Type 0} where
  pub Follows-refl : (w : World L Q) → Follows w w
  Follows-refl w = record { advances = Advances-refl w.actions; outboxed = λ o. o }

  pub Follows-trans : {w v u : World L Q} → Follows w v → Follows v u → Follows w u
  Follows-trans {w} {v} {u} f g = record {
    advances = Advances-trans w.actions v.actions u.actions f.advances g.advances;
    outboxed = λ o. g.outboxed (f.outboxed o);
  }

All-update_where :
    (P : Action → Type 0) (p : Action → Bool) (f : Action → Action) (rows : List Action)
    → ((a : Action) → p a ≡ true → P a → P (f a))
    → All P rows
    → All P (update_where p f rows)
unfolding update_where
All-update_where P p f [] h all = tt
All-update_where P p f (a ∷ rest) h all = elim (Bool-cases (p a)) [
  | inl yes' ↦ rw yes' (h a yes' all.0, All-update_where P p f rest h all.1)
  | inr no' ↦ rw no' (all.0, All-update_where P p f rest h all.1)
]

-- An update that leaves no row queued.
Outboxed-update_where :
    (ds : List Dispatch) (p : Action → Bool) (f : Action → Action) (rows : List Action)
    → ((a : Action) → is_queued (f a).status ≡ false)
    → All (HasJob ds) rows
    → All (HasJob ds) (update_where p f rows)
Outboxed-update_where ds p f rows leaves all =
    All-update_where (HasJob ds) p f rows (λ a e h q. absurd (cc (leaves a, q))) all

any_dispatch-append :
    (p : Dispatch → Bool) (ds : List Dispatch) (d : Dispatch)
    → any_dispatch p (ds ++ d ∷ []) ≡ any_dispatch p ds || p d
unfolding any_dispatch
any_dispatch-append p [] d = ground arith
any_dispatch-append p (x ∷ ds) d = ground (arith, any_dispatch-append p ds d)

any_dispatch-update_where :
    (id : String) (q : Dispatch → Bool) (g : Dispatch → Dispatch) (ds : List Dispatch)
    → ((d : Dispatch) → (g d).remediation_id ≡ d.remediation_id)
    → any_dispatch (of_remediation id) (update_where q g ds) ≡ any_dispatch (of_remediation id) ds
unfolding any_dispatch update_where
any_dispatch-update_where id q g [] same = refl
any_dispatch-update_where id q g (d ∷ ds) same =
    ground (arith, same d, any_dispatch-update_where id q g ds same)

pub HasJob-append :
    (ds : List Dispatch) (d : Dispatch) (a : Action) → HasJob ds a → HasJob (ds ++ d ∷ []) a
HasJob-append ds d a h q = rw (any_dispatch-append (of_remediation a.id) ds d, h q) refl

Outboxed-append :
    (ds : List Dispatch) (d : Dispatch) (rows : List Action)
    → All (HasJob ds) rows
    → All (HasJob (ds ++ d ∷ [])) rows
Outboxed-append ds d [] all = tt
Outboxed-append ds d (a ∷ rest) all = (HasJob-append ds d a all.0, Outboxed-append ds d rest all.1)

Outboxed-dispatches :
    (ds ds' : List Dispatch) (rows : List Action)
    → ((id : String) → any_dispatch (of_remediation id) ds' ≡ any_dispatch (of_remediation id) ds)
    → All (HasJob ds) rows
    → All (HasJob ds') rows
Outboxed-dispatches ds ds' [] same all = tt
Outboxed-dispatches ds ds' (a ∷ rest) same all =
    (λ q. same a.id ∙ all.0 q, Outboxed-dispatches ds ds' rest same all.1)

-- An inserted dispatch serves the rows that were queued with it.
Outboxed-mark_queued :
    (id : String) (dry_run : Bool) (now : ℕ) (rows rows' : List Action) (ds : List Dispatch)
    (d : Dispatch)
    → mark_queued id dry_run now rows ≡ some rows'
    → d.remediation_id ≡ id
    → All (HasJob ds) rows
    → All (HasJob (ds ++ d ∷ [])) rows'
unfolding mark_queued row_where
Outboxed-mark_queued id dry_run now rows rows' ds d h same all =
    let shape : update_where (row_where id is_approved) (set_queued dry_run now) rows ≡ rows' =
      ground arith in
    rw (← shape) (
      All-update_where (HasJob (ds ++ d ∷ [])) (row_where id is_approved) (set_queued dry_run now)
        rows
        (λ a e kept q.
          any_dispatch-append (of_remediation a.id) ds d
          ∙ ground (arith, str_eq-eq a.id id, str_eq_refl d.remediation_id))
        (Outboxed-append ds d rows all))

module _ {L Q : Type 0} where
  -- A world with other rows, of which none became queued.
  pub actions-Follows :
      (w : World L Q) (rows : List Action)
      → Advances w.actions rows
      → (All (HasJob w.dispatches) w.actions → All (HasJob w.dispatches) rows)
      → Follows w (record w { actions = rows })
  actions-Follows w rows moves kept = record { advances = moves; outboxed = kept }

  pub claim-Follows :
      (id : String) (now : ℕ) (w : World L Q)
      → Follows w (record w { actions = (claim_remediation id now w.actions).0 })
  unfolding claim_remediation update_one
  claim-Follows id now w =
      actions-Follows w (claim_remediation id now w.actions).0 (claim-Advances id now w.actions) (
        Outboxed-update_where w.dispatches (row_where id is_open) (set_claimed now) w.actions
          (λ a. refl))

  pub complete-Follows :
      (id : String) (status : State) (result : Option (Dict Value)) (error : String) (now : ℕ)
      (w : World L Q)
      → IsEnd status
      → is_queued status ≡ false
      → Follows w
          (record w { actions = (complete_remediation id status result error now w.actions).0 })
  unfolding complete_remediation update_one
  complete-Follows id status result error now w ends leaves =
      actions-Follows w (complete_remediation id status result error now w.actions).0
        (complete-Advances id status result error now w.actions ends)
        (Outboxed-update_where w.dispatches (row_where id is_open)
          (set_completed status result error now) w.actions (λ a. leaves))

  pub cancel-Follows :
      (id : String) (expected : State) (now : ℕ) (w : World L Q)
      → require_transition expected cancelled ≡ none
      → Follows w (record w { actions = (cancel_remediation id expected now w.actions).0 })
  unfolding cancel_remediation update_one
  cancel-Follows id expected now w moves =
      actions-Follows w (cancel_remediation id expected now w.actions).0
        (cancel-Advances id expected now w.actions moves)
        (Outboxed-update_where w.dispatches (row_where id (λ s. state_eq s expected))
          (set_cancelled now) w.actions (λ a. refl))

  pub on_dispatches-Follows :
      (id : String) (g : Dispatch → Dispatch) (w : World L Q)
      → ((d : Dispatch) → (g d).remediation_id ≡ d.remediation_id)
      → Follows w (on_dispatches id g w)
  on_dispatches-Follows id g w same = record {
    advances = Advances-refl w.actions;
    outboxed =
        Outboxed-dispatches w.dispatches (update_where (with_id id) g w.dispatches) w.actions
          (λ r. any_dispatch-update_where r (with_id id) g w.dispatches same);
  }

  -- A dispatch is inserted.
  pub insert-Follows :
      (w : World L Q) (a : Action) (id : String) (reason : Reason) (now : ℕ) (rows : List Dispatch)
      → enqueue a id reason now w.dispatches ≡ ok rows
      → Follows w (record w { dispatches = rows })
  unfolding enqueue
  insert-Follows w a id reason now rows h = record {
    advances = Advances-refl w.actions;
    outboxed = λ o.
        let shape : w.dispatches ++ new_dispatch a id reason now ∷ [] ≡ rows = ground arith in
        rw (← shape) (Outboxed-append w.dispatches (new_dispatch a id reason now) w.actions o);
  }

  -- Rows are queued and their dispatch is inserted.
  pub reserve-Follows :
      (w : World L Q) (a : Action) (id : String) (reason : Reason) (dry_run : Bool) (now : ℕ)
      (rows : List Action) (ds : List Dispatch)
      → mark_queued a.id dry_run now w.actions ≡ some rows
      → enqueue a id reason now w.dispatches ≡ ok ds
      → Follows w (record w { actions = rows; dispatches = ds })
  unfolding enqueue new_dispatch
  reserve-Follows w a id reason dry_run now rows ds queued inserted = record {
    advances = mark_queued-Advances a.id dry_run now w.actions rows queued;
    outboxed = λ o.
        let shape : w.dispatches ++ new_dispatch a id reason now ∷ [] ≡ ds = ground arith in
        rw (← shape) (
          Outboxed-mark_queued a.id dry_run now w.actions rows w.dispatches
            (new_dispatch a id reason now) queued refl o);
  }

  -- Neither the ledger nor the stream matters.
  pub ledger-Follows : (ledger : L) (w : World L Q) → Follows w (record w { ledger = ledger })
  ledger-Follows ledger w = record { advances = Advances-refl w.actions; outboxed = λ o. o }

  pub stream-Follows : (stream : Q) (w : World L Q) → Follows w (record w { stream = stream })
  stream-Follows stream w = record { advances = Advances-refl w.actions; outboxed = λ o. o }

  module _ (write : Event → L → Option L) where
    pub write_entry-Follows :
        (event : Event) (w w' : World L Q) → write_entry write event w ≡ ok w' → Follows w w'
    unfolding write_entry
    write_entry-Follows event w w' h = elim (Option-cases (write event w.ledger)) [
      | inl e ↦ absurd (cc (ap (λ o. or_err JobError.audit_failed o) e, h))
      | inr (ledger, e) ↦
          let shape : record w { ledger = ledger } ≡ w' = ground arith in
          rw (← shape) (ledger-Follows ledger w)
    ]

    pub record_entry-Follows :
        (event : Event) (w : World L Q) → Follows w (record_entry write event w)
    unfolding record_entry
    record_entry-Follows event w = elim (Option-cases (write event w.ledger)) [
      | inl e ↦ rw (e, record_entry) (Follows-refl w)
      | inr (ledger, e) ↦ rw (e, record_entry) (ledger-Follows ledger w)
    ]
