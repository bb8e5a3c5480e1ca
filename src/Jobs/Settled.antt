-- ===== src/Jobs/Settled.antt =====
-- What becomes of a message: `handleMessage` of internal/workers/runner.go.
use argus.Base.{
  ℕ, ◌≤◌, ◌<◌, String, ◌≡◌, refl, ap, sym, ◌∙◌, Bool, true, false, ◌&&◌, Option, none, some, List,
  [], ◌∷◌, arith, Dict, str_eq, str_eq-eq, ltb, leb, ◌==◌, Bool-cases, inl, inr, if◌then◌else◌,
}
use argus.Base.Result.{Result, ok, err, Result-cases}
use argus.Actions.{Value}
use argus.Approvals.{Event, update_where, count_where}
use argus.Remediation.States.{State, succeeded, failed, timed_out}
use argus.Jobs.{Action, World, JobError}
use argus.Jobs.Store.{
  find_action, is_open, row_where, update_one, set_completed, complete_remediation,
}
use argus.Jobs.Outbox.{write_entry, record_entry}
use argus.Jobs.Runner.{
  Ending, done, failing, exceeded, retry_delay, Disposition, ack, nak, dead, retries_exhausted,
  retry_later, finish, finish_message, conclude, completed_event,
}

-- No row with the identifier is queued or running.
abbrev pub IsSettled : String → List Action → Type 0
IsSettled id [] = Unit
IsSettled id (a ∷ rest) = (row_where id is_open a ≡ false) × IsSettled id rest

abbrev pub has_row : String → List Action → Bool
has_row id [] = false
has_row id (a ∷ rest) = if str_eq a.id id then true else has_row id rest

-- No two rows have one identifier: the primary key.
abbrev pub Keyed : List Action → Type 0
Keyed [] = Unit
Keyed (a ∷ rest) = (has_row a.id rest ≡ false) × Keyed rest

closed_row : (id : String) (rows : List Action) → has_row id rows ≡ false → IsSettled id rows
unfolding row_where
closed_row id [] h = tt
closed_row id (a ∷ rest) h = ground (arith, closed_row id rest)

-- A row that was found and is closed settles its identifier.
pub found_closed :
    (id : String) (rows : List Action) (a : Action)
    → Keyed rows
    → find_action id rows ≡ some a
    → is_open a.status ≡ false
    → IsSettled id rows
unfolding find_action row_where
found_closed id [] a k h c = tt
found_closed id (x ∷ rest) a k h c = elim (Bool-cases (str_eq x.id id)) [
  | inl same ↦
      let alone =
        closed_row id rest (ap (λ i. has_row i rest) (sym (str_eq-eq x.id id same)) ∙ k.0) in
      (ground arith, alone)
  | inr other ↦ (ground arith, found_closed id rest a k.1 (rw other at h) c)
]

-- An update of the open rows that closes them settles the identifier.
IsSettled-update_where :
    (id : String) (f : Action → Action) (rows : List Action)
    → ((a : Action) → is_open (f a).status ≡ false)
    → IsSettled id (update_where (row_where id is_open) f rows)
unfolding update_where row_where
IsSettled-update_where id f [] closes = tt
IsSettled-update_where id f (a ∷ rest) closes =
    (ground (arith, closes a), IsSettled-update_where id f rest closes)

-- Where no row was affected there was none to settle.
count-closed :
    (id : String) (rows : List Action)
    → has_row id rows ≡ false
    → count_where (row_where id is_open) rows ≡ 0
unfolding row_where count_where
count-closed id [] h = refl
count-closed id (a ∷ rest) h = ground (arith, count-closed id rest)

pub unclaimed :
    (id : String) (f : Action → Action) (rows : List Action)
    → Keyed rows
    → (count_where (row_where id is_open) rows == 1) ≡ false
    → IsSettled id (update_where (row_where id is_open) f rows)
unfolding update_where row_where count_where
unclaimed id f [] k h = tt
unclaimed id f (a ∷ rest) k h = elim (Bool-cases (row_where id is_open a)) [
  | inl open' ↦
      let e : a.id ≡ id = str_eq-eq a.id id (ground arith) in
      let alone = count-closed id rest (ap (λ i. has_row i rest) (sym e) ∙ k.0) in ground arith
  | inr closed' ↦ (ground arith, unclaimed id f rest k.1 (ground arith))
]

-- A message that is acknowledged is settled; one that is delivered again comes with the delay of
-- `RetryDelay`, before its last delivery; and a message is given up only after it.
unfoldable pub IsHandled : {L Q : Type 0} → ℕ → ℕ → String → World L Q × Disposition → Type 0
IsHandled max_deliver deliveries id (w, ack) = IsSettled id w.actions
IsHandled max_deliver deliveries id (w, nak delay) =
    (deliveries < max_deliver) × (delay ≡ retry_delay deliveries)
IsHandled max_deliver deliveries id (w, dead retries_exhausted) = max_deliver ≤ deliveries
IsHandled max_deliver deliveries id (w, dead _) = ⊥

module _ {L Q : Type 0} (write : Event → L → Option L) where
  finish-IsSettled :
      (id : String) (status : State) (result : Option (Dict Value)) (error : String) (entry : Event)
      (now : ℕ) (w : World L Q) (r : World L Q × Bool)
      → is_open status ≡ false
      → finish write id status result error entry now w ≡ ok r
      → IsSettled id r.0.actions
  unfolding finish complete_remediation update_one write_entry
  finish-IsSettled id status result error entry now w r closes h =
      let shape : r.0.actions
          ≡ update_where (row_where id is_open) (set_completed status result error now) w.actions =
        ground arith in
      rw shape
        (IsSettled-update_where id (set_completed status result error now) w.actions (λ a. closes))

  retry_later-IsHandled :
      (max_deliver deliveries : ℕ) (id : String) (w : World L Q)
      → IsHandled max_deliver deliveries id (w, retry_later max_deliver deliveries)
  unfolding retry_later IsHandled
  retry_later-IsHandled max_deliver deliveries id w =
      elim (Bool-cases (leb max_deliver deliveries)) [
        | inl last ↦ rw last (ground arith)
        | inr early ↦ rw early (ground arith, refl)
      ]

  pub finish_message-IsHandled :
      (max_deliver deliveries : ℕ) (id : String) (status : State) (result : Option (Dict Value))
      (error : String) (entry : Event) (now : ℕ) (w : World L Q)
      → is_open status ≡ false
      → IsHandled max_deliver deliveries id
          (finish_message write max_deliver deliveries id status result error entry now w)
  unfolding finish_message IsHandled
  finish_message-IsHandled max_deliver deliveries id status result error entry now w closes =
      elim (Result-cases (finish write id status result error entry now w)) [
        | inr (e, lost) ↦
            rw (lost, finish_message) (retry_later-IsHandled max_deliver deliveries id w)
        | inl (r, recorded) ↦
            rw (recorded, finish_message)
              (finish-IsSettled id status result error entry now w r closes recorded)
      ]

  pub record_entry-actions :
      (event : Event) (w : World L Q) → (record_entry write event w).actions ≡ w.actions
  unfolding record_entry
  record_entry-actions event w = ground arith

  pub conclude-IsHandled :
      (max_deliver deliveries : ℕ) (a : Action) (ending : Ending) (now : ℕ) (w : World L Q)
      → IsHandled max_deliver deliveries a.id (conclude write max_deliver deliveries a ending now w)
  unfolding conclude IsHandled
  conclude-IsHandled max_deliver deliveries a exceeded now w =
      finish_message-IsHandled max_deliver deliveries a.id timed_out none _ _ now w refl
  conclude-IsHandled max_deliver deliveries a (failing result error) now w =
      elim (Bool-cases (ltb deliveries a.max_attempts && ltb deliveries max_deliver)) [
        | inl again ↦ rw again (ground arith, refl)
        | inr no' ↦
            rw no' (
              finish_message-IsHandled max_deliver deliveries a.id failed result error _ now w refl)
      ]
  conclude-IsHandled max_deliver deliveries a (done result) now w =
      finished (finish write a.id succeeded result "" (completed_event a.id result) now w) refl
    where
      finished :
          (r : Result JobError (World L Q × Bool))
          → finish write a.id succeeded result "" (completed_event a.id result) now w ≡ r
          → IsHandled max_deliver deliveries a.id
              (conclude write max_deliver deliveries a (done result) now w)
      finished (err e) h = rw (h, conclude) (retry_later-IsHandled max_deliver deliveries a.id w)
      finished (ok (w', true)) h =
          rw (h, conclude) (finish-IsSettled a.id succeeded result "" _ now w (w', true) refl h)
      finished (ok (w', false)) h =
          rw (h, conclude, record_entry-actions)
            (finish-IsSettled a.id succeeded result "" _ now w (w', false) refl h)
