-- ===== src/Workers/ControlState/Once.antt =====
-- A job is applied once: `ApplyOnce` of internal/workers/control_state.go.
use argus.Base.{
  String, ◌≡◌, refl, ◌∙◌, sym, ◌⊎◌, inl, inr, Option-cases, false, Option, none, some, List, [],
  ◌∷◌, arith, Dict, str_eq-eq, str_eq_refl, ap,
}
use argus.Base.Result.{Result, err, ok}
use argus.Workers.ControlState.{
  ControlError, apply_tx, Faults, Outcome, Tables, call, find_receipt, reuse, reuse_receipt, stored,
  apply_new, settle, apply_once,
}

-- A call of `ApplyOnce`: the faults it meets and its arguments.
pub record Job (V : Type 0) : Type 0 where
  pub faults : Faults
  pub key : String
  pub action : String
  pub kind : String
  pub target : String
  pub desired : Dict V

abbrev pub no_faults : Faults
no_faults _ = false

module _ {V : Type 0} where
  unfoldable pub handle : Job V → Tables V → Tables V
  handle job db = (apply_once job.faults job.key job.action job.kind job.target job.desired db).0

  unfoldable pub handle_all : List (Job V) → Tables V → Tables V
  handle_all [] db = db
  handle_all (job ∷ jobs) db = handle_all jobs (handle job db)

  apply_new-finds :
      (faults : Faults) (key action kind target : String) (desired : Dict V) (db after : Tables V)
      (result : Outcome V)
      → apply_new faults key action kind target desired db ≡ ok (after, result)
      → find_receipt key after.receipts ≡ some (some result)
  unfolding apply_new call stored find_receipt
  apply_new-finds faults key action kind target desired db after result h =
      ground (arith, str_eq_refl key)

  apply_new-keeps :
      (other : String) (column : Option (Outcome V)) (faults : Faults)
      (key action kind target : String) (desired : Dict V) (db after : Tables V)
      (result : Outcome V)
      → apply_new faults key action kind target desired db ≡ ok (after, result)
      → find_receipt key db.receipts ≡ none
      → find_receipt other db.receipts ≡ some column
      → find_receipt other after.receipts ≡ some column
  unfolding apply_new call stored find_receipt
  apply_new-keeps other column faults key action kind target desired db after result h new there =
      ground (arith, str_eq-eq key other, ap (λ k. find_receipt k db.receipts))

  reuse_receipt-same :
      (faults : Faults) (column : Option (Outcome V)) (db after : Tables V) (result : Outcome V)
      → reuse_receipt faults column db ≡ ok (after, result)
      → (o : Outcome V) × (column ≡ some o) × (result ≡ reuse o) × (after ≡ db)
  unfolding reuse_receipt call
  reuse_receipt-same faults none db after result h = cc
  reuse_receipt-same faults (some o) db after result h = (o, refl, ground arith, ground arith)

  -- A transaction that commits took one of the two branches.
  apply_tx-cases :
      (faults : Faults) (key action kind target : String) (desired : Dict V) (db after : Tables V)
      (result : Outcome V)
      → apply_tx faults key action kind target desired db ≡ ok (after, result)
      → ((find_receipt key db.receipts ≡ none)
          × (apply_new faults key action kind target desired db ≡ ok (after, result)))
        ⊎ ((column : Option (Outcome V)) × (find_receipt key db.receipts ≡ some column)
            × (reuse_receipt faults column db ≡ ok (after, result)))
  unfolding apply_tx call
  apply_tx-cases faults key action kind target desired db after result h =
      elim (Option-cases (find_receipt key db.receipts)) [
        | inl e ↦ inl (e, ground arith)
        | inr (column, e) ↦ inr (column, e, ground arith)
      ]

  apply_tx-finds :
      (faults : Faults) (key action kind target : String) (desired : Dict V) (db after : Tables V)
      (result : Outcome V)
      → apply_tx faults key action kind target desired db ≡ ok (after, result)
      → (o : Outcome V) × (find_receipt key after.receipts ≡ some (some o))
        × (reuse o ≡ reuse result)
  unfolding reuse
  apply_tx-finds faults key action kind target desired db after result h =
      elim (apply_tx-cases faults key action kind target desired db after result h) [
        | inl (_, new) ↦ (
          result,
          apply_new-finds faults key action kind target desired db after result new,
          refl,
        )
        | inr (column, found, old) ↦
            let (o, held, same, kept) = reuse_receipt-same faults column db after result old in
            (o, cc, sym (ap reuse same))
      ]

  apply_tx-keeps :
      (other : String) (column : Option (Outcome V)) (faults : Faults)
      (key action kind target : String) (desired : Dict V) (db after : Tables V)
      (result : Outcome V)
      → apply_tx faults key action kind target desired db ≡ ok (after, result)
      → find_receipt other db.receipts ≡ some column
      → find_receipt other after.receipts ≡ some column
  apply_tx-keeps other column faults key action kind target desired db after result h there =
      elim (apply_tx-cases faults key action kind target desired db after result h) [
        | inl (absent, new) ↦
            apply_new-keeps other column faults key action kind target desired db after result new
              absent there
        | inr (column', found, old) ↦
            let (o, held, same, kept) = reuse_receipt-same faults column' db after result old in cc
      ]

  settle-keeps :
      (other : String) (column : Option (Outcome V)) (faults : Faults)
      (key action kind target : String) (desired : Dict V) (db : Tables V)
      (r : Result ControlError (Tables V × Outcome V))
      → apply_tx faults key action kind target desired db ≡ r
      → find_receipt other db.receipts ≡ some column
      → find_receipt other (settle db r).0.receipts ≡ some column
  unfolding settle
  settle-keeps other column faults key action kind target desired db (ok (after, result)) e there =
      apply_tx-keeps other column faults key action kind target desired db after result e there
  settle-keeps other column faults key action kind target desired db (err _) e there = there

  handle-keeps :
      (other : String) (column : Option (Outcome V)) (job : Job V) (db : Tables V)
      → find_receipt other db.receipts ≡ some column
      → find_receipt other (handle job db).receipts ≡ some column
  unfolding handle apply_once
  handle-keeps other column job db there =
      settle-keeps other column job.faults job.key job.action job.kind job.target job.desired db
        (apply_tx job.faults job.key job.action job.kind job.target job.desired db) refl there

  handle_all-keeps :
      (other : String) (column : Option (Outcome V)) (jobs : List (Job V)) (db : Tables V)
      → find_receipt other db.receipts ≡ some column
      → find_receipt other (handle_all jobs db).receipts ≡ some column
  unfolding handle_all
  handle_all-keeps other column [] db there = there
  handle_all-keeps other column (job ∷ jobs) db there =
      handle_all-keeps other column jobs (handle job db) (handle-keeps other column job db there)

  apply_once-reuses :
      (key action kind target : String) (desired : Dict V) (db : Tables V) (o : Outcome V)
      → find_receipt key db.receipts ≡ some (some o)
      → apply_once no_faults key action kind target desired db ≡ (db, ok (reuse o))
  unfolding apply_once apply_tx call settle reuse_receipt
  apply_once-reuses key action kind target desired db o there = rw there refl

  settle-finds :
      (faults : Faults) (key action kind target : String) (desired : Dict V) (db : Tables V)
      (result : Outcome V) (r : Result ControlError (Tables V × Outcome V))
      → apply_tx faults key action kind target desired db ≡ r
      → (settle db r).1 ≡ ok result
      → (o : Outcome V) × (find_receipt key (settle db r).0.receipts ≡ some (some o))
        × (reuse o ≡ reuse result)
  unfolding settle
  settle-finds faults key action kind target desired db result (ok (after, result')) e h =
      let (o, found, same) =
        apply_tx-finds faults key action kind target desired db after result' e in
      (o, found, cc)
  settle-finds faults key action kind target desired db result (err _) e h = cc

  -- Once a job's `ApplyOnce` succeeded, whatever calls of `ApplyOnce` follow, of which some may fail,
  -- a call with the same key on a working database changes nothing and returns the same result,
  -- marked as reused, whatever its other arguments.
  pub apply_once-once :
      (job : Job V) (db : Tables V) (result : Outcome V) (jobs : List (Job V))
      (action kind target : String) (desired : Dict V)
      → (apply_once job.faults job.key job.action job.kind job.target job.desired db).1 ≡ ok result
      → apply_once no_faults job.key action kind target desired (handle_all jobs (handle job db))
        ≡ (handle_all jobs (handle job db), ok (reuse result))
  unfolding handle apply_once
  apply_once-once job db result jobs action kind target desired h =
      let (o, found, same) =
        settle-finds job.faults job.key job.action job.kind job.target job.desired db result
          (apply_tx job.faults job.key job.action job.kind job.target job.desired db) refl h in
      let still = handle_all-keeps job.key (some o) jobs (handle job db) found in
      apply_once-reuses job.key action kind target desired (handle_all jobs (handle job db)) o still
      ∙ ap (λ r. (handle_all jobs (handle job db), ok r)) same
