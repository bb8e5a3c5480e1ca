-- ===== src/Workers/ControlState/Effect.antt =====
-- What `ApplyOnce` of internal/workers/control_state.go does to the states, and what `Preview` says.
use argus.Base.{
  sym, ◌∙◌, String, ◌≡◌, refl, false, ◌&&◌, none, some, List, [], ◌∷◌, arith, Dict, str_eq,
  str_eq-eq, str_eq_refl, ap, inl, inr,
}
use argus.Base.Result.{Result, ok, err, Result-cases}
use argus.Workers.ControlState.{
  ControlError, Faults, Outcome, TargetState, Tables, call, find_receipt, find_state, put_state,
  is_target, stored, apply_new, apply_tx, settle, apply_once, current_state, state_result,
  decode_column, preview, merge_state,
}

module _ {V : Type 0} where
  find_state-put_state :
      (kind target : String) (state : Dict V) (rows : List (TargetState V))
      → find_state kind target (put_state kind target state rows) ≡ some (some state)
  unfolding find_state put_state is_target
  find_state-put_state kind target state [] = ground (arith, str_eq_refl kind, str_eq_refl target)
  find_state-put_state kind target state (row ∷ rows) =
      ground (arith, find_state-put_state kind target state rows)

  find_state-put_other :
      (kind target kind' target' : String) (state : Dict V) (rows : List (TargetState V))
      → (str_eq kind kind' && str_eq target target') ≡ false
      → find_state kind' target' (put_state kind target state rows) ≡ find_state kind' target' rows
  unfolding find_state put_state is_target
  find_state-put_other kind target kind' target' state [] h = ground arith
  find_state-put_other kind target kind' target' state (row ∷ rows) h = ground (
    arith,
    str_eq-eq row.resource_type kind,
    str_eq-eq row.target target,
    find_state-put_other kind target kind' target' state rows h,
  )

  module _ (faults : Faults) (key action kind target : String) (desired : Dict V)
      (db : Tables V) where
    apply_tx-new :
        (after : Tables V) (result : Outcome V)
        → apply_tx faults key action kind target desired db ≡ ok (after, result)
        → find_receipt key db.receipts ≡ none
        → (current : Dict V) × (decode_column (find_state kind target db.states) ≡ ok current)
          × ((after, result)
              ≡ stored key action kind target current (merge_state current desired) db)
    unfolding apply_tx call apply_new current_state
    apply_tx-new after result h new =
        elim (Result-cases (decode_column (find_state kind target db.states))) [
          | inl (current, e) ↦ (current, e, ground arith)
          | inr (_, e) ↦ ground arith
        ]

    preview-same :
        (faults' : Faults) (p : Outcome V) (current : Dict V)
        → preview faults' kind target desired db ≡ ok p
        → decode_column (find_state kind target db.states) ≡ ok current
        → (p.before ≡ current) × (p.after ≡ merge_state current desired)
    unfolding preview call current_state state_result
    preview-same faults' p current h e = (ground arith, ground arith)

    settle-previewed :
        (faults' : Faults) (p result : Outcome V) (r : Result ControlError (Tables V × Outcome V))
        → preview faults' kind target desired db ≡ ok p
        → find_receipt key db.receipts ≡ none
        → apply_tx faults key action kind target desired db ≡ r
        → (settle db r).1 ≡ ok result
        → (result.before ≡ p.before)
          × (result.after ≡ p.after)
          × (find_state kind target (settle db r).0.states ≡ some (some p.after))
          × ((kind' target' : String)
              → (str_eq kind kind' && str_eq target target') ≡ false
              → find_state kind' target' (settle db r).0.states
                ≡ find_state kind' target' db.states)
    unfolding settle stored state_result
    settle-previewed faults' p result (err _) shown new e h = cc
    settle-previewed faults' p result (ok (after, result')) shown new e h =
        let (current, read, written) = apply_tx-new after result' e new in
        let (before, merged) = preview-same faults' p current shown read in
        let same : result' ≡ result = cc in
        let states : after.states ≡ put_state kind target (merge_state current desired) db.states =
          ap (λ w. w.0.states) written in
        (
          sym (ap (λ o. o.before) same) ∙ ap (λ w. w.1.before) written ∙ sym before,
          sym (ap (λ o. o.after) same) ∙ ap (λ w. w.1.after) written ∙ sym merged,
          rw (states, merged)
              (find_state-put_state kind target (merge_state current desired) db.states),
          λ kind' target' other. rw states (
              find_state-put_other kind target kind' target' (merge_state current desired) db.states
                other),
        )

    -- Where no receipt has the key, a call of `ApplyOnce` that succeeds does what `Preview` said of
    -- the same state: both report the same state before and after, the latter is then the target's,
    -- and no other target's state changes.
    pub apply_once-previewed :
        (faults' : Faults) (p result : Outcome V)
        → preview faults' kind target desired db ≡ ok p
        → find_receipt key db.receipts ≡ none
        → (apply_once faults key action kind target desired db).1 ≡ ok result
        → (result.before ≡ p.before)
          × (result.after ≡ p.after)
          × (find_state kind target (apply_once faults key action kind target desired db).0.states
              ≡ some (some p.after))
          × ((kind' target' : String)
              → (str_eq kind kind' && str_eq target target') ≡ false
              → find_state kind' target'
                  (apply_once faults key action kind target desired db).0.states
                ≡ find_state kind' target' db.states)
    unfolding apply_once
    apply_once-previewed faults' p result shown new h =
        settle-previewed faults' p result (apply_tx faults key action kind target desired db) shown
          new refl h
