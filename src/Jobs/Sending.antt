-- ===== src/Jobs/Sending.antt =====
-- What is sent to JetStream: `publish` of internal/remediation/dispatch.go.
use argus.Base.{
  ℕ, zero, suc, ◌+◌, ◌≤◌, String, ◌≡◌, ◌≢◌, ◌⊎◌, refl, ap, ◌∙◌, true, Option, none, some, List, [],
  ◌∷◌, ◌++◌, length, take, All, All-map, arith, ltb, str_eq-eq, eq-str_eq, Bool-cases, Option-cases,
  inl, inr, if◌then◌else◌,
}
use argus.Jobs.{Action, Message, Dispatch, DispatchState, pending, World}
use argus.Jobs.Store.{find_action}
use argus.Jobs.Outbox.{
  Pending, dispatchable, is_pending, is_due, select_due, insert_pending, sort_pending, due_batch,
  set_skipped, set_published, on_dispatches, publish_batch, publish_due,
}
use argus.Jobs.Batches.{Among, InOrder, take-Among}

-- A dispatch that is pending and whose time has come, of those that are asked for.
abbrev pub IsReady : String → ℕ → Dispatch → Type 0
IsReady only_id now d =
    (d.state ≡ pending) × (d.next_attempt_at ≤ now) × ((only_id ≡ "") ⊎ (d.id ≡ only_id))

is_due-IsReady :
    (only_id : String) (now : ℕ) (d : Dispatch)
    → is_due only_id now d ≡ true
    → IsReady only_id now d
unfolding is_due
is_due-IsReady only_id now d h =
    let waits : is_pending d.state ≡ true = ground arith in
    (
      is_pending-eq d.state waits,
      ground arith,
      ground (arith, str_eq-eq only_id "", str_eq-eq d.id only_id),
    )
  where
    is_pending-eq : (s : DispatchState) → is_pending s ≡ true → s ≡ pending
    is_pending-eq pending e = refl
    is_pending-eq _ e = cc

IsReady-is_due :
    (only_id : String) (now : ℕ) (d : Dispatch)
    → IsReady only_id now d
    → is_due only_id now d ≡ true
unfolding is_due
IsReady-is_due only_id now d (waits, come, asked) =
    let waits' : is_pending d.state ≡ true = ap is_pending waits in
    ground (arith, eq-str_eq only_id "", eq-str_eq d.id only_id)

-- A row of the search: ready, with the status of its remediation.
abbrev pub IsDue : String → ℕ → List Action → Pending → Type 0
IsDue only_id now actions (d, status) =
    IsReady only_id now d
    × ((a : Action) × (find_action d.remediation_id actions ≡ some a) × (a.status ≡ status))

select_due-IsDue :
    (only_id : String) (now : ℕ) (actions : List Action) (rows : List Dispatch)
    → All (IsDue only_id now actions) (select_due only_id now actions rows)
unfolding select_due
select_due-IsDue only_id now actions [] = tt
select_due-IsDue only_id now actions (d ∷ rest) =
    let others = select_due-IsDue only_id now actions rest in
    elim (Bool-cases (is_due only_id now d)) [
      | inr no' ↦ rw no' others
      | inl yes' ↦ elim (Option-cases (find_action d.remediation_id actions)) [
        | inl gone ↦ rw (yes', gone, select_due) others
        | inr (a, found) ↦
            rw (yes', found, select_due)
              ((is_due-IsReady only_id now d yes', (a, found, refl)), others)
      ]
    ]

-- The search finds every dispatch that is ready and whose remediation exists.
select_due-Among :
    (only_id : String) (now : ℕ) (actions : List Action) (rows : List Dispatch) (d : Dispatch)
    (a : Action)
    → Among d rows
    → IsReady only_id now d
    → find_action d.remediation_id actions ≡ some a
    → Among (d, a.status) (select_due only_id now actions rows)
unfolding select_due
select_due-Among only_id now actions [] d a m ready found = elim m [ ]
select_due-Among only_id now actions (x ∷ rest) d a (inl e) ready found =
    let due : is_due only_id now x ≡ true =
      ap (is_due only_id now) e ∙ IsReady-is_due only_id now d ready in
    let there : find_action x.remediation_id actions ≡ some a =
      ap (λ (y : Dispatch). find_action y.remediation_id actions) e ∙ found in
    rw (due, there, select_due) (inl (ap (λ (y : Dispatch). (y, a.status)) e))
select_due-Among only_id now actions (x ∷ rest) d a (inr m) ready found =
    let later = select_due-Among only_id now actions rest d a m ready found in
    elim (Bool-cases (is_due only_id now x)) [
      | inr no' ↦ rw no' later
      | inl yes' ↦ elim (Option-cases (find_action x.remediation_id actions)) [
        | inl gone ↦ rw (yes', gone, select_due) later
        | inr (b, there) ↦ rw (yes', there, select_due) (inr later)
      ]
    ]

module _ (P : Pending → Type 0) where
  All-insert_pending : (p : Pending) (l : List Pending) → P p → All P l → All P (insert_pending p l)
  unfolding insert_pending
  All-insert_pending p [] h all = (h, tt)
  All-insert_pending p (q ∷ l) h all = elim (Bool-cases (ltb q.0.created_at p.0.created_at)) [
    | inl yes' ↦ rw yes' (all.0, All-insert_pending p l h all.1)
    | inr no' ↦ rw no' (h, all)
  ]

  All-sort_pending : (l : List Pending) → All P l → All P (sort_pending l)
  unfolding sort_pending
  All-sort_pending [] all = tt
  All-sort_pending (p ∷ l) all =
      All-insert_pending p (sort_pending l) all.0 (All-sort_pending l all.1)

  All-take : (n : ℕ) (l : List Pending) → All P l → All P (take n l)
  All-take zero l all = tt
  All-take (suc n) [] all = tt
  All-take (suc n) (p ∷ l) all = (all.0, All-take n l all.1)

-- The first was stored no later than the second.
abbrev NoLater : Pending → Pending → Type 0
NoLater p q = p.0.created_at ≤ q.0.created_at

insert_pending-Among :
    (p q : Pending) (l : List Pending) → Among q (p ∷ l) → Among q (insert_pending p l)
unfolding insert_pending
insert_pending-Among p q [] m = m
insert_pending-Among p q (x ∷ l) m = elim (Bool-cases (ltb x.0.created_at p.0.created_at)) [
  | inr no' ↦ rw no' m
  | inl yes' ↦ elim m [
    | inl e ↦ rw yes' (inr (insert_pending-Among p q l (inl e)))
    | inr (inl e) ↦ rw yes' (inl e)
    | inr (inr m') ↦ rw yes' (inr (insert_pending-Among p q l (inr m')))
  ]
]

sort_pending-Among : (q : Pending) (l : List Pending) → Among q l → Among q (sort_pending l)
unfolding sort_pending
sort_pending-Among q [] m = elim m [ ]
sort_pending-Among q (p ∷ l) (inl e) = insert_pending-Among p q (sort_pending l) (inl e)
sort_pending-Among q (p ∷ l) (inr m) =
    insert_pending-Among p q (sort_pending l) (inr (sort_pending-Among q l m))

insert_pending-InOrder :
    (p : Pending) (l : List Pending) → InOrder NoLater l → InOrder NoLater (insert_pending p l)
unfolding insert_pending
insert_pending-InOrder p [] o = (tt, tt)
insert_pending-InOrder p (x ∷ l) o = elim (Bool-cases (ltb x.0.created_at p.0.created_at)) [
  | inl yes' ↦
      let before : NoLater x p = ground arith in
      rw yes' (All-insert_pending (NoLater x) p l before o.0, insert_pending-InOrder p l o.1)
  | inr no' ↦
      let before : NoLater p x = ground arith in
      rw no' ((before, All-map (NoLater x) (NoLater p) (λ z b. omega (arith, before, b)) l o.0), o)
]

sort_pending-InOrder : (l : List Pending) → InOrder NoLater (sort_pending l)
unfolding sort_pending
sort_pending-InOrder [] = tt
sort_pending-InOrder (p ∷ l) = insert_pending-InOrder p (sort_pending l) (sort_pending-InOrder l)

-- The events of a batch whose remediation is queued or running.
abbrev pub to_send : List Pending → List Message
to_send [] = []
to_send ((d, status) ∷ rest) =
    let others = to_send rest in if dispatchable status then d.event ∷ others else others

module _ {Q : Type 0} (publish : Message → Q → Q × Option String) where
  abbrev pub publish_all : List Message → Q → Q
  publish_all [] stream = stream
  publish_all (m ∷ ms) stream = publish_all ms (publish m stream).0

  -- Every event was taken.
  abbrev pub Taken : List Message → Q → Type 0
  Taken [] stream = Unit
  Taken (m ∷ ms) stream = ((publish m stream).1 ≡ none) × Taken ms (publish m stream).0

  -- All events are sent and taken, or a beginning of them is and the next one is sent and fails.
  unfoldable pub Sends : List Message → Q → Q × ℕ → Type 0
  Sends events stream (stream', count) =
      (Taken events stream × (stream' ≡ publish_all events stream) × (count ≡ length events))
      ⊎ ((sent : List Message) × ((m : Message) × ((rest : List Message) × (events
                ≡ sent ++ m ∷ rest)
              × Taken sent stream
              × ((publish m (publish_all sent stream)).1 ≢ none)
              × (stream' ≡ (publish m (publish_all sent stream)).0)
              × (count ≡ length sent))))

  Sends-cons :
      (m : Message) (events : List Message) (stream stream' : Q) (count : ℕ)
      → (publish m stream).1 ≡ none
      → Sends events (publish m stream).0 (stream', count)
      → Sends (m ∷ events) stream (stream', count + 1)
  unfolding Sends
  Sends-cons m events stream stream' count takes (inl (taken, pushed, e)) =
      inl ((takes, taken), pushed, ground arith)
  Sends-cons m events stream stream' count takes
        (inr (sent, (failed, (rest, split, taken, fails, pushed, e)))) =
      inr (
        m ∷ sent,
        (failed, (rest, ap (λ l. m ∷ l) split, (takes, taken), fails, pushed, ground arith)),
      )

some_error : {o : Option String} {e : String} → o ≡ some e → o ≢ none
some_error h n = cc

module _ {L Q : Type 0} (publish : Message → Q → Q × Option String) where
  publish_batch-Sends :
      (now : ℕ) (batch : List Pending) (w : World L Q)
      → Sends publish
          (to_send batch)
          w.stream
          ((publish_batch publish now batch w).0.stream, (publish_batch publish now batch w).1)
  unfolding publish_batch
  publish_batch-Sends now [] w = unfold Sends in inl (tt, refl, refl)
  publish_batch-Sends now ((d, status) ∷ batch) w =
      let w' : World L Q = record w { stream = (publish d.event w.stream).0 } in
      elim (Bool-cases (dispatchable status)) [
        | inr no' ↦
            rw (no', publish_batch)
              (publish_batch-Sends now batch (on_dispatches d.id (set_skipped status) w))
        | inl yes' ↦ elim (Option-cases (publish d.event w.stream).1) [
          | inr (error, e) ↦
              rw (yes', e, publish_batch)
                (unfold Sends in
                  inr ([], (d.event, (to_send batch, refl, tt, some_error e, refl, refl))))
          | inl e ↦
              rw (yes', e, publish_batch)
                (Sends-cons publish d.event (to_send batch) w.stream _ _ e
                  (publish_batch-Sends now batch (on_dispatches d.id (set_published now) w')))
        ]
      ]

  -- `publish` sends, in order, the events of its batch whose remediation is queued or running: all of
  -- them are taken, or those before the one that fails, which is the last that is sent. The batch has
  -- only pending dispatches whose time has come, each with the status of its remediation. Every such
  -- dispatch whose remediation exists is in the batch, unless the batch is full of others that were
  -- stored no later.
  pub publish_due-Sends :
      (only_id : String) (batch_size now : ℕ) (w : World L Q)
      → let batch = due_batch only_id batch_size now w in
        All (IsDue only_id now w.actions) batch
        × ((d : Dispatch) (a : Action)
            → Among d w.dispatches
            → IsReady only_id now d
            → find_action d.remediation_id w.actions ≡ some a
            → Among (d, a.status) batch
              ⊎ ((length batch ≡ batch_size) × All (λ q. q.0.created_at ≤ d.created_at) batch))
        × Sends publish (to_send batch) w.stream (
          (publish_due publish only_id batch_size now w).0.stream,
          (publish_due publish only_id batch_size now w).1,
        )
  unfolding publish_due due_batch
  publish_due-Sends only_id batch_size now w =
      let found = select_due only_id now w.actions w.dispatches in
      let P = IsDue only_id now w.actions in
      (
        All-take P batch_size (sort_pending found)
            (All-sort_pending P found (select_due-IsDue only_id now w.actions w.dispatches)),
        λ d a m ready there.
            take-Among NoLater batch_size (sort_pending found) (d, a.status)
              (sort_pending-InOrder found)
              (sort_pending-Among (d, a.status) found
                (select_due-Among only_id now w.actions w.dispatches d a m ready there)),
        publish_batch-Sends now (due_batch only_id batch_size now w) w,
      )
