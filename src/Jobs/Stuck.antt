-- ===== src/Jobs/Stuck.antt =====
-- Which remediations the search of `Reconcile` in internal/remediation/dispatch.go finds.
use argus.Base.{
  ℕ, ◌≡◌, ◌⊎◌, refl, ap, ◌∙◌, Bool, true, false, Option, none, some, List, [], ◌∷◌, length, take,
  All, All-map, arith, Bool-cases, inl, inr,
}
use argus.Jobs.{Action, World}
use argus.Jobs.Reconcile.{
  Config, Stuck, is_stuck, queued_before, select_where, insert_stuck, sort_stuck, stuck_rows,
  find_stuck,
}
use argus.Jobs.Batches.{Among, InOrder, take-Among}
use argus.Jobs.Late.{IsLate, IsLate-is_stuck}

-- The first was not queued after the second; a row without a time comes last.
abbrev pub NoLater : Action → Action → Type 0
NoLater a b = queued_before b.queued_at a.queued_at ≡ false

queued_trans :
    (x y z : Option ℕ)
    → queued_before y x ≡ false
    → queued_before z y ≡ false
    → queued_before z x ≡ false
queued_trans x y none p q = refl
queued_trans none y (some t) p q = no_time y p q
  where
    no_time :
        (y : Option ℕ)
        → queued_before y none ≡ false
        → queued_before (some t) y ≡ false
        → true ≡ false
    no_time none p q = q
    no_time (some u) p q = p
queued_trans (some u) none (some t) p q = absurd (cc)
queued_trans (some u) (some v) (some t) p q = ground arith

queued_asym : (x y : Option ℕ) → queued_before x y ≡ true → queued_before y x ≡ false
queued_asym none y h = cc
queued_asym (some t) none h = refl
queued_asym (some t) (some u) h = ground arith

insert_stuck-Among : (a b : Action) (l : List Action) → Among b (a ∷ l) → Among b (insert_stuck a l)
unfolding insert_stuck
insert_stuck-Among a b [] m = m
insert_stuck-Among a b (x ∷ l) m = elim (Bool-cases (queued_before x.queued_at a.queued_at)) [
  | inr no' ↦ rw no' m
  | inl yes' ↦ elim m [
    | inl e ↦ rw yes' (inr (insert_stuck-Among a b l (inl e)))
    | inr (inl e) ↦ rw yes' (inl e)
    | inr (inr m') ↦ rw yes' (inr (insert_stuck-Among a b l (inr m')))
  ]
]

sort_stuck-Among : (b : Action) (l : List Action) → Among b l → Among b (sort_stuck l)
unfolding sort_stuck
sort_stuck-Among b [] m = elim m [ ]
sort_stuck-Among b (a ∷ l) (inl e) = insert_stuck-Among a b (sort_stuck l) (inl e)
sort_stuck-Among b (a ∷ l) (inr m) =
    insert_stuck-Among a b (sort_stuck l) (inr (sort_stuck-Among b l m))

All-insert :
    (P : Action → Type 0) (a : Action) (l : List Action) → P a → All P l → All P (insert_stuck a l)
unfolding insert_stuck
All-insert P a [] h all = (h, tt)
All-insert P a (b ∷ l) h all = elim (Bool-cases (queued_before b.queued_at a.queued_at)) [
  | inl yes' ↦ rw yes' (all.0, All-insert P a l h all.1)
  | inr no' ↦ rw no' (h, all)
]

insert_stuck-InOrder :
    (a : Action) (l : List Action) → InOrder NoLater l → InOrder NoLater (insert_stuck a l)
unfolding insert_stuck
insert_stuck-InOrder a [] o = (tt, tt)
insert_stuck-InOrder a (x ∷ l) o = elim (Bool-cases (queued_before x.queued_at a.queued_at)) [
  | inl yes' ↦ rw yes' (
    All-insert (NoLater x) a l (queued_asym x.queued_at a.queued_at yes') o.0,
    insert_stuck-InOrder a l o.1,
  )
  | inr no' ↦ rw no' (
    (
      no',
      All-map (NoLater x) (NoLater a)
          (λ z b. queued_trans a.queued_at x.queued_at z.queued_at no' b) l o.0,
    ),
    o,
  )
]

sort_stuck-InOrder : (l : List Action) → InOrder NoLater (sort_stuck l)
unfolding sort_stuck
sort_stuck-InOrder [] = tt
sort_stuck-InOrder (a ∷ l) = insert_stuck-InOrder a (sort_stuck l) (sort_stuck-InOrder l)

select_where-Among :
    (p : Action → Bool) (l : List Action) (a : Action)
    → Among a l
    → p a ≡ true
    → Among a (select_where p l)
unfolding select_where
select_where-Among p [] a m h = elim m [ ]
select_where-Among p (x ∷ l) a (inl e) h = let yes' : p x ≡ true = ap p e ∙ h in rw yes' (inl e)
select_where-Among p (x ∷ l) a (inr m) h =
    let later = select_where-Among p l a m h in
    elim (Bool-cases (p x)) [ inl yes' ↦ rw yes' (inr later) | inr no' ↦ rw no' later ]

module _ {L Q : Type 0} (c : Config) (now : ℕ) (w : World L Q) where
  -- The row of the remediation, or a full search of rows that were queued no later.
  abbrev pub Finds : Action → Type 0
  Finds a =
      ((s : Stuck) × Among s (find_stuck c now w) × (s.id ≡ a.id))
      ⊎ ((length (find_stuck c now w) ≡ 100)
          × All (λ s. (b : Action) × (s.id ≡ b.id) × NoLater b a) (find_stuck c now w))

  stuck_rows-Among :
      (l : List Action) (a : Action)
      → Among a l
      → (s : Stuck) × Among s (stuck_rows c now w.dispatches w.heartbeats l) × (s.id ≡ a.id)
  unfolding stuck_rows
  stuck_rows-Among [] a m = elim m [ ]
  stuck_rows-Among (x ∷ l) a (inl e) = (_, inl refl, ap (λ (y : Action). y.id) e)
  stuck_rows-Among (x ∷ l) a (inr m) = let (s, m', e) = stuck_rows-Among l a m in (s, inr m', e)

  length-stuck_rows :
      (l : List Action) → length (stuck_rows c now w.dispatches w.heartbeats l) ≡ length l
  unfolding stuck_rows
  length-stuck_rows [] = refl
  length-stuck_rows (x ∷ l) = ground (arith, length-stuck_rows l)

  stuck_rows-All :
      (P : Action → Type 0) (l : List Action)
      → All P l
      → All (λ s. (b : Action) × (s.id ≡ b.id) × P b) (stuck_rows c now w.dispatches w.heartbeats l)
  unfolding stuck_rows
  stuck_rows-All P [] all = tt
  stuck_rows-All P (x ∷ l) all = ((x, refl, all.0), stuck_rows-All P l all.1)

  -- Everything that is late is found, as far as the search goes.
  pub find_stuck-Finds : (a : Action) → Among a w.actions → IsLate c now w.dispatches a → Finds a
  unfolding find_stuck
  find_stuck-Finds a m late =
      let p = is_stuck c now w.dispatches in
      let sorted = sort_stuck (select_where p w.actions) in
      let there =
        sort_stuck-Among a (select_where p w.actions)
          (select_where-Among p w.actions a m (IsLate-is_stuck c now w.dispatches a late)) in
      elim (take-Among NoLater 100 sorted a (sort_stuck-InOrder (select_where p w.actions)) there) [
        | inl early ↦ inl (stuck_rows-Among (take 100 sorted) a early)
        | inr full ↦ inr (
          length-stuck_rows (take 100 sorted) ∙ full.0,
          stuck_rows-All (λ b. NoLater b a) (take 100 sorted) full.1,
        )
      ]
