-- ===== src/Approvals/Rows.antt =====
-- What the statements of internal/approvals/store.go do to the rows of the two tables.
use argus.Base.{
  String, ◌≡◌, refl, sym, ap, ◌∙◌, Bool, true, false, ◌||◌, none, some, List, [], ◌∷◌, ◌++◌, arith,
  str_eq, str_eq-eq, eq-str_eq, Bool-cases, inl, inr, if◌then◌else◌,
}
use argus.Remediation.States.{State, awaiting_approval, require_transition}
use argus.Remediation.States.Lifecycle.{History, start, step}
use argus.Approvals.{
  Request, Remediation, is_awaiting, update_where, find_request, find_by_remediation,
}
use argus.Approvals.Store.{has_key, is_awaiting_id}

-- No two requests have one identifier: the primary key.
abbrev pub Keyed : List Request → Type 0
Keyed [] = Unit
Keyed (r ∷ rs) = (has_key r.id rs ≡ false) × Keyed rs

abbrev pub KeepsId : (Request → Request) → Type 0
KeepsId f = (r : Request) → (f r).id ≡ r.id

abbrev pub updated : (Request → Bool) → (Request → Request) → Request → Request
updated p f r = if p r then f r else r

module _ (p : Request → Bool) (f : Request → Request) (keeps : KeepsId f) where
  updated-id : (r : Request) → (updated p f r).id ≡ r.id
  updated-id r = ground (arith, keeps r)

  has_key-update_where :
      (id : String) (rs : List Request) → has_key id (update_where p f rs) ≡ has_key id rs
  unfolding has_key update_where
  has_key-update_where id [] = refl
  has_key-update_where id (r ∷ rs) = rw (updated-id r, has_key-update_where id rs) refl

  pub Keyed-update_where : (rs : List Request) → Keyed rs → Keyed (update_where p f rs)
  unfolding update_where
  Keyed-update_where [] k = tt
  Keyed-update_where (r ∷ rs) k =
      (rw (updated-id r, has_key-update_where r.id rs) k.0, Keyed-update_where rs k.1)

  -- An update shows in the row that is found.
  pub find_request-update_where :
      (id : String) (rs : List Request) (r : Request)
      → find_request id rs ≡ some r
      → find_request id (update_where p f rs) ≡ some (updated p f r)
  unfolding find_request update_where
  find_request-update_where id [] r h = cc
  find_request-update_where id (x ∷ rs) r h = elim (Bool-cases (str_eq x.id id)) [
    | inl same ↦ rw (updated-id x, same) (ap (λ y. some (updated p f y)) (same_row (rw same at h)))
    | inr differ ↦ rw (updated-id x, differ) (find_request-update_where id rs r (rw differ at h))
  ]
    where
      same_row : {a b : Request} → some a ≡ some b → a ≡ b
      same_row e = cc

-- A row that is found has the identifier.
pub find_request-id :
    (id : String) (rs : List Request) (r : Request) → find_request id rs ≡ some r → r.id ≡ id
unfolding find_request
find_request-id id [] r h = cc
find_request-id id (x ∷ rs) r h = ground (arith, str_eq-eq x.id id, find_request-id id rs r)

has_key-find_by_remediation :
    (id : String) (rs : List Request) (r : Request)
    → find_by_remediation id rs ≡ some r
    → has_key r.id rs ≡ true
unfolding has_key find_by_remediation
has_key-find_by_remediation id [] r h = cc
has_key-find_by_remediation id (x ∷ rs) r h =
    ground (arith, eq-str_eq r.id r.id refl, has_key-find_by_remediation id rs r)

-- The request of a remediation is the one with its own identifier.
pub find_by_remediation-find_request :
    (id : String) (rs : List Request) (r : Request)
    → Keyed rs
    → find_by_remediation id rs ≡ some r
    → find_request r.id rs ≡ some r
unfolding find_request find_by_remediation
find_by_remediation-find_request id [] r k h = cc
find_by_remediation-find_request id (x ∷ rs) r k h =
    elim (Bool-cases (str_eq x.remediation_id id)) [
      | inl same ↦ ground (arith, eq-str_eq r.id r.id refl)
      | inr differ ↦
          let h' = rw differ at h in
          let other : str_eq x.id r.id ≡ false = ground (
            arith,
            has_key-find_by_remediation id rs r h',
            k.0,
            ap (λ i. has_key i rs),
            str_eq-eq x.id r.id,
          ) in
          rw other (find_by_remediation-find_request id rs r k.1 h')
    ]

-- Every remediation keeps its place and its identifier, and its status moves along allowed
-- transitions.
abbrev pub Moved : List Remediation → List Remediation → Type 0
Moved [] [] = Unit
Moved (a ∷ as') (b ∷ bs) = (a.id ≡ b.id) × History a.status b.status × Moved as' bs
Moved _ _ = ⊥

-- Two histories in a row.
pub History-append : {s t u : State} → History s t → History t u → History s u
History-append h start = h
History-append h (step k e) = step (History-append h k) e

pub Moved-refl : (rs : List Remediation) → Moved rs rs
Moved-refl [] = tt
Moved-refl (a ∷ rs) = (refl, start, Moved-refl rs)

pub Moved-trans : (xs ys zs : List Remediation) → Moved xs ys → Moved ys zs → Moved xs zs
Moved-trans [] [] [] m n = tt
Moved-trans (x ∷ xs) (y ∷ ys) (z ∷ zs) m n =
    (m.0 ∙ n.0, History-append m.1 n.1, Moved-trans xs ys zs m.2 n.2)
Moved-trans [] [] (z ∷ zs) m n = elim n [ ]
Moved-trans [] (y ∷ ys) zs m n = elim m [ ]
Moved-trans (x ∷ xs) [] zs m n = elim m [ ]
Moved-trans (x ∷ xs) (y ∷ ys) [] m n = elim n [ ]

pub is_awaiting-eq : (s : State) → is_awaiting s ≡ true → s ≡ awaiting_approval
is_awaiting-eq awaiting_approval h = refl
is_awaiting-eq _ h = ground arith

moves_alike :
    (s t to : State)
    → s ≡ awaiting_approval
    → t ≡ to
    → require_transition awaiting_approval to ≡ none
    → require_transition s t ≡ none
moves_alike s t to e f h = cc

-- The update of a remediation that awaits approval, to a state that the table allows.
pub Moved-update_where :
    (id : String) (f : Remediation → Remediation) (to : State) (rs : List Remediation)
    → ((a : Remediation) → ((f a).id ≡ a.id) × ((f a).status ≡ to))
    → require_transition awaiting_approval to ≡ none
    → Moved rs (update_where (is_awaiting_id id) f rs)
unfolding update_where
Moved-update_where id f to [] sets ok_to = tt
Moved-update_where id f to (a ∷ rs) sets ok_to = elim (Bool-cases (is_awaiting_id id a)) [
  | inr no_match ↦ rw no_match (refl, start, Moved-update_where id f to rs sets ok_to)
  | inl match_it ↦
      let waits : a.status ≡ awaiting_approval = is_awaiting-eq a.status (ground arith) in
      rw match_it (
        sym (sets a).0,
        step start (moves_alike a.status (f a).status to waits (sets a).1 ok_to),
        Moved-update_where id f to rs sets ok_to,
      )
]

has_key-append :
    (id : String) (rs : List Request) (r : Request)
    → has_key id (rs ++ r ∷ []) ≡ (has_key id rs || str_eq r.id id)
unfolding has_key
has_key-append id [] r = ground arith
has_key-append id (x ∷ rs) r = ground (arith, has_key-append id rs r)

pub Keyed-append :
    (rs : List Request) (r : Request) → Keyed rs → has_key r.id rs ≡ false → Keyed (rs ++ r ∷ [])
unfolding has_key
Keyed-append [] r k fresh = (refl, tt)
Keyed-append (x ∷ rs) r k fresh = (
  ground (arith, has_key-append x.id rs r, k.0, str_eq-eq r.id x.id, eq-str_eq x.id r.id),
  Keyed-append rs r k.1 (ground arith),
)

pub find_request-append :
    (id : String) (rs : List Request) (new r : Request)
    → find_request id rs ≡ some r
    → find_request id (rs ++ new ∷ []) ≡ some r
unfolding find_request
find_request-append id [] new r h = cc
find_request-append id (x ∷ rs) new r h = ground (arith, find_request-append id rs new r)
