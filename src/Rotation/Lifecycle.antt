-- ===== src/Rotation/Lifecycle.antt =====
-- The life of a rotation run, as an abstract machine, and the statements of
-- src/repositories/pg-rotation-run-repository.ts as its moves.
use keylore.Prelude.{
  ℕ, String, ◌≡◌, refl, sym, ◌∙◌, subst, true, false, some, List, [], ◌∷◌, arith, ◌==◌, Bool-cases,
  Option-cases, inl, inr, any, find, Evolves, Evolves-refl, Evolves-append, Evolves-update_first,
}
use keylore.Domain.Rotation.{RotationStatus, RotationRun}
use keylore.Rotation.Table.{
  is_open, fits_schema, clashes, create, get_by_id, Transition, moved, transition,
}

-- The moves of the abstract machine: a pending run is started, and an open run is completed or fails.
pub data Moves : RotationStatus → RotationStatus → Type 0 where
  starts : Moves RotationStatus.pending RotationStatus.in_progress
  completes : {s : RotationStatus} → is_open s ≡ true → Moves s RotationStatus.completed
  fails : {s : RotationStatus} → is_open s ≡ true → Moves s RotationStatus.failed

-- Any number of moves.
pub data Reaches : RotationStatus → RotationStatus → Type 0 where
  stays : {s : RotationStatus} → Reaches s s
  moves : {s t u : RotationStatus} → Moves s t → Reaches t u → Reaches s u

Reaches-trans : {s t u : RotationStatus} → Reaches s t → Reaches t u → Reaches s u
Reaches-trans stays k = k
Reaches-trans (moves m h) k = moves m (Reaches-trans h k)

-- The same run, at most further along; a run that is not open does not change at all.
pub record Follows (r s : RotationRun) : Type 0 where
  pub id : s.id ≡ r.id
  pub tenant_id : s.tenant_id ≡ r.tenant_id
  pub credential_id : s.credential_id ≡ r.credential_id
  pub source : s.source ≡ r.source
  pub due_at : s.due_at ≡ r.due_at
  pub planned_by : s.planned_by ≡ r.planned_by
  pub path : Reaches r.status s.status
  pub settled : is_open r.status ≡ false → s ≡ r

pub Follows-refl : (r : RotationRun) → Follows r r
Follows-refl r = record {
  id = refl;
  tenant_id = refl;
  credential_id = refl;
  source = refl;
  due_at = refl;
  planned_by = refl;
  path = stays;
  settled = λ _. refl;
}

pub Follows-trans : (r s t : RotationRun) → Follows r s → Follows s t → Follows r t
Follows-trans r s t h k = record {
  id = k.id ∙ h.id;
  tenant_id = k.tenant_id ∙ h.tenant_id;
  credential_id = k.credential_id ∙ h.credential_id;
  source = k.source ∙ h.source;
  due_at = k.due_at ∙ h.due_at;
  planned_by = k.planned_by ∙ h.planned_by;
  path = Reaches-trans h.path k.path;
  settled = λ e.
      let same : s ≡ r = (h.settled e) in
      k.settled (subst (λ (q : RotationRun). is_open q.status ≡ false) (sym same) e) ∙ same;
}

-- A transition that the abstract machine knows.
pub record IsLegal (update : Transition) : Type 0 where
  pub from_open : (s : RotationStatus) → update.from_statuses s ≡ true → is_open s ≡ true
  pub move : (s : RotationStatus) → update.from_statuses s ≡ true → Moves s update.status

moved-Follows :
    (now : ℕ) (update : Transition) (r : RotationRun)
    → IsLegal update
    → update.from_statuses r.status ≡ true
    → Follows r (moved now update r)
unfolding moved
moved-Follows now update r legal h = record {
  id = refl;
  tenant_id = refl;
  credential_id = refl;
  source = refl;
  due_at = refl;
  planned_by = refl;
  path = moves (legal.move r.status h) stays;
  settled = λ e. absurd (cc (sym (legal.from_open r.status h) ∙ e));
}

pub create-Evolves :
    (run : RotationRun) (table : List RotationRun) → Evolves Follows table (create run table).1
unfolding create
create-Evolves run table = elim (Bool-cases (fits_schema run)) [
  | inr e ↦ rw e (Evolves-refl Follows table Follows-refl)
  | inl e ↦ elim (Bool-cases (any (clashes run) table)) [
    | inl f ↦ rw (e, f) (Evolves-refl Follows table Follows-refl)
    | inr f ↦ rw (e, f) (Evolves-append Follows table (run ∷ []) Follows-refl)
  ]
]

-- The row that the key selects is the row that was found.
pub found_row :
    (id : String) (table : List RotationRun) {q r : RotationRun}
    → find (λ (s : RotationRun). s.id == id) table ≡ some q
    → get_by_id id table ≡ some r
    → r ≡ q
unfolding get_by_id
found_row id table found e = ground (arith, (sym e ∙ found))

pub transition-Evolves :
    (now : ℕ) (id : String) (update : Transition) (table : List RotationRun)
    → IsLegal update
    → Evolves Follows table (transition now id update table).1
unfolding transition
transition-Evolves now id update table legal = elim (Option-cases (get_by_id id table)) [
  | inl e ↦ rw (transition, e) (Evolves-refl Follows table Follows-refl)
  | inr (r, e) ↦ elim (Bool-cases (update.from_statuses r.status)) [
    | inr f ↦ rw (transition, e, f) (Evolves-refl Follows table Follows-refl)
    | inl f ↦
        rw (transition, e, f)
          (Evolves-update_first Follows (λ (q : RotationRun). q.id == id) (moved now update) table
            Follows-refl
            (λ q found. moved-Follows now update q legal (
              subst (λ (s : RotationRun). update.from_statuses s.status ≡ true)
                (found_row id table found e) f)))
  ]
]
