-- ===== src/Rotation/OneOpen.antt =====
-- A credential has at most one open run, under the statements of
-- src/repositories/pg-rotation-run-repository.ts.
use keylore.Prelude.{
  ℕ, String, ◌≡◌, refl, sym, subst, Bool, true, false, some, List, [], ◌∷◌, ◌++◌, arith, ◌==◌,
  eq_iff, Bool-cases, Option-cases, inl, inr, any, find, update_first, All, All-append,
  All-update_first,
}
use keylore.Domain.Rotation.{RotationRun}
use keylore.Rotation.Table.{
  is_open, open_for, fits_schema, clashes, create, get_by_id, Transition, moved, transition,
}
use keylore.Rotation.Lifecycle.{IsLegal, found_row}

abbrev pub NoOtherOpen : String → List RotationRun → Type 0
NoOtherOpen credential_id table = All (λ (s : RotationRun). open_for credential_id s ≡ false) table

-- After an open run, no later row is an open run for the same credential.
abbrev pub OneOpen : List RotationRun → Type 0
OneOpen [] = Unit
OneOpen (r ∷ rs) = (is_open r.status ≡ true → NoOtherOpen r.credential_id rs) × OneOpen rs

OneOpen-append :
    (table : List RotationRun) (run : RotationRun)
    → OneOpen table
    → any (clashes run) table ≡ false
    → OneOpen (table ++ run ∷ [])
OneOpen-append [] run h free = ((λ _. tt), tt)
OneOpen-append (r ∷ rs) run (h, hs) free = (
  (λ open_r.
      All-append (λ (s : RotationRun). open_for r.credential_id s ≡ false) rs (run ∷ []) (h open_r)
        (
          ground (
            arith,
            eq_iff run.credential_id r.credential_id,
            eq_iff r.credential_id run.credential_id,
          ),
          tt,
        )),
  OneOpen-append rs run hs (ground arith),
)

pub create-OneOpen :
    (run : RotationRun) (table : List RotationRun) → OneOpen table → OneOpen (create run table).1
unfolding create
create-OneOpen run table h = elim (Bool-cases (fits_schema run)) [
  | inr e ↦ rw e h
  | inl e ↦ elim (Bool-cases (any (clashes run) table)) [
    | inl f ↦ rw (e, f) h
    | inr f ↦ rw (e, f) (OneOpen-append table run h f)
  ]
]

-- A change that opens nothing.
record OpensNothing (f : RotationRun → RotationRun) (r : RotationRun) : Type 0 where
  pub credential_id : (f r).credential_id ≡ r.credential_id
  pub was_open : is_open (f r).status ≡ true → is_open r.status ≡ true

stays_closed :
    (f : RotationRun → RotationRun) (r : RotationRun) (id : String)
    → OpensNothing f r
    → open_for id r ≡ false
    → open_for id (f r) ≡ false
stays_closed f r id o h = elim (Bool-cases (is_open (f r).status)) [
  | inl e ↦ rw (o.credential_id, e) (ground (arith, o.was_open e))
  | inr e ↦ ground (arith, e)
]

OneOpen-update_first :
    (p : RotationRun → Bool) (f : RotationRun → RotationRun) (table : List RotationRun)
    → ((r : RotationRun) → find p table ≡ some r → OpensNothing f r)
    → OneOpen table
    → OneOpen (update_first p f table)
OneOpen-update_first p f [] k h = h
OneOpen-update_first p f (r ∷ rs) k (h, hs) = elim (Bool-cases (p r)) [
  | inl e ↦
      let o : OpensNothing f r = (k r (rw e refl)) in
      rw e (
        (λ open_r. subst (λ id. NoOtherOpen id rs) (sym o.credential_id) (h (o.was_open open_r))),
        hs,
      )
  | inr e ↦
      let later : ((q : RotationRun) → find p rs ≡ some q → OpensNothing f q) =
        (λ q found. k q (rw e found)) in
      rw e (
        (λ open_r.
            All-update_first (λ (s : RotationRun). open_for r.credential_id s ≡ false) p f rs
              (h open_r)
              (λ q found closed. stays_closed f q r.credential_id (later q found) closed)),
        OneOpen-update_first p f rs later hs,
      )
]

pub transition-OneOpen :
    (now : ℕ) (id : String) (update : Transition) (table : List RotationRun)
    → IsLegal update
    → OneOpen table
    → OneOpen (transition now id update table).1
unfolding transition moved
transition-OneOpen now id update table legal h = elim (Option-cases (get_by_id id table)) [
  | inl e ↦ rw (transition, e) h
  | inr (r, e) ↦ elim (Bool-cases (update.from_statuses r.status)) [
    | inr f ↦ rw (transition, e, f) h
    | inl f ↦
        rw (transition, e, f)
          (OneOpen-update_first (λ (q : RotationRun). q.id == id) (moved now update) table
            (λ q found. record {
              credential_id = refl;
              was_open = λ _. legal.from_open q.status (
                  subst (λ (s : RotationRun). update.from_statuses s.status ≡ true)
                    (found_row id table found e) f);
            })
            h)
  ]
]
