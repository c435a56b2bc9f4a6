-- ===== src/Server/Db/Keeping.antt =====
-- What statements keep: one rule for each way to send a statement, about a predicate of the tables.
use railyard.Base.{
  ℕ, ◌≡◌, ◌⊎◌, inl, inr, refl, Option-cases, Result, ok, Result-cases, Keeps, arith,
}
use railyard.Server.Db.Schema.{Tables}
use railyard.Server.Db.Connection.{Db, query, execute, execute_all}

pub record OnTables (Q : Tables → Type 0) (db : Db) : Type 0 where
  pub holds : Q db.tables

pub tables-query :
    {A : Type 0} (select : Tables → A) (db : Db) → (query select db).1.tables ≡ db.tables
unfolding query
tables-query select db = ground arith

-- A statement that writes has done so, or has failed and changed nothing.
pub tables-execute :
    (change : Tables → Result (ℕ × Tables)) (db : Db)
    → ((execute change db).1.tables ≡ db.tables)
      ⊎ ((n : ℕ) × (t : Tables) × (change db.tables ≡ ok (n, t))
          × ((execute change db).1.tables ≡ t))
unfolding execute
tables-execute change db = elim (Option-cases (db.faults db.statements)) [
  | inr (why, e) ↦ inl (rw (e, execute) refl)
  | inl e ↦ elim (Result-cases (change db.tables)) [
    | inr (why, r) ↦ inl (rw (e, execute) (rw (r, execute) refl))
    | inl ((n, t), r) ↦ inr (n, t, r, rw (e, execute) (rw (r, execute) refl))
  ]
]

pub tables-execute_all :
    (change : Tables → Tables) (db : Db)
    → ((execute_all change db).1.tables ≡ db.tables)
      ⊎ ((execute_all change db).1.tables ≡ change db.tables)
unfolding execute_all
tables-execute_all change db = elim (Option-cases (db.faults db.statements)) [
  | inr (why, e) ↦ inl (rw (e, execute_all) refl)
  | inl e ↦ inr (rw (e, execute_all) refl)
]

module _ {Q : Tables → Type 0} where
  pub Keeps-query : {A : Type 0} (select : Tables → A) → Keeps (OnTables Q) (query select)
  Keeps-query select = record {
    from = λ db h. record { holds = rw (tables-query select db) h.holds };
  }

  pub Keeps-execute :
      (change : Tables → Result (ℕ × Tables))
      → ((t t' : Tables) (n : ℕ) → change t ≡ ok (n, t') → Q t → Q t')
      → Keeps (OnTables Q) (execute change)
  Keeps-execute change kept = record {
    from = λ db h. record {
      holds = elim (tables-execute change db) [
        | inl same ↦ rw same h.holds
        | inr (n, t, done, e) ↦ rw e (kept db.tables t n done h.holds)
      ];
    };
  }

  pub Keeps-execute_all :
      (change : Tables → Tables)
      → ((t : Tables) → Q t → Q (change t))
      → Keeps (OnTables Q) (execute_all change)
  Keeps-execute_all change kept = record {
    from = λ db h. record {
      holds = elim (tables-execute_all change db) [
        | inl same ↦ rw same h.holds
        | inr e ↦ rw e (kept db.tables h.holds)
      ];
    };
  }

pub ruleset keeping_rules = (Keeps-query, Keeps-execute, Keeps-execute_all)

-- What a statement that succeeds has done.
pub execute-eq-ok :
    (change : Tables → Result (ℕ × Tables)) (db : Db) (n : ℕ)
    → (execute change db).0 ≡ ok n
    → (t : Tables) × (change db.tables ≡ ok (n, t)) × ((execute change db).1.tables ≡ t)
unfolding execute
execute-eq-ok change db n = elim (Option-cases (db.faults db.statements)) [
  | inr (why, e) ↦ rw (e, execute) (λ h. cc)
  | inl e ↦ elim (Result-cases (change db.tables)) [
    | inr (why, r) ↦ rw (e, execute) (rw (r, execute) (λ h. cc))
    | inl ((m, t), r) ↦ rw (e, execute) (rw (r, execute) (λ h. (t, cc, refl)))
  ]
]

pub execute_all-eq-ok :
    (change : Tables → Tables) (db : Db) {u : Unit {0}}
    → (execute_all change db).0 ≡ ok u
    → (execute_all change db).1.tables ≡ change db.tables
unfolding execute_all
execute_all-eq-ok change db h = ground arith

pub query-eq-ok :
    {A : Type 0} (select : Tables → A) (db : Db) (a : A)
    → (query select db).0 ≡ ok a
    → a ≡ select db.tables
unfolding query
query-eq-ok select db a h = ground arith
