-- ===== src/Db/Atomic.antt =====
-- Code that has written nothing where it throws.
use tuixiu.Db.Laws.{transaction_ok, transaction_err}
use tuixiu.Prelude.{Option, none, some, ◌≡◌, refl, sym, ap, ◌∙◌, inl, inr, ◌⊎◌}
use tuixiu.Db.Types.{Db}
use tuixiu.Db.Exec.{Fault, Result, ok, err, Exec, ◌>>=◌, require, bind_ok, bind_err}
use tuixiu.Db.Tables.{transaction}

abbrev pub Atomic : {A : Type 0} → Exec A → Type 0
Atomic m = (db : Db) (x : Fault) → (m db).0 ≡ err x → (m db).1 ≡ db

abbrev pub ReadOnly : {A : Type 0} → Exec A → Type 0
ReadOnly m = (db : Db) → (m db).1 ≡ db

pub require-ReadOnly : {A : Type 0} (e : Fault) (o : Option A) → ReadOnly (require e o)
require-ReadOnly e none db = refl
require-ReadOnly e (some a) db = refl

Result-cases : {A : Type 0} (r : Result A) → ((a : A) × (r ≡ ok a)) ⊎ ((e : Fault) × (r ≡ err e))
Result-cases (ok a) = inl (a, refl)
Result-cases (err e) = inr (e, refl)

-- A block that only reads before its last part is atomic if that part is.
pub bind-Atomic :
    {A B : Type 0} (m : Exec A) (f : A → Exec B)
    → ReadOnly m
    → ((a : A) → Atomic (f a))
    → Atomic (m >>= f)
bind-Atomic m f reads later db x e = elim (Result-cases (m db).0) [
  | inl (a, p) ↦
      let run = bind_ok m f (λ i. (p i, (m db).1)) refl in
      ap (λ r. r.1) run ∙ later a (m db).1 x (sym (ap (λ r. r.0) run) ∙ e) ∙ reads db
  | inr (y, p) ↦ ap (λ r. r.1) (bind_err m f (λ i. (p i, (m db).1))) ∙ reads db
]

-- A transaction is rolled back.
pub transaction-Atomic : {A : Type 0} (m : Exec A) → Atomic (transaction m)
transaction-Atomic m db x e = elim (Result-cases (m db).0) [
  | inl (a, p) ↦
      absurd (cc (sym (ap (λ r. r.0) (transaction_ok m {db = db} (λ i. (p i, (m db).1)))) ∙ e))
  | inr (y, p) ↦ ap (λ r. r.1) (transaction_err m {db = db} (λ i. (p i, (m db).1)))
]
