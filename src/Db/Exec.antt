-- ===== src/Db/Exec.antt =====
-- Code that reads and writes the database and may throw. A throw keeps what was written before it.
use tuixiu.Prelude.{String, Option, none, some, ◌≡◌, refl}
use tuixiu.Db.Types.{Db}

-- the codes of `TaskEngineError`, and the client's error for an update of a row that is not there
pub data Fault : Type 0 where
  bad_request not_found bad_template bad_step not_ready : Fault
  missing_row : Fault
  thrown : (message : String) → Fault

pub data Result {ℓ} (A : Type ℓ) : Type ℓ where
  ok : A → Result A
  err : Fault → Result A

abbrev pub Exec : Type 0 → Type 0
Exec A = Db → Result A × Db

infixl 5 ◌>>=◌ ◌>>◌
unfoldable pub ◌>>=◌ : {A B : Type 0} → Exec A → (A → Exec B) → Exec B
◌>>=◌ m f db = let (r, after) = m db in elim r [ ok a ↦ f a after | err e ↦ (err e, after) ]

abbrev pub ◌>>◌ : {A B : Type 0} → Exec A → Exec B → Exec B
m >> k = m >>= λ _. k

abbrev pub pure : {A : Type 0} → A → Exec A
pure a db = (ok a, db)

abbrev pub throw : {A : Type 0} → Fault → Exec A
throw e db = (err e, db)

-- a call that cannot throw
abbrev pub write : (Db → Db) → Exec (Unit {0})
write f db = (ok tt, f db)

abbrev pub gets : {A : Type 0} → (Db → A) → Exec A
gets f db = (ok (f db), db)

-- `if (!value) throw e`
abbrev pub require : {A : Type 0} → Fault → Option A → Exec A
require e none = throw e
require e (some a) = pure a

-- A block whose first call returns goes on from the state that the call left.
pub bind_ok :
    {A B : Type 0} (m : Exec A) (f : A → Exec B) {db : Db} {a : A} {after : Db} {r : Result B × Db}
    → m db ≡ (ok a, after)
    → f a after ≡ r
    → (m >>= f) db ≡ r
unfolding ◌>>=◌
bind_ok m f p q = rw (p, ◌>>=◌) (rw p q)

-- A block whose first call throws stops there.
pub bind_err :
    {A B : Type 0} (m : Exec A) (f : A → Exec B) {db : Db} {e : Fault} {after : Db}
    → m db ≡ (err e, after)
    → (m >>= f) db ≡ (err e, after)
unfolding ◌>>=◌
bind_err m f p = rw (p, ◌>>=◌) (rw p refl)

pub require-some :
    {A : Type 0} (e : Fault) {o : Option A} {a : A} (db : Db)
    → o ≡ some a
    → require e o db ≡ (ok a, db)
require-some e db h = rw h refl

pub require-none :
    {A : Type 0} (e : Fault) {o : Option A} (db : Db) → o ≡ none → require e o db ≡ (err e, db)
require-none e db h = rw h refl
