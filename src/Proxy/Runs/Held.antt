-- ===== src/Proxy/Runs/Held.antt =====
-- What holds of every run that a proxy holds.
pub mod Accepted
use tuixiu.Prelude.{
  ℕ, ◌+◌, ◌≤◌, String, Option, none, some, Bool, true, false, List, [], ◌∷◌, arith, leb, ltb, eqb,
  ◌||◌, ◌&&◌, refl, ◌≡◌, inl, inr, Bool-cases, Option-cases, if◌then◌else◌, ◌∙◌, ap, sym, subst,
  any, all, ◌==◌, not, All, eq_iff, eq_refl,
}
use tuixiu.Prelude.{trim, is_empty, codes, trim-trim, select}
use tuixiu.Prelude.{All-select, ◌<|◌}
use Prim.Native.String
use mathlib.Core.Option.{some_inj}
use tuixiu.Acp.Chunks.{utf16_length}
use tuixiu.Proxy.Runs.{
  is_separator, is_colon, is_name, validate_run_id, validate_instance_name, valid, invalid,
  instance_name_for, RunError, Checked, RunRuntime, HeldRuns, find_run, put_run, delete_run,
  get_or_create, open_run, then_touched, OpenMessage, keepalive_of, used_again, new_runtime,
  RunEvent, opens, removes, run_step, run_steps,
}
use tuixiu.Proxy.Runs.Held.Accepted.{
  validate_run_id-again, instance_name_for-again, keepalive_of-bounds,
}

-- A run is held under its own id, which is accepted as its name is, for a time within the bounds.
abbrev pub IsHeld : String × RunRuntime → Type 0
IsHeld row =
    (row.1.run_id ≡ row.0)
    × (validate_run_id row.0 ≡ valid row.0)
    × (validate_instance_name row.1.instance_name ≡ valid row.1.instance_name)
    × (60 ≤ row.1.keepalive_ttl_seconds)
    × (row.1.keepalive_ttl_seconds ≤ 86400)

put_run-All :
    (key : String) (r : RunRuntime) (runs : HeldRuns)
    → IsHeld (key, r)
    → All IsHeld runs
    → All IsHeld (put_run key r runs)
unfolding put_run
put_run-All key r [] h hs = (h, tt)
put_run-All key r ((k, q) ∷ rest) h hs = elim (Bool-cases (k == key)) [
  | inl here ↦ rw here (subst (λ x. IsHeld (x, r)) (sym ((eq_iff k key).0 here)) h, hs.1)
  | inr there ↦ rw there (hs.0, put_run-All key r rest h hs.1)
]

find_run-IsHeld :
    (key : String) (runs : HeldRuns) {r : RunRuntime}
    → All IsHeld runs
    → find_run key runs ≡ some r
    → IsHeld (key, r)
unfolding find_run
find_run-IsHeld key [] hs h = absurd (cc)
find_run-IsHeld key ((k, q) ∷ rest) {r} hs h = elim (Bool-cases (k == key)) [
  | inl here ↦
      let same : q ≡ r = some_inj.0 (rw here at h) in
      subst (λ x. IsHeld (x, r)) ((eq_iff k key).0 here) (subst (λ x. IsHeld (k, x)) same hs.0)
  | inr there ↦ find_run-IsHeld key rest hs.1 (rw there at h)
]

not_same : (k key id : String) → (k == key) ≡ false → (k == id) ≡ true → (key == id) ≡ false
not_same k key id h e = elim (Bool-cases (key == id)) [
  | inl same ↦ absurd (cc ((eq_iff k key).1 ((eq_iff k id).0 e ∙ sym ((eq_iff key id).0 same))))
  | inr other ↦ other
]

pub find_run-put_run :
    (id key : String) (r : RunRuntime) (runs : HeldRuns)
    → find_run id (put_run key r runs) ≡ (if key == id then some r else find_run id runs)
unfolding find_run put_run
find_run-put_run id key r [] = refl
find_run-put_run id key r ((k, q) ∷ rest) = elim (Bool-cases (k == key)) [
  | inl here ↦ elim (Bool-cases (key == id)) [
    | inl e ↦ rw (here, (eq_iff k key).0 here, e) refl
    | inr n ↦ rw (here, (eq_iff k key).0 here, n) refl
  ]
  | inr there ↦ elim (Bool-cases (k == id)) [
    | inl e ↦ rw (there, e, not_same k key id there e) refl
    | inr n ↦ rw (there, n) (find_run-put_run id key r rest)
  ]
]

-- the runs after an opening, and the run that it answers with
abbrev AreHeld : HeldRuns × Checked RunRuntime → String → Type 0
AreHeld (runs, valid r) key = All IsHeld runs × IsHeld (key, r)
AreHeld (runs, invalid e) key = All IsHeld runs

get_or_create-AreHeld :
    (now : ℕ) (key_raw name_raw : String) (ttl : ℕ) (runs : HeldRuns)
    → validate_run_id (trim key_raw) ≡ valid (trim key_raw)
    → validate_instance_name (trim name_raw) ≡ valid (trim name_raw)
    → (60 ≤ ttl) × (ttl ≤ 86400)
    → All IsHeld runs
    → AreHeld (get_or_create now key_raw name_raw ttl runs) (trim key_raw)
unfolding get_or_create
get_or_create-AreHeld now key_raw name_raw ttl runs good good' (low, high) hs =
    let key = trim key_raw in
    let name = trim name_raw in
    elim (Bool-cases (is_empty key)) [
      | inl e ↦ rw (e, get_or_create) hs
      | inr n ↦ elim (Bool-cases (is_empty name)) [
        | inl e ↦ rw (n, e, get_or_create) hs
        | inr n' ↦ elim (Option-cases (find_run key runs)) [
          | inl absent ↦
              let r = new_runtime now key name ttl in
              let h : IsHeld (key, r) = (refl, good, good', low, high) in
              rw (n, n', absent, get_or_create) (put_run-All key r runs h hs, h)
          | inr (q, found) ↦
              let r = used_again now ttl q in
              let (own, _, accepted, _, _) = find_run-IsHeld key runs hs found in
              let h : IsHeld (key, r) = (own, good, accepted, low, high) in
              elim (Bool-cases (q.instance_name == name)) [
                | inl e ↦ rw (n, n', found, e, get_or_create) (put_run-All key r runs h hs, h)
                | inr e ↦ rw (n, n', found, e, get_or_create) hs
              ]
        ]
      ]
    ]

accepted_again :
    (check : String → Checked String) (k : String)
    → (trim k ≡ k) × (check k ≡ valid k)
    → check (trim k) ≡ valid (trim k)
accepted_again check k (same, good) = ap check same ∙ good ∙ ap valid (sym same)

then_touched-All :
    (key : String) (later ttl : ℕ) (res : HeldRuns × Checked RunRuntime)
    → (60 ≤ ttl) × (ttl ≤ 86400)
    → AreHeld res key
    → All IsHeld (then_touched key later ttl res).0
then_touched-All key later ttl (runs, invalid e) b hs = hs
then_touched-All key later ttl (runs, valid r) b (hs, (own, good, accepted, _, _)) =
    put_run-All key (used_again later ttl r) runs (own, good, accepted, b.0, b.1) hs

open_run-All :
    (now later : ℕ) (msg : OpenMessage) (runs : HeldRuns)
    → All IsHeld runs
    → All IsHeld (open_run now later msg runs).0
unfolding open_run
open_run-All now later msg runs hs = go (validate_run_id msg.message_run_id) refl
  where
    named :
        (key : String) (c : Checked String)
        → validate_run_id msg.message_run_id ≡ valid key
        → instance_name_for msg.message_instance_name key ≡ c
        → All IsHeld (open_run now later msg runs).0
    named key (invalid e) h h' = rw (h, h', open_run) hs
    named key (valid name) h h' =
        let ttl = keepalive_of msg.message_ttl in
        let bounds = keepalive_of-bounds msg.message_ttl in
        let known = validate_run_id-again msg.message_run_id h in
        rw (h, h', open_run)
          (then_touched-All key later ttl (get_or_create now key name ttl runs) bounds (
            subst (AreHeld (get_or_create now key name ttl runs)) known.0 (
              get_or_create-AreHeld now key name ttl runs (accepted_again validate_run_id key known)
                (accepted_again validate_instance_name name
                  (instance_name_for-again msg.message_instance_name key h'))
                bounds hs)))

    go :
        (c : Checked String)
        → validate_run_id msg.message_run_id ≡ c
        → All IsHeld (open_run now later msg runs).0
    go (invalid e) h = rw (h, open_run) hs
    go (valid key) h = named key (instance_name_for msg.message_instance_name key) h refl

run_steps-All :
    (events : List RunEvent) (runs : HeldRuns)
    → All IsHeld runs
    → All IsHeld (run_steps events runs)
unfolding run_steps run_step delete_run
run_steps-All [] runs hs = hs
run_steps-All (opens now later msg ∷ rest) runs hs =
    run_steps-All rest (open_run now later msg runs).0 (open_run-All now later msg runs hs)
run_steps-All (removes id ∷ rest) runs hs =
    run_steps-All rest (delete_run id runs)
      (All-select IsHeld (λ (row : String × RunRuntime). not (row.0 == id)) runs hs)

-- After any openings and removals a run that a proxy holds is held under its own id, the id and the
-- name of its sandbox are accepted, and its time to live lies between 60 and 86,400 seconds.
pub run_steps-IsHeld :
    (events : List RunEvent) (id : String) {r : RunRuntime}
    → find_run id (run_steps events []) ≡ some r
    → IsHeld (id, r)
run_steps-IsHeld events id h =
    find_run-IsHeld id (run_steps events []) (run_steps-All events [] tt) h
