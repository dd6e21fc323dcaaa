-- ===== src/Proxy/Runs/Kept.antt =====
-- What an opening leaves of a run that a proxy holds.
use tuixiu.Prelude.{
  ℕ, String, some, Bool, true, false, List, [], ◌∷◌, refl, ◌≡◌, inl, inr, Bool-cases, Option-cases,
  if◌then◌else◌, ◌∙◌, ap, sym, subst, any, ◌==◌, eq_iff, eq_refl,
}
use tuixiu.Prelude.{trim, is_empty, select}
use mathlib.Core.Option.{some_inj}
use tuixiu.Proxy.Runs.{
  validate_run_id, valid, invalid, instance_name_for, Checked, RunRuntime, HeldRuns, find_run,
  put_run, delete_run, get_or_create, open_run, then_touched, OpenMessage, keepalive_of, used_again,
  new_runtime, RunEvent, opens, removes, run_step, run_steps,
}
use tuixiu.Proxy.Runs.Held.{find_run-put_run}
use tuixiu.Proxy.Runs.Held.Accepted.{validate_run_id-again}

-- the same run in the same sandbox, with the same sessions and the same prompt
abbrev pub IsSame : RunRuntime → RunRuntime → Type 0
IsSame q r =
    (q.run_id ≡ r.run_id)
    × (q.instance_name ≡ r.instance_name)
    × (q.initialized ≡ r.initialized)
    × (q.seen_session_ids ≡ r.seen_session_ids)
    × (q.active_prompt_id ≡ r.active_prompt_id)

-- An id is held with what it was.
abbrev pub Keeps : String → RunRuntime → HeldRuns → Type 0
Keeps id r runs = (q : RunRuntime) × (find_run id runs ≡ some q) × IsSame q r

module _ (id : String) (r : RunRuntime) where
  put_run-Keeps :
      (key : String) (new : RunRuntime) (runs : HeldRuns)
      → ((key == id) ≡ true → IsSame new r)
      → Keeps id r runs
      → Keeps id r (put_run key new runs)
  put_run-Keeps key new runs same (q, found, h) = elim (Bool-cases (key == id)) [
    | inl here ↦ (
      new,
      find_run-put_run id key new runs ∙ ap (λ b. if b then some new else find_run id runs) here,
      same here,
    )
    | inr there ↦ (
      q,
      find_run-put_run id key new runs
          ∙ ap (λ b. if b then some new else find_run id runs) there
          ∙ found,
      h,
    )
  ]

  -- The run that is found under a key is the one that the id has, if they are the same.
  found-IsSame :
      (key : String) (runs : HeldRuns) {q : RunRuntime}
      → Keeps id r runs
      → find_run key runs ≡ some q
      → (key == id) ≡ true
      → IsSame q r
  found-IsSame key runs {q} (p, found, h) found' e =
      let same : p ≡ q =
        some_inj.0 (sym found ∙ ap (λ x. find_run x runs) (sym ((eq_iff key id).0 e)) ∙ found') in
      subst (λ x. IsSame x r) same h

  abbrev KeptIn : String → HeldRuns × Checked RunRuntime → Type 0
  KeptIn key (runs, valid q) = (find_run key runs ≡ some q) × Keeps id r runs
  KeptIn key (runs, invalid e) = Keeps id r runs

  find_run-put :
      (key : String) (q : RunRuntime) (runs : HeldRuns) → find_run key (put_run key q runs) ≡ some q
  find_run-put key q runs =
      find_run-put_run key key q runs
      ∙ ap (λ b. if b then some q else find_run key runs) (eq_refl key)

  get_or_create-KeptIn :
      (now : ℕ) (key_raw name_raw : String) (ttl : ℕ) (runs : HeldRuns)
      → Keeps id r runs
      → KeptIn (trim key_raw) (get_or_create now key_raw name_raw ttl runs)
  unfolding get_or_create
  get_or_create-KeptIn now key_raw name_raw ttl runs ks =
      let key = trim key_raw in
      let name = trim name_raw in
      elim (Bool-cases (is_empty key)) [
        | inl e ↦ rw (e, get_or_create) ks
        | inr n ↦ elim (Bool-cases (is_empty name)) [
          | inl e ↦ rw (n, e, get_or_create) ks
          | inr n' ↦ elim (Option-cases (find_run key runs)) [
            | inl absent ↦
                let q = new_runtime now key name ttl in
                let new : (key == id) ≡ true → IsSame q r =
                  λ e. absurd (cc (absent, ks.1, (eq_iff key id).0 e)) in
                rw (n, n', absent, get_or_create)
                  (find_run-put key q runs, put_run-Keeps key q runs new ks)
            | inr (p, found) ↦
                let q = used_again now ttl p in
                elim (Bool-cases (p.instance_name == name)) [
                  | inl e ↦
                      rw (n, n', found, e, get_or_create)
                        (
                          find_run-put key q runs,
                          put_run-Keeps key q runs (found-IsSame key runs ks found) ks,
                        )
                  | inr e ↦ rw (n, n', found, e, get_or_create) ks
                ]
          ]
        ]
      ]

  then_touched-Keeps :
      (key : String) (later ttl : ℕ) (res : HeldRuns × Checked RunRuntime)
      → KeptIn key res
      → Keeps id r (then_touched key later ttl res).0
  then_touched-Keeps key later ttl (runs, invalid e) ks = ks
  then_touched-Keeps key later ttl (runs, valid q) (found, ks) =
      put_run-Keeps key (used_again later ttl q) runs (found-IsSame key runs ks found) ks

  open_run-Keeps :
      (now later : ℕ) (msg : OpenMessage) (runs : HeldRuns)
      → Keeps id r runs
      → Keeps id r (open_run now later msg runs).0
  unfolding open_run
  open_run-Keeps now later msg runs ks = go (validate_run_id msg.message_run_id) refl
    where
      named :
          (key : String) (c : Checked String)
          → validate_run_id msg.message_run_id ≡ valid key
          → instance_name_for msg.message_instance_name key ≡ c
          → Keeps id r (open_run now later msg runs).0
      named key (invalid e) h h' = rw (h, h', open_run) ks
      named key (valid name) h h' =
          let ttl = keepalive_of msg.message_ttl in
          let got = get_or_create now key name ttl runs in
          let trimmed = (validate_run_id-again msg.message_run_id h).0 in
          rw (h, h', open_run)
            (then_touched-Keeps key later ttl got
              (subst (λ x. KeptIn x got) trimmed (get_or_create-KeptIn now key name ttl runs ks)))

      go :
          (c : Checked String)
          → validate_run_id msg.message_run_id ≡ c
          → Keeps id r (open_run now later msg runs).0
      go (invalid e) h = rw (h, open_run) ks
      go (valid key) h = named key (instance_name_for msg.message_instance_name key) h refl

delete_run-find_run :
    (id key : String) (runs : HeldRuns)
    → (key == id) ≡ false
    → find_run id (delete_run key runs) ≡ find_run id runs
unfolding delete_run find_run select
delete_run-find_run id key [] h = refl
delete_run-find_run id key ((k, q) ∷ rest) h = elim (Bool-cases (k == key)) [
  | inl here ↦
      let other : (k == id) ≡ false =
        subst (λ x. (x == id) ≡ false) (sym ((eq_iff k key).0 here)) h in
      rw (here, other) (delete_run-find_run id key rest h)
  | inr there ↦ elim (Bool-cases (k == id)) [
    | inl e ↦ rw (there, e) refl
    | inr n ↦ rw (there, n) (delete_run-find_run id key rest h)
  ]
]

abbrev pub removes_run : String → RunEvent → Bool
removes_run id (opens now later msg) = false
removes_run id (removes key) = key == id

-- A run that a proxy holds and that no event removes is held after any openings and removals, with
-- the same id, sandbox, state of its agent, sessions and prompt.
pub run_steps-Keeps :
    (id : String) (r : RunRuntime) (events : List RunEvent) (runs : HeldRuns)
    → find_run id runs ≡ some r
    → any (removes_run id) events ≡ false
    → Keeps id r (run_steps events runs)
unfolding run_steps run_step any
run_steps-Keeps id r events runs found h =
    steps events runs h (r, found, (refl, refl, refl, refl, refl))
  where
    steps :
        (es : List RunEvent) (rs : HeldRuns)
        → any (removes_run id) es ≡ false
        → Keeps id r rs
        → Keeps id r (run_steps es rs)
    steps [] rs k ks = ks
    steps (opens now later msg ∷ rest) rs k ks =
        steps rest (open_run now later msg rs).0 k (open_run-Keeps id r now later msg rs ks)
    steps (removes key ∷ rest) rs k (q, there, same) = elim (Bool-cases (key == id)) [
      | inl e ↦ absurd (cc (rw e at k))
      | inr n ↦
          steps rest (delete_run key rs) (rw n at k)
            (q, delete_run-find_run id key rs n ∙ there, same)
    ]
