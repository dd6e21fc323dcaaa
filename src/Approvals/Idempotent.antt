-- ===== src/Approvals/Idempotent.antt =====
-- A request that is made again gives the approval that is under way, and writes nothing.
use tuixiu.Prelude.{
  ℕ, String, Option, none, some, Bool, true, List, [], ◌∷◌, ◌++◌, ◌≡◌, refl, sym, eq_refl, select,
  newest_first, insert_newest, head_or_none, Option-cases, Bool-cases, inl, inr, leb, ◌≢◌, subst,
}
use tuixiu.Db.Types.{ApprovalAction, Approval, Run, Project, Db}
use tuixiu.Approvals.{
  Ask, Outcome, ApprovalSummary, accepted, is_live, is_action, find_latest_approval, new_approval,
  to_approval_summary, create_approval, request_approval, summary_of,
}

module _ {A : Type 0} (k : A → ℕ) where
  insert_newest-not_none : (x : A) (xs : List A) → head_or_none (insert_newest k x xs) ≢ none
  unfolding insert_newest
  insert_newest-not_none x [] e = cc
  insert_newest-not_none x (y ∷ ys) e = elim (Bool-cases (leb (k y) (k x))) [
    | inl holds ↦ absurd (cc (rw holds at e))
    | inr other ↦ absurd (cc (rw other at e))
  ]

  pub newest_first-empty : (xs : List A) → head_or_none (newest_first k xs) ≡ none → xs ≡ []
  unfolding newest_first
  newest_first-empty [] e = refl
  newest_first-empty (x ∷ xs) e = absurd (insert_newest-not_none x (newest_first k xs) e)

pub select-append :
    {A : Type 0} (p : A → Bool) (xs : List A) (y : A)
    → select p xs ≡ []
    → p y ≡ true
    → select p (xs ++ y ∷ []) ≡ y ∷ []
unfolding select
select-append p [] y e fits = rw fits refl
select-append p (x ∷ xs) y e fits = elim (Bool-cases (p x)) [
  | inl holds ↦ absurd (cc (rw holds at e))
  | inr other ↦ rw other (select-append p xs y (rw other at e) fits)
]

is_action_self : (a : ApprovalAction) → is_action a a ≡ true
is_action_self ApprovalAction.merge_pr = refl
is_action_self ApprovalAction.create_pr = refl
is_action_self ApprovalAction.publish_artifact = refl

module _ (to_iso : ℕ → String) (admin_token : Option Project → String) (approval_id : String)
    (now : ℕ) (requested_by : Option String) (ask : Ask) (run : Run) where
  new_is_live : is_live run.id ask.action (new_approval approval_id now requested_by ask run) ≡ true
  unfolding new_approval
  new_is_live = rw (eq_refl run.id, is_action_self ask.action) refl

  -- the row that a created request leaves is the one that is found
  pub find_latest-created :
      (db : Db)
      → find_latest_approval run.id ask.action db ≡ none
      → find_latest_approval run.id ask.action
          (create_approval to_iso admin_token approval_id now requested_by ask run db).1
        ≡ some (new_approval approval_id now requested_by ask run)
  unfolding find_latest_approval create_approval newest_first insert_newest
  find_latest-created db free =
      let none_live = newest_first-empty (λ a. a.created_at) _ free in
      let created = new_approval approval_id now requested_by ask run in
      rw (select-append (is_live run.id ask.action) db.approvals created none_live new_is_live) refl

-- The reply and the database of a request that meets an approval under way.
abbrev pub given : ApprovalSummary → Outcome
given s = record { reply = accepted s; comment = none }

module _ (to_iso : ℕ → String) (admin_token : Option Project → String) where
  request_approval-existing :
      (approval_id : String) (now : ℕ) (requested_by : Option String) (ask : Ask) (run : Run)
      (db : Db) {s : ApprovalSummary}
      → to_approval_summary to_iso admin_token (find_latest_approval run.id ask.action db) run db
        ≡ some s
      → request_approval to_iso admin_token approval_id now requested_by ask run db ≡ (given s, db)
  unfolding request_approval
  request_approval-existing approval_id now requested_by ask run db e =
      rw (e, request_approval) refl

  pub request_approval-free :
      (approval_id : String) (now : ℕ) (requested_by : Option String) (ask : Ask) (run : Run)
      (db : Db)
      → find_latest_approval run.id ask.action db ≡ none
      → request_approval to_iso admin_token approval_id now requested_by ask run db
        ≡ create_approval to_iso admin_token approval_id now requested_by ask run db
  unfolding request_approval
  request_approval-free approval_id now requested_by ask run db e = rw (e, request_approval) refl

  -- A request is accepted, and from then on a request of the same kind gives the same reply.
  pub record Settled (ask : Ask) (run : Run) (result : Outcome × Db) : Type 0 where
    pub summary : ApprovalSummary
    pub is_accepted : result.0.reply ≡ accepted summary
    pub again :
        (approval_id : String) (now : ℕ) (requested_by : Option String) (later : Ask)
        → later.action ≡ ask.action
        → request_approval to_iso admin_token approval_id now requested_by later run result.1
          ≡ (given summary, result.1)

  pub existing_again :
      (ask : Ask) (run : Run) (db : Db) {found : Approval}
      → find_latest_approval run.id ask.action db ≡ some found
      → (approval_id : String) (now : ℕ) (requested_by : Option String) (later : Ask)
      → later.action ≡ ask.action
      → request_approval to_iso admin_token approval_id now requested_by later run db
        ≡ (given (summary_of to_iso admin_token found run db), db)
  existing_again ask run db e id time by later same =
      request_approval-existing id time by later run db (rw same (rw e refl))

  pub request_approval-Settled :
      (approval_id : String) (now : ℕ) (requested_by : Option String) (ask : Ask) (run : Run)
      (db : Db)
      → Settled ask run
          (request_approval to_iso admin_token approval_id now requested_by ask run db)
  unfolding create_approval summary_of
  request_approval-Settled approval_id now requested_by ask run db =
      elim (Option-cases (find_latest_approval run.id ask.action db)) [
        | inl free ↦
            subst (Settled ask run)
              (sym (request_approval-free approval_id now requested_by ask run db free))
              (record {
                summary =
                    summary_of to_iso admin_token
                      (new_approval approval_id now requested_by ask run) run db;
                is_accepted = refl;
                again = λ id time by later same. request_approval-existing id time by later run _ (
                    rw same (
                      rw
                        (find_latest-created to_iso admin_token approval_id now requested_by ask run
                          db free)
                        refl));
              })
        | inr (found, e) ↦
            let under_way = existing_again ask run db e in
            subst (Settled ask run) (sym (under_way approval_id now requested_by ask refl))
              (record {
                summary = summary_of to_iso admin_token found run db;
                is_accepted = refl;
                again = under_way;
              })
      ]
