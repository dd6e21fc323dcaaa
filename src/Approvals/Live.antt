-- ===== src/Approvals/Live.antt =====
-- A run has at most one approval under way for an action.
use tuixiu.Prelude.{
  ℕ, String, Option, none, Bool, true, false, List, [], ◌∷◌, ◌++◌, ◌≡◌, ◌≤◌, refl, sym, ap, ◌==◌,
  eq_iff, select, length, Option-cases, Bool-cases, inl, inr, arith, subst,
}
use tuixiu.Db.Types.{ApprovalAction, Approval, Run, Project, Db}
use tuixiu.Approvals.{
  Ask, is_live, is_action, new_approval, find_latest_approval, create_approval, request_approval,
}
use tuixiu.Approvals.Idempotent.{
  newest_first-empty, select-append, request_approval-free, existing_again,
}

abbrev pub AtMostOneLive : List Approval → Type 0
AtMostOneLive approvals =
    (run_id : String) (action : ApprovalAction)
    → length (select (is_live run_id action) approvals) ≤ 1

select-append_other :
    {A : Type 0} (p : A → Bool) (xs : List A) (y : A)
    → p y ≡ false
    → select p (xs ++ y ∷ []) ≡ select p xs
unfolding select
select-append_other p [] y e = rw e refl
select-append_other p (x ∷ xs) y e = elim (Bool-cases (p x)) [
  | inl holds ↦ rw holds (ap (λ l. x ∷ l) (select-append_other p xs y e))
  | inr other ↦ rw other (select-append_other p xs y e)
]

is_action_sound : (a b : ApprovalAction) → is_action a b ≡ true → a ≡ b
is_action_sound a b e = ground arith

module _ (to_iso : ℕ → String) (admin_token : Option Project → String) (approval_id : String)
    (now : ℕ) (by : Option String) (ask : Ask) (run : Run) where
  new_fits :
      (run_id : String) (action : ApprovalAction)
      → is_live run_id action (new_approval approval_id now by ask run) ≡ true
      → (run.id ≡ run_id) × (ask.action ≡ action)
  unfolding new_approval
  new_fits run_id action e =
      let first : (run.id == run_id) ≡ true = ground (arith, e) in
      let second : is_action ask.action action ≡ true = ground (arith, e) in
      ((eq_iff run.id run_id).0 first, is_action_sound ask.action action second)

  created-AtMostOneLive :
      (db : Db)
      → find_latest_approval run.id ask.action db ≡ none
      → AtMostOneLive db.approvals
      → AtMostOneLive (create_approval to_iso admin_token approval_id now by ask run db).1.approvals
  unfolding create_approval find_latest_approval
  created-AtMostOneLive db free one run_id action =
      let new = new_approval approval_id now by ask run in
      elim (Bool-cases (is_live run_id action new)) [
        | inl holds ↦
            let (same_run, same_action) = new_fits run_id action holds in
            let none_live = newest_first-empty (λ (a : Approval). a.created_at) _ free in
            let none_here =
              subst (λ i. select (is_live i action) db.approvals ≡ []) same_run
                (subst (λ a. select (is_live run.id a) db.approvals ≡ []) same_action none_live) in
            rw (select-append (is_live run_id action) db.approvals new none_here holds)
              (omega arith)
        | inr other ↦
            rw (select-append_other (is_live run_id action) db.approvals new other)
              (one run_id action)
      ]

  -- If every run has at most one approval under way for each action, this still holds after a
  -- request for an approval.
  pub request_approval-AtMostOneLive :
      (db : Db)
      → AtMostOneLive db.approvals
      → AtMostOneLive
          (request_approval to_iso admin_token approval_id now by ask run db).1.approvals
  request_approval-AtMostOneLive db one =
      elim (Option-cases (find_latest_approval run.id ask.action db)) [
        | inl free ↦
            subst (λ r. AtMostOneLive r.1.approvals)
              (sym (request_approval-free to_iso admin_token approval_id now by ask run db free))
              (created-AtMostOneLive db free one)
        | inr (found, e) ↦
            subst (λ r. AtMostOneLive r.1.approvals)
              (sym (existing_again to_iso admin_token ask run db e approval_id now by ask refl)) one
      ]
