-- ===== src/Pm/Policy/Laws.antt =====
-- Reading a project's policy and templates after one of them is set.
use tuixiu.Prelude.{
  String, Option, none, some, ◌≡◌, ◌≢◌, refl, ap, ◌==◌, eq_iff, eq_refl, find-modify_found,
  Option-cases, inl, inr, arith, Bool-cases, subst, find-modify_ne,
}
use tuixiu.Json
use tuixiu.Json.{Value, Fields, end, field, obj}
use tuixiu.Db.Types.{Project, Db}
use tuixiu.Db.Tables.{find_project}
use tuixiu.Workflow.Resolver.{project, Overrides}
use tuixiu.Pm.Policy.{
  PmPolicy, granted, with_key, at_key, set_branch_protection, get_pm_policy_from_branch_protection,
  get_pm_policy_for_project, set_pm_policy_for_project, get_task_templates_for_project,
}

get-set_self :
    (key : String) (v : Value) (fields : Fields) → Json.get key (Json.set key v fields) ≡ some v
unfolding Json.get Json.set
get-set_self key v end = rw (eq_refl key) refl
get-set_self key v (field k w rest) = ground (arith, eq_refl key, get-set_self key v rest)

get-set_other :
    (key other : String) (v : Value) (fields : Fields)
    → key ≢ other
    → Json.get other (Json.set key v fields) ≡ Json.get other fields
unfolding Json.get Json.set
get-set_other key other v end apart = ground (arith, eq_iff key other)
get-set_other key other v (field k w rest) apart =
    ground
      (arith, eq_iff key other, eq_iff k key, eq_iff k other, get-set_other key other v rest apart)

-- What is stored at a key is what is read at it, and the other keys are left.
at_key-with_key : (key : String) (v w : Value) → at_key key (with_key key v w) ≡ some v
unfolding at_key with_key Json.get
at_key-with_key key v (obj fields) = get-set_self key v fields
at_key-with_key key v _ = rw (eq_refl key) refl

at_key-with_other :
    (key other : String) (v w : Value)
    → key ≢ other
    → at_key other (with_key key v w) ≡ at_key other w
unfolding at_key with_key Json.get
at_key-with_other key other v (obj fields) apart = get-set_other key other v fields apart
at_key-with_other key other v _ apart = ground (arith, eq_iff key other)

found_after_set :
    (id : String) (v : Value) (db : Db) {p : Project}
    → find_project id db ≡ some p
    → find_project id (set_branch_protection id v db) ≡ some (record p { branch_protection = v })
found_after_set id v db e =
    find-modify_found (λ p. p.id) id (λ p. record p { branch_protection = v }) db.projects
      (λ p. refl) e

module _ (parse_policy : Option Value → Option PmPolicy) (policy_json : PmPolicy → Value)
    (parse_templates : Option Value → Option Overrides) (templates_json : Overrides → Value) where
  policy_of_key :
      (v : Value) {policy : PmPolicy}
      → parse_policy (at_key "pmPolicy" v) ≡ some policy
      → parse_policy none ≡ none
      → get_pm_policy_from_branch_protection parse_policy policy_json v ≡ (policy, project)
  unfolding get_pm_policy_from_branch_protection at_key
  policy_of_key (obj fields) e absent = rw (e, get_pm_policy_from_branch_protection) refl
  policy_of_key _ e absent = absurd (cc)

  -- Where the schema refuses an absent value and reads back what it gave, a policy that is accepted
  -- for a project that is there is what the project's policy is from then on, with the project as
  -- its source.
  pub set_pm_policy_for_project-get_pm_policy_for_project :
      (project_id : String) (value : Value) (db : Db) {p : Project} {policy : PmPolicy}
      → parse_policy none ≡ none
      → find_project project_id db ≡ some p
      → parse_policy (some value) ≡ some policy
      → parse_policy (some (policy_json policy)) ≡ some policy
      → get_pm_policy_for_project parse_policy policy_json project_id
          (set_pm_policy_for_project parse_policy policy_json project_id value db).1
        ≡ granted (policy, project)
  unfolding set_pm_policy_for_project get_pm_policy_for_project
  set_pm_policy_for_project-get_pm_policy_for_project project_id value db {p} {policy} absent
        has_project accepted reads_back =
      rw (accepted, set_pm_policy_for_project)
        (rw (has_project, set_pm_policy_for_project)
          (rw
            (
              found_after_set project_id
                  (with_key "pmPolicy" (policy_json policy) p.branch_protection) db has_project,
              get_pm_policy_for_project,
            )
            (ap granted (
              policy_of_key (with_key "pmPolicy" (policy_json policy) p.branch_protection)
                (rw (at_key-with_key "pmPolicy" (policy_json policy) p.branch_protection)
                  reads_back)
                absent))))

  templates_with_key :
      (id : String) (v : Value) (db : Db) {p : Project}
      → find_project id db ≡ some p
      → at_key "taskTemplates" v ≡ at_key "taskTemplates" p.branch_protection
      → (other : String)
      → get_task_templates_for_project parse_templates templates_json other
          (set_branch_protection id v db)
        ≡ get_task_templates_for_project parse_templates templates_json other db
  unfolding get_task_templates_for_project
  templates_with_key id v db {p} has_project kept other = elim (Bool-cases (id == other)) [
    | inl same ↦
        subst
          (λ o.
            get_task_templates_for_project parse_templates templates_json o
              (set_branch_protection id v db)
            ≡ get_task_templates_for_project parse_templates templates_json o db)
          ((eq_iff id other).0 same)
          (rw (found_after_set id v db has_project, has_project, get_task_templates_for_project)
            (rw kept refl))
    | inr apart ↦
        let ne : id ≢ other = λ e. absurd (cc (rw (e, eq_refl other) at apart)) in
        rw
          (
            find-modify_ne (λ (p : Project). p.id) id other
                (λ p. record p { branch_protection = v }) db.projects (λ p. refl) ne,
            get_task_templates_for_project,
          )
          refl
  ]

  -- Setting the policy of a project, accepted or not, leaves what is read as the task templates of
  -- every project.
  pub set_pm_policy_for_project-get_task_templates_for_project :
      (project_id : String) (value : Value) (db : Db) (other : String)
      → get_task_templates_for_project parse_templates templates_json other
          (set_pm_policy_for_project parse_policy policy_json project_id value db).1
        ≡ get_task_templates_for_project parse_templates templates_json other db
  unfolding set_pm_policy_for_project
  set_pm_policy_for_project-get_task_templates_for_project project_id value db other =
      elim (Option-cases (parse_policy (some value))) [
        | inl refused ↦ rw (refused, set_pm_policy_for_project) refl
        | inr (policy, accepted) ↦ elim (Option-cases (find_project project_id db)) [
          | inl missing ↦ rw (accepted, missing, set_pm_policy_for_project) refl
          | inr (p, has_project) ↦
              rw (accepted, has_project, set_pm_policy_for_project)
                (templates_with_key project_id
                  (with_key "pmPolicy" (policy_json policy) p.branch_protection) db has_project
                  (at_key-with_other "pmPolicy" "taskTemplates" (policy_json policy)
                    p.branch_protection (λ e. cc))
                  other)
        ]
      ]
