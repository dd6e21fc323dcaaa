-- ===== src/Proxy/Facade/Permissions/Offered.antt =====
-- What an agent is told is among what it offered.
use tuixiu.Json.{Value, prop}
use tuixiu.Prelude.{
  String, Option, some, Bool, true, false, List, [], ◌∷◌, arith, refl, ◌≡◌, inl, inr, Bool-cases,
  Option-cases, ◌∙◌, sym, subst, ◌==◌, eq_iff, is_some, ◌<|◌, All, ◌⊎◌, find,
}
use tuixiu.Proxy.Facade.Permissions.{
  cancels_all, PermissionOption, PermissionOutcome, preferred, pick_default_permission_outcome,
  normalize_permission_decision, Permissions, lookup_pending, delete_pending, cancel_each,
  wait_for_permission, resolve_permission, PermissionEvent, happen, happen_all, selected,
  is_allow_once, PermissionDecision, Pending, asks, request_permission, no_permissions, chosen,
  cancelled, options_of, cancel_permission_request, decides, cancel_all_permissions, cancels,
  refused,
}
use mathlib.Core.List.{Memᴰ}
use tuixiu.Prelude.{find_mem, All-append, head_or_none, trim, is_empty}

-- An id that an option has, or has up to spaces around it.
pub record IsOffered (options : List PermissionOption) (id : String) : Type 0 where
  pub offer : PermissionOption
  pub among : Memᴰ offer options
  pub named : (id ≡ offer.option_id) ⊎ (id ≡ trim offer.option_id)

-- An outcome that options allow.
abbrev pub IsAllowed : List PermissionOption → PermissionOutcome → Type 0
IsAllowed options cancelled = Unit
IsAllowed options (selected id) = IsOffered options id

head_or_none-mem : {A : Type 0} (xs : List A) {x : A} → head_or_none xs ≡ some x → Memᴰ x xs
head_or_none-mem [] e = absurd (cc)
head_or_none-mem (y ∷ ys) {x} e = Memᴰ.head (ground arith)

preferred_mem :
    (options : List PermissionOption) {o : PermissionOption}
    → preferred options ≡ some o
    → Memᴰ o options
preferred_mem options {o} e = elim (Option-cases (find is_allow_once options)) [
  | inl nothing ↦ head_or_none-mem options (rw nothing at e)
  | inr (p, found) ↦ (find_mem is_allow_once options {x = o} (found ∙ (rw found at e))).1
]

pick_default_permission_outcome-IsAllowed :
    (options : List PermissionOption) → IsAllowed options (pick_default_permission_outcome options)
unfolding pick_default_permission_outcome
pick_default_permission_outcome-IsAllowed options = elim (Option-cases (preferred options)) [
  | inl nothing ↦
      let e : pick_default_permission_outcome options ≡ cancelled =
        rw (nothing, pick_default_permission_outcome) refl in
      subst (IsAllowed options) (sym e) tt
  | inr (o, found) ↦ elim (Bool-cases (is_empty (trim o.option_id))) [
    | inl blank ↦
        let e : pick_default_permission_outcome options ≡ cancelled =
          rw (found, blank, pick_default_permission_outcome) refl in
        subst (IsAllowed options) (sym e) tt
    | inr given ↦
        let e : pick_default_permission_outcome options ≡ selected (trim o.option_id) =
          rw (found, given, pick_default_permission_outcome) refl in
        subst (IsAllowed options) (sym e)
          (record { offer = o; among = preferred_mem options found; named = inr refl })
  ]
]

normalize_permission_decision-IsAllowed :
    (options : List PermissionOption) (decision : PermissionDecision)
    → IsAllowed options (normalize_permission_decision options decision)
unfolding normalize_permission_decision
normalize_permission_decision-IsAllowed options refused = tt
normalize_permission_decision-IsAllowed options (chosen given) =
    let id = trim (given <| "") in
    elim (Bool-cases (is_empty id)) [
      | inl blank ↦ rw blank (pick_default_permission_outcome-IsAllowed options)
      | inr named ↦
          elim (Option-cases (find (λ (o : PermissionOption). o.option_id == id) options)) [
            | inl nothing ↦ rw (named, nothing) (pick_default_permission_outcome-IsAllowed options)
            | inr (o, e) ↦
                rw (named, e)
                  (record {
                    offer = o;
                    among =
                        (find_mem (λ (o : PermissionOption). o.option_id == id) options {x = o}
                          e).1;
                    named = inl refl;
                  })
          ]
    ]

-- `Asked id options`: the options were offered in a request with that id.
module _ (Asked : String → List PermissionOption → Type 0) where
  abbrev IsPending : String × List PermissionOption → Type 0
  IsPending (id, options) = Asked id options

  abbrev pub IsAnswer : String × PermissionOutcome → Type 0
  IsAnswer (id, outcome) =
      (options : List PermissionOption) × Asked id options × IsAllowed options outcome

  record IsHonest (s : Permissions) : Type 0 where
    waiting : All IsPending s.pending
    told : All IsAnswer s.answers

  lookup_pending-Asked :
      (id : String) (p : Pending) {options : List PermissionOption}
      → All IsPending p
      → lookup_pending id p ≡ some options
      → Asked id options
  unfolding lookup_pending
  lookup_pending-Asked id [] h e = absurd (cc)
  lookup_pending-Asked id ((key, o) ∷ p) {options} h e = elim (Bool-cases (key == id)) [
    | inl here ↦
        let same : o ≡ options = ground arith in
        subst (Asked id) same (subst (λ k. Asked k o) ((eq_iff key id).0 here) h.0)
    | inr there ↦ lookup_pending-Asked id p h.1 (rw there at e)
  ]

  delete_pending-All :
      (id : String) (p : Pending) → All IsPending p → All IsPending (delete_pending id p)
  unfolding delete_pending
  delete_pending-All id [] h = tt
  delete_pending-All id ((key, o) ∷ p) h = elim (Bool-cases (key == id)) [
    | inl here ↦ rw here h.1
    | inr there ↦ rw there (h.0, delete_pending-All id p h.1)
  ]

  cancel_each-All :
      (p : Pending) (answers : List (String × PermissionOutcome))
      → All IsPending p
      → All IsAnswer answers
      → All IsAnswer (cancel_each p answers)
  unfolding cancel_each
  cancel_each-All [] answers h k = k
  cancel_each-All ((id, options) ∷ p) answers h k =
      cancel_each-All p ((id, cancelled) ∷ answers) h.1 ((options, h.0, tt), k)

  wait_for_permission-IsHonest :
      (id : String) (options : List PermissionOption) (s : Permissions)
      → Asked id options
      → IsHonest s
      → IsHonest (wait_for_permission id options s)
  unfolding wait_for_permission
  wait_for_permission-IsHonest id [] s a h = record {
    waiting = h.waiting;
    told = (([], a, tt), h.told);
  }
  wait_for_permission-IsHonest id (first ∷ rest) s a h =
      elim (Bool-cases (is_some (lookup_pending id s.pending))) [
        | inl again ↦ rw again (record {
          waiting = h.waiting;
          told =
              ((first ∷ rest, a, pick_default_permission_outcome-IsAllowed (first ∷ rest)), h.told);
        })
        | inr fresh ↦ rw fresh (record {
          waiting = All-append IsPending s.pending ((id, first ∷ rest) ∷ []) h.waiting (a, tt);
          told = h.told;
        })
      ]

  resolve_permission-IsHonest :
      (id : String) (decision : PermissionDecision) (s : Permissions)
      → IsHonest s
      → IsHonest (resolve_permission id decision s).1
  unfolding resolve_permission
  resolve_permission-IsHonest id decision s h = elim (Option-cases (lookup_pending id s.pending)) [
    | inl e ↦ rw (e, resolve_permission) h
    | inr (options, e) ↦
        rw (e, resolve_permission)
          (record {
            waiting = delete_pending-All id s.pending h.waiting;
            told = (
              (
                options,
                lookup_pending-Asked id s.pending h.waiting e,
                normalize_permission_decision-IsAllowed options decision,
              ),
              h.told,
            );
          })
  ]

  -- what an event offers
  abbrev Offers : PermissionEvent → Type 0
  Offers (asks id params) = Asked id (options_of (prop "options" params))
  Offers _ = Unit

  happen-IsHonest :
      (ask : Bool) (e : PermissionEvent) (s : Permissions)
      → Offers e
      → IsHonest s
      → IsHonest (happen ask e s)
  unfolding happen request_permission cancel_permission_request cancel_all_permissions
  happen-IsHonest true (asks id params) s o h =
      wait_for_permission-IsHonest id (options_of (prop "options" params)) s o h
  happen-IsHonest false (asks id params) s o h =
      let options = options_of (prop "options" params) in
      record {
        waiting = h.waiting;
        told = ((options, o, pick_default_permission_outcome-IsAllowed options), h.told);
      }
  happen-IsHonest ask (decides id decision) s o h = resolve_permission-IsHonest id decision s h
  happen-IsHonest ask (cancels id) s o h = resolve_permission-IsHonest id refused s h
  happen-IsHonest ask cancels_all s o h = record {
    waiting = tt;
    told = cancel_each-All s.pending s.answers h.waiting h.told;
  }

  happen_all-IsHonest :
      (ask : Bool) (events : List PermissionEvent) (s : Permissions)
      → All Offers events
      → IsHonest s
      → IsHonest (happen_all ask events s)
  unfolding happen_all
  happen_all-IsHonest ask [] s o h = h
  happen_all-IsHonest ask (e ∷ rest) s o h =
      happen_all-IsHonest ask rest (happen ask e s) o.1 (happen-IsHonest ask e s o.0 h)

-- the options that a request among the events offers
pub record AskedIn (events : List PermissionEvent) (id : String) (options : List PermissionOption)
    : Type 0 where
  pub params : Option Value
  pub request : Memᴰ (asks id params) events
  pub offered : options_of (prop "options" params) ≡ options

offered_later :
    (e : PermissionEvent) (rest events : List PermissionEvent)
    → All (Offers (AskedIn rest)) events
    → All (Offers (AskedIn (e ∷ rest))) events
offered_later e rest [] h = tt
offered_later e rest (asks id params ∷ more) h = (
  record { params = h.0.params; request = Memᴰ.tail h.0.request; offered = h.0.offered },
  offered_later e rest more h.1,
)
offered_later e rest (decides id decision ∷ more) h = (tt, offered_later e rest more h.1)
offered_later e rest (cancels id ∷ more) h = (tt, offered_later e rest more h.1)
offered_later e rest (cancels_all ∷ more) h = (tt, offered_later e rest more h.1)

offered_here : (e : PermissionEvent) (rest : List PermissionEvent) → Offers (AskedIn (e ∷ rest)) e
offered_here (asks id params) rest = record {
  params = params;
  request = Memᴰ.head refl;
  offered = refl;
}
offered_here (decides id decision) rest = tt
offered_here (cancels id) rest = tt
offered_here cancels_all rest = tt

all_offered : (events : List PermissionEvent) → All (Offers (AskedIn events)) events
all_offered [] = tt
all_offered (e ∷ rest) = (offered_here e rest, offered_later e rest rest (all_offered rest))

-- After any requests, decisions and cancellations, every answer is a cancellation or the id, up to
-- the spaces around it, of an option that a request with the id of the answer has offered.
pub happen_all-IsAnswer :
    (ask : Bool) (events : List PermissionEvent)
    → All (IsAnswer (AskedIn events)) (happen_all ask events no_permissions).answers
happen_all-IsAnswer ask events =
    (happen_all-IsHonest (AskedIn events) ask events no_permissions (all_offered events)
      (record { waiting = tt; told = tt })).told
