-- ===== src/Proxy/Facade/Permissions/Counted.antt =====
-- Every request is waiting or has been answered, once.
use tuixiu.Json.{Value, prop}
use tuixiu.Prelude.{
  ℕ, ◌+◌, String, Option, some, Bool, true, false, List, [], ◌∷◌, ◌++◌, arith, refl, ◌≡◌, inl, inr,
  Bool-cases, Option-cases, if◌then◌else◌, ◌==◌, eq_iff, is_some,
}
use tuixiu.Proxy.Facade.Permissions.{
  cancels_all, PermissionOption, PermissionEvent, lookup_pending, cancel_each, Permissions,
  wait_for_permission, request_permission, resolve_permission, cancel_all_permissions, happen,
  happen_all, asks, delete_pending, Pending, PermissionDecision, cancel_permission_request,
  no_permissions, decides, PermissionOutcome, options_of, cancels, cancelled, refused,
}

-- How many times an id stands in a list of rows.
unfoldable pub times : {A : Type 0} → String → List (String × A) → ℕ
times id [] = 0
times id ((key, a) ∷ rest) = (if key == id then 1 else 0) + times id rest

unfoldable pub times_asked : String → List PermissionEvent → ℕ
times_asked id [] = 0
times_asked id (asks key params ∷ rest) = (if key == id then 1 else 0) + times_asked id rest
times_asked id (decides key decision ∷ rest) = times_asked id rest
times_asked id (cancels key ∷ rest) = times_asked id rest
times_asked id (cancels_all ∷ rest) = times_asked id rest

times_asked-cons :
    (id : String) (e : PermissionEvent) (rest : List PermissionEvent)
    → times_asked id (e ∷ rest) ≡ times_asked id (e ∷ []) + times_asked id rest
unfolding times_asked
times_asked-cons id (asks key params) rest = omega arith
times_asked-cons id (decides key decision) rest = omega arith
times_asked-cons id (cancels key) rest = omega arith
times_asked-cons id cancels_all rest = omega arith

times-append :
    {A : Type 0} (id : String) (xs ys : List (String × A))
    → times id (xs ++ ys) ≡ times id xs + times id ys
unfolding times
times-append id [] ys = omega arith
times-append id ((key, a) ∷ xs) ys = omega (arith, times-append id xs ys)

-- A request that is found stands once more in the table than after its deletion.
times-delete_pending :
    (id key : String) (p : Pending) {options : List PermissionOption}
    → lookup_pending key p ≡ some options
    → times id p ≡ (if key == id then 1 else 0) + times id (delete_pending key p)
unfolding times lookup_pending delete_pending
times-delete_pending id key [] h = absurd (cc)
times-delete_pending id key ((other, o) ∷ p) {options} h = elim (Bool-cases (other == key)) [
  | inl here ↦ rw (here, (eq_iff other key).0 here) refl
  | inr there ↦
      rw (there) (omega (arith, times-delete_pending id key p {options = options} (rw there at h)))
]

times-cancel_each :
    (id : String) (p : Pending) (answers : List (String × PermissionOutcome))
    → times id (cancel_each p answers) ≡ times id p + times id answers
unfolding times cancel_each
times-cancel_each id [] answers = omega arith
times-cancel_each id ((key, o) ∷ p) answers =
    omega (arith, times-cancel_each id p ((key, cancelled) ∷ answers))

-- how often a request is pending or answered
abbrev pub times_known : String → Permissions → ℕ
times_known id s = times id s.pending + times id s.answers

times-wait_for_permission :
    (id key : String) (options : List PermissionOption) (s : Permissions)
    → times_known id (wait_for_permission key options s)
      ≡ (if key == id then 1 else 0) + times_known id s
unfolding times wait_for_permission
times-wait_for_permission id key [] s = omega arith
times-wait_for_permission id key (first ∷ rest) s =
    elim (Bool-cases (is_some (lookup_pending key s.pending))) [
      | inl again ↦ rw again (omega arith)
      | inr fresh ↦ rw fresh (omega (arith, times-append id s.pending ((key, first ∷ rest) ∷ [])))
    ]

times-request_permission :
    (id key : String) (ask : Bool) (params : Option Value) (s : Permissions)
    → times_known id (request_permission ask key params s)
      ≡ (if key == id then 1 else 0) + times_known id s
unfolding times request_permission
times-request_permission id key true params s =
    times-wait_for_permission id key (options_of (prop "options" params)) s
times-request_permission id key false params s = omega arith

times-resolve_permission :
    (id key : String) (decision : PermissionDecision) (s : Permissions)
    → times_known id (resolve_permission key decision s).1 ≡ times_known id s
unfolding times resolve_permission
times-resolve_permission id key decision s = elim (Option-cases (lookup_pending key s.pending)) [
  | inl e ↦ rw (e, resolve_permission) refl
  | inr (options, e) ↦
      rw (e, resolve_permission) (omega (arith, times-delete_pending id key s.pending e))
]

times-cancel_all_permissions :
    (id : String) (s : Permissions) → times_known id (cancel_all_permissions s) ≡ times_known id s
unfolding times cancel_all_permissions
times-cancel_all_permissions id s = omega (arith, times-cancel_each id s.pending s.answers)

times_known-happen :
    (id : String) (ask : Bool) (e : PermissionEvent) (s : Permissions)
    → times_known id (happen ask e s) ≡ times_asked id (e ∷ []) + times_known id s
unfolding happen times_asked cancel_permission_request
times_known-happen id ask (asks key params) s =
    omega (arith, times-request_permission id key ask params s)
times_known-happen id ask (decides key decision) s =
    omega (arith, times-resolve_permission id key decision s)
times_known-happen id ask (cancels key) s = omega (arith, times-resolve_permission id key refused s)
times_known-happen id ask cancels_all s = omega (arith, times-cancel_all_permissions id s)

times_known-happen_all :
    (id : String) (ask : Bool) (events : List PermissionEvent) (s : Permissions)
    → times_known id (happen_all ask events s) ≡ times_asked id events + times_known id s
unfolding happen_all times_asked
times_known-happen_all id ask [] s = omega arith
times_known-happen_all id ask (e ∷ rest) s = omega (
  arith,
  times_asked-cons id e rest,
  times_known-happen id ask e s,
  times_known-happen_all id ask rest (happen ask e s),
)

-- After any requests, decisions and cancellations, an id is as often pending or answered as it has
-- been asked.
pub happen_all-times_asked :
    (ask : Bool) (events : List PermissionEvent) (id : String)
    → times id (happen_all ask events no_permissions).pending
        + times id (happen_all ask events no_permissions).answers
      ≡ times_asked id events
unfolding times
happen_all-times_asked ask events id =
    omega (arith, times_known-happen_all id ask events no_permissions)
