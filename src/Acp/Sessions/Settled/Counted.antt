-- ===== src/Acp/Sessions/Settled/Counted.antt =====
-- How often a prompt is waited for, is settled and begins.
use tuixiu.Prelude.{
  ℕ, zero, suc, ◌+◌, ◌≤◌, ◌<◌, String, some, true, false, List, [], ◌∷◌, ◌++◌, arith, refl, ◌≡◌,
  inl, inr, Bool-cases, if◌then◌else◌, ◌==◌, eq_iff,
}
use tuixiu.Prelude.{get_elem?}
use tuixiu.Acp.Sessions.{
  RunTunnelState, Tunnels, prompt_rejected, prompt_resolved, Settlement, TunnelEvent, has_id,
  modify_at, remove_id,
}
use tuixiu.Acp.Sessions.{begins_prompt}

-- how often an id stands among ids
unfoldable pub times : String → List String → ℕ
times id [] = 0
times id (x ∷ rest) = (if x == id then 1 else 0) + times id rest

-- how often the state objects wait for a prompt
unfoldable pub times_waiting : String → List RunTunnelState → ℕ
unfolding times
times_waiting id [] = 0
times_waiting id (o ∷ rest) = times id o.prompts + times_waiting id rest

abbrev pub settles_prompt : String → Settlement → ℕ
settles_prompt id (prompt_resolved key session_id stop_reason) = if key == id then 1 else 0
settles_prompt id (prompt_rejected key message) = if key == id then 1 else 0
settles_prompt id _ = 0

unfoldable pub times_settled : String → List Settlement → ℕ
times_settled id [] = 0
times_settled id (x ∷ rest) = settles_prompt id x + times_settled id rest

abbrev pub begins : String → TunnelEvent → ℕ
begins id (begins_prompt ref key) = if key == id then 1 else 0
begins id _ = 0

unfoldable pub times_begun : String → List TunnelEvent → ℕ
times_begun id [] = 0
times_begun id (e ∷ rest) = begins id e + times_begun id rest

-- The prompts that begin, begin on a state that is there.
unfoldable pub known : String → Tunnels → ℕ
unfolding times_waiting times_settled
known id s = times_waiting id s.objects + times_settled id s.settled

has_id-times : (id : String) (ids : List String) → has_id id ids ≡ true → 0 < times id ids
unfolding has_id times
has_id-times id [] h = absurd (cc)
has_id-times id (x ∷ rest) h = elim (Bool-cases (x == id)) [
  | inl here ↦ rw here (omega arith)
  | inr there ↦ rw there (omega (arith, has_id-times id rest (rw there at h)))
]

pub times-append :
    (id : String) (xs ys : List String) → times id (xs ++ ys) ≡ times id xs + times id ys
unfolding times
times-append id [] ys = omega arith
times-append id (x ∷ xs) ys = omega (arith, times-append id xs ys)

-- An id that is there is taken out once, and the others stay.
pub times-remove_id :
    (id key : String) (ids : List String)
    → has_id key ids ≡ true
    → times id ids ≡ (if key == id then 1 else 0) + times id (remove_id key ids)
unfolding has_id times remove_id
times-remove_id id key [] h = absurd (cc)
times-remove_id id key (x ∷ rest) h = elim (Bool-cases (x == key)) [
  | inl here ↦ rw (here, (eq_iff x key).0 here) refl
  | inr there ↦ rw there (omega (arith, times-remove_id id key rest (rw there at h)))
]

-- A change of an object that keeps its prompts.
pub times_waiting-modify_at :
    (id : String) (ref : ℕ) (f : RunTunnelState → RunTunnelState) (os : List RunTunnelState)
    → ((o : RunTunnelState) → (f o).prompts ≡ o.prompts)
    → times_waiting id (modify_at ref f os) ≡ times_waiting id os
unfolding times_waiting modify_at
times_waiting-modify_at id ref f [] h = refl
times_waiting-modify_at id zero f (o ∷ os) h = rw (h o) refl
times_waiting-modify_at id (suc ref) f (o ∷ os) h =
    omega (arith, times_waiting-modify_at id ref f os h)

-- A change of the object at a place, by what it does to the count.
pub times_waiting-at :
    (id : String) (ref : ℕ) (f : RunTunnelState → RunTunnelState) (os : List RunTunnelState)
    {o : RunTunnelState}
    → get_elem? os ref ≡ some o
    → times_waiting id (modify_at ref f os) + times id o.prompts
      ≡ times_waiting id os + times id (f o).prompts
unfolding times_waiting modify_at
times_waiting-at id ref f [] h = absurd (cc)
times_waiting-at id zero f (x ∷ os) {o} h = let same : x ≡ o = ground arith in rw same (omega arith)
times_waiting-at id (suc ref) f (x ∷ os) {o} h =
    omega (arith, times_waiting-at id ref f os {o = o} h)

pub times_waiting-append :
    (id : String) (os ps : List RunTunnelState)
    → times_waiting id (os ++ ps) ≡ times_waiting id os + times_waiting id ps
unfolding times_waiting
times_waiting-append id [] ps = omega arith
times_waiting-append id (o ∷ os) ps = omega (arith, times_waiting-append id os ps)

pub get_elem?-modify_at :
    (ref : ℕ) (f : RunTunnelState → RunTunnelState) (os : List RunTunnelState) {o : RunTunnelState}
    → get_elem? os ref ≡ some o
    → get_elem? (modify_at ref f os) ref ≡ some (f o)
unfolding modify_at
get_elem?-modify_at ref f [] h = absurd (cc)
get_elem?-modify_at zero f (x ∷ os) h = ground arith
get_elem?-modify_at (suc ref) f (x ∷ os) {o} h = get_elem?-modify_at ref f os {o = o} h

pub has_id-none : (id : String) (ids : List String) → times id ids ≡ 0 → has_id id ids ≡ false
has_id-none id ids h = elim (Bool-cases (has_id id ids)) [
  | inl e ↦ absurd (omega (arith, has_id-times id ids e))
  | inr e ↦ e
]

-- An object waits for a prompt at most as often as all of them.
pub times_waiting-le :
    (id : String) (ref : ℕ) (os : List RunTunnelState) {o : RunTunnelState}
    → get_elem? os ref ≡ some o
    → times id o.prompts ≤ times_waiting id os
unfolding times_waiting
times_waiting-le id ref [] h = absurd (cc)
times_waiting-le id zero (x ∷ os) {o} h = let same : x ≡ o = ground arith in rw same (omega arith)
times_waiting-le id (suc ref) (x ∷ os) {o} h = omega (arith, times_waiting-le id ref os {o = o} h)
