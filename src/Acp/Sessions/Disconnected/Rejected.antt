-- ===== src/Acp/Sessions/Disconnected/Rejected.antt =====
-- The rejection of one state of a run, and what it leaves.
use tuixiu.Prelude.{
  ℕ, zero, suc, String, Option, some, Bool, true, false, List, [], ◌∷◌, refl, ◌≡◌, ◌≢◌, inl, inr,
  Bool-cases, if◌then◌else◌, ◌∙◌, ap, All,
}
use mathlib.Core.Option
use mathlib.Core.List.{Memᴰ}
use mathlib.Core.Option.{some_inj}
use tuixiu.Prelude.{get_elem?}
use tuixiu.Acp.Sessions.{
  RunTunnelState, Tunnels, prompt_rejected, control_rejected, modify_at, reject_open, reject_state,
  Settlement, reject_prompts, reject_controls, reject_open_of, emptied, gone, no_longer_opening,
}

-- the proxy of the object at a place
abbrev pub proxy_at : ℕ → Tunnels → Option String
proxy_at ref s = Option.map (λ (o : RunTunnelState). o.proxy_id) (get_elem? s.objects ref)

modify_at-proxy :
    (n ref : ℕ) (f : RunTunnelState → RunTunnelState) (os : List RunTunnelState)
    → ((o : RunTunnelState) → (f o).proxy_id ≡ o.proxy_id)
    → Option.map (λ (o : RunTunnelState). o.proxy_id) (get_elem? (modify_at ref f os) n)
      ≡ Option.map (λ (o : RunTunnelState). o.proxy_id) (get_elem? os n)
unfolding modify_at
modify_at-proxy n ref f [] h = refl
modify_at-proxy zero zero f (o ∷ os) h = ap some (h o)
modify_at-proxy (suc n) zero f (o ∷ os) h = refl
modify_at-proxy zero (suc ref) f (o ∷ os) h = refl
modify_at-proxy (suc n) (suc ref) f (o ∷ os) h = modify_at-proxy n ref f os h

modify_at-ne :
    (n ref : ℕ) (f : RunTunnelState → RunTunnelState) (os : List RunTunnelState)
    → ref ≢ n
    → get_elem? (modify_at ref f os) n ≡ get_elem? os n
unfolding modify_at
modify_at-ne n ref f [] h = refl
modify_at-ne zero zero f (o ∷ os) h = absurd (h refl)
modify_at-ne (suc n) zero f (o ∷ os) h = refl
modify_at-ne zero (suc ref) f (o ∷ os) h = refl
modify_at-ne (suc n) (suc ref) f (o ∷ os) h = modify_at-ne n ref f os (λ e. h (ap suc e))

reject_open_of-proxy :
    (n ref : ℕ) (o : RunTunnelState) (s : Tunnels)
    → proxy_at n (reject_open_of ref o s) ≡ proxy_at n s
unfolding reject_open
reject_open_of-proxy n ref o s = elim (Bool-cases o.has_open_deferred) [
  | inl h ↦ rw h (modify_at-proxy n ref no_longer_opening s.objects (λ x. refl))
  | inr h ↦ rw h refl
]

pub reject_state-proxy :
    (n ref : ℕ) (o : RunTunnelState) (s : Tunnels)
    → proxy_at n (reject_state ref o s) ≡ proxy_at n s
unfolding reject_state
reject_state-proxy n ref o s =
    modify_at-proxy n ref emptied (reject_open_of ref o s).objects (λ x. refl)
    ∙ reject_open_of-proxy n ref o s

pub reject_state-ne :
    (n ref : ℕ) (o : RunTunnelState) (s : Tunnels)
    → ref ≢ n
    → get_elem? (reject_state ref o s).objects n ≡ get_elem? s.objects n
unfolding reject_state reject_open
reject_state-ne n ref o s h =
    modify_at-ne n ref emptied (reject_open_of ref o s).objects h
    ∙ elim (Bool-cases o.has_open_deferred) [
      | inl d ↦ rw d (modify_at-ne n ref no_longer_opening s.objects h)
      | inr d ↦ rw d refl
    ]

-- Settlements are only added.
abbrev pub Grows : List Settlement → List Settlement → Type 0
Grows old new = (x : Settlement) → Memᴰ x old → Memᴰ x new

reject_prompts-Grows :
    (ids : List String) (settled : List Settlement) → Grows settled (reject_prompts ids settled)
unfolding reject_prompts
reject_prompts-Grows [] settled x m = m
reject_prompts-Grows (id ∷ rest) settled x m =
    reject_prompts-Grows rest (prompt_rejected id gone ∷ settled) x (Memᴰ.tail m)

reject_controls-Grows :
    (ids : List String) (settled : List Settlement) → Grows settled (reject_controls ids settled)
unfolding reject_controls
reject_controls-Grows [] settled x m = m
reject_controls-Grows (id ∷ rest) settled x m =
    reject_controls-Grows rest (control_rejected id gone ∷ settled) x (Memᴰ.tail m)

-- Every promise of a state is rejected.
pub record IsRejected (o : RunTunnelState) (settled : List Settlement) : Type 0 where
  pub prompts_rejected : All (λ id. Memᴰ (prompt_rejected id gone) settled) o.prompts
  pub controls_rejected : All (λ id. Memᴰ (control_rejected id gone) settled) o.controls

All-Grows :
    (f : String → Settlement) (ids : List String) {old new : List Settlement}
    → Grows old new
    → All (λ id. Memᴰ (f id) old) ids
    → All (λ id. Memᴰ (f id) new) ids
All-Grows f [] g h = tt
All-Grows f (id ∷ rest) g h = (g (f id) h.0, All-Grows f rest g h.1)

pub IsRejected-Grows :
    {o : RunTunnelState} {old new : List Settlement}
    → Grows old new
    → IsRejected o old
    → IsRejected o new
IsRejected-Grows {o} g h = record {
  prompts_rejected = All-Grows (λ id. prompt_rejected id gone) o.prompts g h.prompts_rejected;
  controls_rejected = All-Grows (λ id. control_rejected id gone) o.controls g h.controls_rejected;
}

reject_prompts-All :
    (ids : List String) (settled : List Settlement)
    → All (λ id. Memᴰ (prompt_rejected id gone) (reject_prompts ids settled)) ids
unfolding reject_prompts
reject_prompts-All [] settled = tt
reject_prompts-All (id ∷ rest) settled = (
  reject_prompts-Grows rest (prompt_rejected id gone ∷ settled) (prompt_rejected id gone)
      (Memᴰ.head refl),
  reject_prompts-All rest (prompt_rejected id gone ∷ settled),
)

reject_controls-All :
    (ids : List String) (settled : List Settlement)
    → All (λ id. Memᴰ (control_rejected id gone) (reject_controls ids settled)) ids
unfolding reject_controls
reject_controls-All [] settled = tt
reject_controls-All (id ∷ rest) settled = (
  reject_controls-Grows rest (control_rejected id gone ∷ settled) (control_rejected id gone)
      (Memᴰ.head refl),
  reject_controls-All rest (control_rejected id gone ∷ settled),
)

pub reject_state-Grows :
    (ref : ℕ) (o : RunTunnelState) (s : Tunnels) → Grows s.settled (reject_state ref o s).settled
unfolding reject_state reject_open
reject_state-Grows ref o s x m =
    let closed = reject_open_of ref o s in
    reject_controls-Grows o.controls (reject_prompts o.prompts closed.settled) x
      (reject_prompts-Grows o.prompts closed.settled x (closes o.has_open_deferred))
  where
    closes : (b : Bool) → Memᴰ x (if b then reject_open ref gone s else s).settled
    closes true = Memᴰ.tail m
    closes false = m

pub reject_state-IsRejected :
    (ref : ℕ) (o : RunTunnelState) (s : Tunnels) → IsRejected o (reject_state ref o s).settled
unfolding reject_state
reject_state-IsRejected ref o s =
    let settled = (reject_open_of ref o s).settled in
    record {
      prompts_rejected =
          All-Grows (λ id. prompt_rejected id gone) o.prompts
            (reject_controls-Grows o.controls (reject_prompts o.prompts settled))
            (reject_prompts-All o.prompts settled);
      controls_rejected = reject_controls-All o.controls (reject_prompts o.prompts settled);
    }
