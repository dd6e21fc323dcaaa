-- ===== src/Acp/Sessions/Settled/Changed.antt =====
-- What a change of one state does to the prompts that are waited for or settled.
use tuixiu.Prelude.{
  ℕ, ◌+◌, String, Option, some, true, List, [], ◌∷◌, arith, refl, ◌≡◌, inl, inr, Bool-cases,
  Option-cases, if◌then◌else◌, ◌∙◌, ap, ◌==◌, is_empty,
}
use tuixiu.Prelude.{get_elem?}
use mathlib.Core.Option.{some_inj}
use tuixiu.Acp.Sessions.{
  RunTunnelState, Tunnels, prompt_rejected, control_rejected, Settlement, has_id, reject_prompts,
  reject_controls, resolve_open, reject_open, settle, reject_state, disconnect_each, gone,
  no_longer_opening, on_state, reject_open_of, without_prompt, without_control, emptied,
  owned_state, state_of, map_get,
}
use tuixiu.Acp.Sessions.Settled.Counted.{
  times, settles_prompt, times_settled, known, times-remove_id, times_waiting-modify_at,
  times_waiting-at, get_elem?-modify_at,
}

module _ (id : String) where
  reject_prompts-times :
      (ids : List String) (settled : List Settlement)
      → times_settled id (reject_prompts ids settled) ≡ times id ids + times_settled id settled
  unfolding times times_settled reject_prompts
  reject_prompts-times [] settled = omega arith
  reject_prompts-times (x ∷ rest) settled =
      omega (arith, reject_prompts-times rest (prompt_rejected x gone ∷ settled))

  reject_controls-times :
      (ids : List String) (settled : List Settlement)
      → times_settled id (reject_controls ids settled) ≡ times_settled id settled
  unfolding times_settled reject_controls
  reject_controls-times [] settled = refl
  reject_controls-times (x ∷ rest) settled =
      omega (arith, reject_controls-times rest (control_rejected x gone ∷ settled))

  pub resolve_open-known : (ref : ℕ) (s : Tunnels) → known id (resolve_open ref s) ≡ known id s
  unfolding known resolve_open times_settled
  resolve_open-known ref s = omega (
    arith,
    times_waiting-modify_at id ref (λ o. record (no_longer_opening o) { opened = true }) s.objects
        (λ o. refl),
  )

  pub reject_open-known :
      (ref : ℕ) (message : String) (s : Tunnels) → known id (reject_open ref message s) ≡ known id s
  unfolding known reject_open times_settled
  reject_open-known ref message s =
      omega (arith, times_waiting-modify_at id ref no_longer_opening s.objects (λ o. refl))

  -- A promise of a prompt that waits is settled, and taken out.
  pub settle_prompt-known :
      (ref : ℕ) (key : String) (outcome : Settlement) (s : Tunnels) {o : RunTunnelState}
      → get_elem? s.objects ref ≡ some o
      → has_id key o.prompts ≡ true
      → settles_prompt id outcome ≡ (if key == id then 1 else 0)
      → known id (settle outcome (on_state ref (without_prompt key) s)) ≡ known id s
  unfolding known times_settled
  settle_prompt-known ref key outcome s {o} found waits one = omega (
    arith,
    one,
    times-remove_id id key o.prompts waits,
    times_waiting-at id ref (without_prompt key) s.objects found,
  )

  pub settle_control-known :
      (ref : ℕ) (key : String) (outcome : Settlement) (s : Tunnels)
      → settles_prompt id outcome ≡ 0
      → known id (settle outcome (on_state ref (without_control key) s)) ≡ known id s
  unfolding known times_settled
  settle_control-known ref key outcome s other =
      omega
        (arith, other, times_waiting-modify_at id ref (without_control key) s.objects (λ o. refl))

  -- Closing the open first leaves the prompts.
  closed_known :
      (ref : ℕ) (o : RunTunnelState) (s : Tunnels)
      → get_elem? s.objects ref ≡ some o
      → (o' : RunTunnelState) × (get_elem? (reject_open_of ref o s).objects ref ≡ some o')
        × (o'.prompts ≡ o.prompts)
        × (known id (reject_open_of ref o s) ≡ known id s)
  unfolding reject_open
  closed_known ref o s found = elim (Bool-cases o.has_open_deferred) [
    | inl h ↦ rw h (
      no_longer_opening o,
      get_elem?-modify_at ref no_longer_opening s.objects found,
      refl,
      reject_open-known ref gone s,
    )
    | inr h ↦ rw h (o, found, refl, refl)
  ]

  reject_state-known :
      (ref : ℕ) (o : RunTunnelState) (s : Tunnels)
      → get_elem? s.objects ref ≡ some o
      → known id (reject_state ref o s) ≡ known id s
  unfolding reject_state known times
  reject_state-known ref o s found =
      let closed = reject_open_of ref o s in
      let (o', there, same, kept) = closed_known ref o s found in
      omega (
        arith,
        kept,
        ap (times id) same,
        times_waiting-at id ref emptied closed.objects there,
        reject_controls-times o.controls (reject_prompts o.prompts closed.settled),
        reject_prompts-times o.prompts closed.settled,
      )

  pub disconnect_each-known :
      (proxy_id : String) (rows : List (String × ℕ)) (s : Tunnels)
      → known id (disconnect_each proxy_id rows s) ≡ known id s
  unfolding disconnect_each known
  disconnect_each-known proxy_id [] s = refl
  disconnect_each-known proxy_id ((run_id, ref) ∷ rest) s =
      elim (Option-cases (get_elem? s.objects ref)) [
        | inl e ↦ rw (e, disconnect_each) (disconnect_each-known proxy_id rest s)
        | inr (o, e) ↦ elim (Bool-cases (o.proxy_id == proxy_id)) [
          | inl owned ↦
              rw (e, owned, disconnect_each)
                (disconnect_each-known proxy_id rest (reject_state ref o s)
                  ∙ reject_state-known ref o s e)
          | inr other ↦ rw (e, other, disconnect_each) (disconnect_each-known proxy_id rest s)
        ]
      ]

-- The state that is found for a proxy is at its place.
pub owned_state-found :
    (proxy_id run_id : String) (s : Tunnels) {ref : ℕ} {o : RunTunnelState}
    → owned_state proxy_id run_id s ≡ some (ref, o)
    → get_elem? s.objects ref ≡ some o
unfolding owned_state state_of
owned_state-found proxy_id run_id s {ref} {o} h = elim (Bool-cases (is_empty run_id)) [
  | inl blank ↦ absurd (cc (rw blank at h))
  | inr given ↦ elim (Option-cases (map_get run_id s.run_states)) [
    | inl e ↦ absurd (cc (rw (given, e, owned_state, state_of) at h))
    | inr (place, e) ↦ elim (Option-cases (get_elem? s.objects place)) [
      | inl e' ↦ absurd (cc (rw (given, e, e', owned_state, state_of) at h))
      | inr (x, e') ↦ elim (Bool-cases (x.proxy_id == proxy_id)) [
        | inr other ↦ absurd (cc (rw (given, e, e', other, owned_state, state_of) at h))
        | inl owned ↦
            let same : ◌≡◌ {A = Option (ℕ × RunTunnelState)} (some (place, x)) (some (ref, o)) =
              rw (given, e, e', owned, owned_state, state_of) at h in
            let at_place : place ≡ ref = ap (λ (q : ℕ × RunTunnelState). q.0) (some_inj.0 same) in
            let object : x ≡ o = ap (λ (q : ℕ × RunTunnelState). q.1) (some_inj.0 same) in
            rw (← at_place, ← object) e'
      ]
    ]
  ]
]
