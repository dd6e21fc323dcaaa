-- ===== src/Acp/Sessions/Settled/Handled.antt =====
-- No event of the tunnels but the beginning of a prompt changes how often a prompt is known.
use tuixiu.Prelude.{
  ℕ, ◌+◌, String, some, Bool, true, false, [], ◌∷◌, ◌++◌, arith, ◌||◌, length, refl, ◌≡◌, inl, inr,
  Bool-cases, Option-cases, if◌then◌else◌, ap, ◌==◌, ◌<|◌, is_empty, trim,
}
use tuixiu.Prelude.{get_elem?}
use tuixiu.Acp.Sessions.{
  Tunnels, prompt_rejected, control_resolved, control_rejected, has_id, on_state, owned_state,
  ensure_open, send_open, begin_control, handle_proxy_disconnected, fail_open, prompt_timeout,
  control_timeout, handle_acp_opened, prompt_outcome, handle_prompt_result,
  handle_session_control_result, state_of, add_id, OpenedPayload, PromptResultPayload,
  ControlResultPayload, open_error, add_state, fits, create_run_state,
}
use tuixiu.Acp.Sessions.Settled.Counted.{
  times, times_waiting, settles_prompt, times_settled, known, times_waiting-modify_at,
  times_waiting-append,
}
use tuixiu.Acp.Sessions.Settled.Changed.{
  resolve_open-known, reject_open-known, settle_prompt-known, settle_control-known,
  disconnect_each-known, owned_state-found,
}

module _ (id : String) where
  fresh_known :
      (proxy_id run_id cwd : String) (s : Tunnels)
      → known id (
          on_state
            (length s.objects)
            (λ o. record o { opening = true })
            (add_state proxy_id run_id cwd s))
        ≡ known id s
  unfolding known times times_waiting
  fresh_known proxy_id run_id cwd s = omega (
    arith,
    times_waiting-modify_at id (length s.objects) (λ o. record o { opening = true })
        (s.objects ++ create_run_state proxy_id run_id cwd ∷ []) (λ o. refl),
    times_waiting-append id s.objects (create_run_state proxy_id run_id cwd ∷ []),
  )

  pub ensure_open-known :
      (proxy_id run_id cwd : String) (s : Tunnels)
      → known id (ensure_open proxy_id run_id cwd s).1 ≡ known id s
  unfolding ensure_open known times
  ensure_open-known proxy_id run_id cwd s = elim (Option-cases (state_of run_id s)) [
    | inl e ↦ rw (e, ensure_open) (fresh_known proxy_id run_id cwd s)
    | inr ((ref, o), e) ↦ elim (Bool-cases (fits proxy_id cwd o)) [
      | inr other ↦ rw (e, other, ensure_open) (fresh_known proxy_id run_id cwd s)
      | inl same ↦ elim (Bool-cases o.opened) [
        | inl done ↦ rw (e, same, done, ensure_open) refl
        | inr shut ↦ elim (Bool-cases o.opening) [
          | inl busy ↦ rw (e, same, shut, busy, ensure_open) refl
          | inr idle ↦
              rw (e, same, shut, idle, ensure_open)
                (ap (λ n. n + times_settled id s.settled)
                  (times_waiting-modify_at id ref (λ o. record o { opening = true }) s.objects
                    (λ o. refl)))
        ]
      ]
    ]
  ]

  pub send_open-known :
      (ref : ℕ) (name : String) (ttl : ℕ) (s : Tunnels)
      → known id (send_open ref name ttl s) ≡ known id s
  unfolding known send_open
  send_open-known ref name ttl s =
      ap (λ n. n + times_settled id s.settled)
        (times_waiting-modify_at id ref
          (λ o. record o {
            instance_name = some name;
            keepalive_ttl_seconds = some ttl;
            has_open_deferred = true;
          })
          s.objects (λ o. refl))

  pub begin_control-known :
      (ref : ℕ) (key : String) (s : Tunnels) → known id (begin_control ref key s) ≡ known id s
  unfolding known begin_control
  begin_control-known ref key s =
      ap (λ n. n + times_settled id s.settled)
        (times_waiting-modify_at id ref (λ o. record o { controls = add_id key o.controls })
          s.objects (λ o. refl))

  pub handle_proxy_disconnected-known :
      (proxy_id : String) (s : Tunnels)
      → known id (handle_proxy_disconnected proxy_id s) ≡ known id s
  unfolding handle_proxy_disconnected
  handle_proxy_disconnected-known proxy_id s = disconnect_each-known id proxy_id s.run_states s

  pub fail_open-known :
      (ref : ℕ) (message : String) (s : Tunnels) → known id (fail_open ref message s) ≡ known id s
  unfolding fail_open
  fail_open-known ref message s = elim (Option-cases (get_elem? s.objects ref)) [
    | inl e ↦ rw (e, fail_open) refl
    | inr (o, e) ↦ elim (Bool-cases o.has_open_deferred) [
      | inl h ↦ rw (e, h, fail_open) (reject_open-known id ref message s)
      | inr h ↦ rw (e, h, fail_open) refl
    ]
  ]

  pub prompt_timeout-known :
      (ref : ℕ) (key message : String) (s : Tunnels)
      → known id (prompt_timeout ref key message s) ≡ known id s
  unfolding prompt_timeout
  prompt_timeout-known ref key message s = elim (Option-cases (get_elem? s.objects ref)) [
    | inl e ↦ rw (e, prompt_timeout) refl
    | inr (o, e) ↦ elim (Bool-cases (has_id key o.prompts)) [
      | inl h ↦
          rw (e, h, prompt_timeout)
            (settle_prompt-known id ref key (prompt_rejected key message) s e h refl)
      | inr h ↦ rw (e, h, prompt_timeout) refl
    ]
  ]

  pub control_timeout-known :
      (ref : ℕ) (key message : String) (s : Tunnels)
      → known id (control_timeout ref key message s) ≡ known id s
  unfolding control_timeout
  control_timeout-known ref key message s = elim (Option-cases (get_elem? s.objects ref)) [
    | inl e ↦ rw (e, control_timeout) refl
    | inr (o, e) ↦ elim (Bool-cases (has_id key o.controls)) [
      | inl h ↦
          rw (e, h, control_timeout)
            (settle_control-known id ref key (control_rejected key message) s refl)
      | inr h ↦ rw (e, h, control_timeout) refl
    ]
  ]

  pub handle_acp_opened-known :
      (proxy_id : String) (payload : OpenedPayload) (s : Tunnels)
      → known id (handle_acp_opened proxy_id payload s) ≡ known id s
  unfolding handle_acp_opened
  handle_acp_opened-known proxy_id payload s =
      elim (Option-cases (owned_state proxy_id (trim payload.run_id) s)) [
        | inl e ↦ rw (e, handle_acp_opened) refl
        | inr ((ref, o), e) ↦ elim (Bool-cases o.has_open_deferred) [
          | inr h ↦ rw (e, h, handle_acp_opened) refl
          | inl h ↦ elim (Bool-cases payload.ok) [
            | inl fine ↦ rw (e, h, fine, handle_acp_opened) (resolve_open-known id ref s)
            | inr bad ↦
                rw (e, h, bad, handle_acp_opened) (reject_open-known id ref (open_error payload) s)
          ]
        ]
      ]

  prompt_outcome-settles :
      (key : String) (payload : PromptResultPayload)
      → settles_prompt id (prompt_outcome key payload) ≡ (if key == id then 1 else 0)
  unfolding prompt_outcome
  prompt_outcome-settles key payload = elim (Bool-cases payload.ok) [
    | inr bad ↦ rw bad refl
    | inl fine ↦
        elim (Bool-cases
          (is_empty (payload.session_id <| "") || is_empty (payload.stop_reason <| ""))) [
            | inl lacks ↦ rw (fine, lacks) refl
            | inr whole ↦ rw (fine, whole) refl
          ]
  ]

  pub handle_prompt_result-known :
      (proxy_id : String) (payload : PromptResultPayload) (s : Tunnels)
      → known id (handle_prompt_result proxy_id payload s) ≡ known id s
  unfolding handle_prompt_result
  handle_prompt_result-known proxy_id payload s =
      let key = trim payload.prompt_id in
      elim (Bool-cases (is_empty key)) [
        | inl blank ↦ rw (blank, handle_prompt_result) refl
        | inr given ↦ elim (Option-cases (owned_state proxy_id (trim payload.run_id) s)) [
          | inl e ↦ rw (given, e, handle_prompt_result) refl
          | inr ((ref, o), e) ↦ elim (Bool-cases (has_id key o.prompts)) [
            | inl h ↦
                rw (given, e, h, handle_prompt_result)
                  (settle_prompt-known id ref key (prompt_outcome key payload) s
                    (owned_state-found proxy_id (trim payload.run_id) s e) h
                    (prompt_outcome-settles key payload))
            | inr h ↦ rw (given, e, h, handle_prompt_result) refl
          ]
        ]
      ]

  pub handle_session_control_result-known :
      (proxy_id : String) (payload : ControlResultPayload) (s : Tunnels)
      → known id (handle_session_control_result proxy_id payload s) ≡ known id s
  unfolding handle_session_control_result
  handle_session_control_result-known proxy_id payload s =
      let key = trim payload.control_id in
      elim (Bool-cases (is_empty key)) [
        | inl blank ↦ rw (blank, handle_session_control_result) refl
        | inr given ↦ elim (Option-cases (owned_state proxy_id (trim payload.run_id) s)) [
          | inl e ↦ rw (given, e, handle_session_control_result) refl
          | inr ((ref, o), e) ↦ elim (Bool-cases (has_id key o.controls)) [
            | inl h ↦
                rw (given, e, h, handle_session_control_result)
                  (settle_control-known id ref key _ s
                    (control_outcome payload.ok key (payload.error <| "control_failed")))
            | inr h ↦ rw (given, e, h, handle_session_control_result) refl
          ]
        ]
      ]
    where
      control_outcome :
          (b : Bool) (key message : String)
          → settles_prompt id (if b then control_resolved key else control_rejected key message) ≡ 0
      control_outcome true key message = refl
      control_outcome false key message = refl
