-- ===== src/Acp/Sessions/Disconnected.antt =====
-- What is left of the tunnels when a proxy is gone.
pub mod Each
pub mod Rejected
use tuixiu.Prelude.{
  ℕ, zero, suc, String, Option, none, some, Bool, true, false, List, [], ◌∷◌, refl, ◌≡◌, ◌≢◌, inl,
  inr, Bool-cases, Option-cases, if◌then◌else◌, ◌∙◌, ap, sym, ◌==◌, eq_iff, All, ◌⊎◌, is_empty,
}
use mathlib.Core.Option
use mathlib.Core.List.{Memᴰ}
use mathlib.Core.Option.{some_inj}
use native.Mathlib.Decide.{ℕ_discrete}
use tuixiu.Prelude.{get_elem?}
use tuixiu.Acp.Sessions.{
  RunTunnelState, Tunnels, prompt_rejected, control_rejected, disconnect_each, modify_at,
  reject_open, reject_state, Settlement, reject_prompts, reject_controls, reject_open_of, emptied,
  gone, no_longer_opening, map_get, owned_state, handle_proxy_disconnected, state_of,
}
use tuixiu.Acp.Sessions.Disconnected.Rejected.{proxy_at, IsRejected}
use tuixiu.Acp.Sessions.Disconnected.Each.{
  disconnect_each-proxy, disconnect_each-others, disconnect_each-IsRejected, disconnect_each-rows,
  disconnect_each-stays,
}

map_get-mem :
    (key : String) (rows : List (String × ℕ)) {n : ℕ}
    → map_get key rows ≡ some n
    → Memᴰ (key, n) rows
unfolding map_get
map_get-mem key [] h = absurd (cc)
map_get-mem key ((k, m) ∷ rest) {n} h = elim (Bool-cases (k == key)) [
  | inl here ↦
      let same : m ≡ n = some_inj.0 (rw here at h) in
      Memᴰ.head (rw ((eq_iff k key).0 here, same) refl)
  | inr there ↦ Memᴰ.tail (map_get-mem key rest {n = n} (rw there at h))
]

All-mem : {A : Type 0} (P : A → Type 0) (xs : List A) {x : A} → All P xs → Memᴰ x xs → P x
All-mem P [] h m = elim m [ ]
All-mem P (y ∷ ys) h (Memᴰ.head e) = rw e h.0
All-mem P (y ∷ ys) h (Memᴰ.tail m) = All-mem P ys h.1 m

-- After the disconnection: no run has a state of the proxy; every promise of its states is rejected;
-- the states of other proxies are as they were, and still those of their runs.
pub record IsDisconnected (proxy_id : String) (s after : Tunnels) : Type 0 where
  pub no_state : (run_id : String) → owned_state proxy_id run_id after ≡ none
  pub rejected :
      (run_id : String) (ref : ℕ) (o : RunTunnelState)
      → Memᴰ (run_id, ref) s.run_states
      → get_elem? s.objects ref ≡ some o
      → o.proxy_id ≡ proxy_id
      → IsRejected o after.settled
  pub others_kept :
      (ref : ℕ)
      → proxy_at ref s ≢ some proxy_id
      → get_elem? after.objects ref ≡ get_elem? s.objects ref
  pub others_stay :
      (run_id : String) (ref : ℕ)
      → Memᴰ (run_id, ref) s.run_states
      → proxy_at ref s ≢ some proxy_id
      → Memᴰ (run_id, ref) after.run_states

no_owned_state :
    (proxy_id run_id : String) (s : Tunnels)
    → All (λ (row : String × ℕ). proxy_at row.1 s ≢ some proxy_id) s.run_states
    → owned_state proxy_id run_id s ≡ none
unfolding owned_state state_of
no_owned_state proxy_id run_id s h = elim (Bool-cases (is_empty run_id)) [
  | inl blank ↦ rw blank refl
  | inr given ↦ elim (Option-cases (map_get run_id s.run_states)) [
    | inl e ↦ rw (given, e, owned_state, state_of) refl
    | inr (ref, e) ↦ elim (Option-cases (get_elem? s.objects ref)) [
      | inl e' ↦ rw (given, e, e', owned_state, state_of) refl
      | inr (o, e') ↦ elim (Bool-cases (o.proxy_id == proxy_id)) [
        | inr other ↦ rw (given, e, e', other, owned_state, state_of) refl
        | inl owned ↦
            let here =
              All-mem (λ (row : String × ℕ). proxy_at row.1 s ≢ some proxy_id) s.run_states h
                (map_get-mem run_id s.run_states e) in
            absurd (here (rw (e', (eq_iff o.proxy_id proxy_id).0 owned) refl))
      ]
    ]
  ]
]

-- After a proxy has been disconnected no run has a state of the proxy, every prompt and every call
-- of control that waited on the state of a run of the proxy has been rejected as disconnected, and
-- the states of other proxies are as they were and still those of their runs.
pub handle_proxy_disconnected-IsDisconnected :
    (proxy_id : String) (s : Tunnels)
    → IsDisconnected proxy_id s (handle_proxy_disconnected proxy_id s)
unfolding handle_proxy_disconnected
handle_proxy_disconnected-IsDisconnected proxy_id s =
    let after = disconnect_each proxy_id s.run_states s in
    record {
      no_state = λ run_id. no_owned_state proxy_id run_id after (
          disconnect_each-rows proxy_id after s.run_states s
            (λ n. sym (disconnect_each-proxy proxy_id n s.run_states s)));
      rejected = λ run_id ref o m found owned.
          disconnect_each-IsRejected proxy_id run_id ref s.run_states s m found owned;
      others_kept = λ ref h. disconnect_each-others proxy_id ref s.run_states s h;
      others_stay = λ run_id ref m h. disconnect_each-stays proxy_id run_id ref s.run_states s m h;
    }
