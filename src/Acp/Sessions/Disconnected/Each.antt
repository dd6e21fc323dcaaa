-- ===== src/Acp/Sessions/Disconnected/Each.antt =====
-- The loop over the states that rejects those of a proxy.
use tuixiu.Prelude.{
  ℕ, String, some, List, [], ◌∷◌, refl, ◌≡◌, ◌≢◌, inl, inr, Bool-cases, Option-cases, ◌∙◌, ap, sym,
  ◌==◌, eq_iff, All, ◌⊎◌,
}
use mathlib.Core.List.{Memᴰ}
use mathlib.Core.Option.{some_inj}
use native.Mathlib.Decide.{ℕ_discrete}
use tuixiu.Prelude.{get_elem?}
use tuixiu.Acp.Sessions.{RunTunnelState, Tunnels, disconnect_each, reject_state}
use tuixiu.Acp.Sessions.Disconnected.Rejected.{
  proxy_at, reject_state-proxy, reject_state-ne, Grows, IsRejected, IsRejected-Grows,
  reject_state-Grows, reject_state-IsRejected,
}

module _ (proxy_id : String) where
  abbrev kept_row : String × ℕ → Tunnels → Tunnels
  kept_row row s = record s { run_states = row ∷ s.run_states }

  -- A row is dropped with its state, or kept.
  row_cases :
      (run_id : String) (ref : ℕ) (rest : List (String × ℕ)) (s : Tunnels)
      → ((o : RunTunnelState) × (get_elem? s.objects ref ≡ some o)
          × (o.proxy_id ≡ proxy_id)
          × (disconnect_each proxy_id ((run_id, ref) ∷ rest) s
              ≡ disconnect_each proxy_id rest (reject_state ref o s)))
        ⊎ ((proxy_at ref s ≢ some proxy_id)
            × (disconnect_each proxy_id ((run_id, ref) ∷ rest) s
                ≡ kept_row (run_id, ref) (disconnect_each proxy_id rest s)))
  unfolding disconnect_each
  row_cases run_id ref rest s = elim (Option-cases (get_elem? s.objects ref)) [
    | inl e ↦ inr ((λ h. absurd (cc (rw e at h))), rw (e, disconnect_each) refl)
    | inr (o, e) ↦ elim (Bool-cases (o.proxy_id == proxy_id)) [
      | inl owned ↦
          inl (o, e, (eq_iff o.proxy_id proxy_id).0 owned, rw (e, owned, disconnect_each) refl)
      | inr other ↦ inr (
        (λ h.
            let same : o.proxy_id ≡ proxy_id = some_inj.0 (rw e at h) in
            absurd (cc (sym other ∙ (eq_iff o.proxy_id proxy_id).1 same))),
        rw (e, other, disconnect_each) refl,
      )
    ]
  ]

  pub disconnect_each-proxy :
      (n : ℕ) (rows : List (String × ℕ)) (s : Tunnels)
      → proxy_at n (disconnect_each proxy_id rows s) ≡ proxy_at n s
  unfolding disconnect_each
  disconnect_each-proxy n [] s = refl
  disconnect_each-proxy n ((run_id, ref) ∷ rest) s = elim (row_cases run_id ref rest s) [
    | inl (o, found, owned, e) ↦
        ap (proxy_at n) e
        ∙ disconnect_each-proxy n rest (reject_state ref o s)
        ∙ reject_state-proxy n ref o s
    | inr (other, e) ↦ ap (proxy_at n) e ∙ disconnect_each-proxy n rest s
  ]

  disconnect_each-Grows :
      (rows : List (String × ℕ)) (s : Tunnels)
      → Grows s.settled (disconnect_each proxy_id rows s).settled
  unfolding disconnect_each
  disconnect_each-Grows [] s x m = m
  disconnect_each-Grows ((run_id, ref) ∷ rest) s x m = elim (row_cases run_id ref rest s) [
    | inl (o, found, owned, e) ↦
        rw e (disconnect_each-Grows rest (reject_state ref o s) x (reject_state-Grows ref o s x m))
    | inr (other, e) ↦ rw e (disconnect_each-Grows rest s x m)
  ]

  -- The states of other proxies are as they were.
  pub disconnect_each-others :
      (n : ℕ) (rows : List (String × ℕ)) (s : Tunnels)
      → proxy_at n s ≢ some proxy_id
      → get_elem? (disconnect_each proxy_id rows s).objects n ≡ get_elem? s.objects n
  unfolding disconnect_each
  disconnect_each-others n [] s h = refl
  disconnect_each-others n ((run_id, ref) ∷ rest) s h = elim (row_cases run_id ref rest s) [
    | inl (o, found, owned, e) ↦
        let elsewhere : ref ≢ n = λ same. h (rw (← same, found, owned) refl) in
        let still : proxy_at n (reject_state ref o s) ≢ some proxy_id =
          λ k. h (sym (reject_state-proxy n ref o s) ∙ k) in
        ap (λ (t : Tunnels). get_elem? t.objects n) e
        ∙ disconnect_each-others n rest (reject_state ref o s) still
        ∙ reject_state-ne n ref o s elsewhere
    | inr (other, e) ↦
        ap (λ (t : Tunnels). get_elem? t.objects n) e ∙ disconnect_each-others n rest s h
  ]

  pub disconnect_each-IsRejected :
      (run_id : String) (n : ℕ) (rows : List (String × ℕ)) (s : Tunnels) {o : RunTunnelState}
      → Memᴰ (run_id, n) rows
      → get_elem? s.objects n ≡ some o
      → o.proxy_id ≡ proxy_id
      → IsRejected o (disconnect_each proxy_id rows s).settled
  unfolding disconnect_each
  disconnect_each-IsRejected run_id n [] s m found owned = elim m [ ]
  disconnect_each-IsRejected run_id n ((key, ref) ∷ rest) s {o} m found owned =
      elim (row_cases key ref rest s) [
        | inl (x, found', owned', e) ↦ elim (ℕ_discrete ref n) [
          | yes here ↦
              let same : x ≡ o = some_inj.0 (sym found' ∙ rw here found) in
              rw (e, ← same)
                (IsRejected-Grows (disconnect_each-Grows rest (reject_state ref x s))
                  (reject_state-IsRejected ref x s))
          | no there ↦ rw e (
              disconnect_each-IsRejected run_id n rest (reject_state ref x s) {o = o}
                (later m (λ q. there (sym q))) (reject_state-ne n ref x s there ∙ found) owned)
        ]
        | inr (other, e) ↦
            let there : n ≢ ref = λ q. other (rw (← q, found, owned) refl) in
            rw e (disconnect_each-IsRejected run_id n rest s {o = o} (later m there) found owned)
      ]
    where
      later : Memᴰ (run_id, n) ((key, ref) ∷ rest) → n ≢ ref → Memᴰ (run_id, n) rest
      later (Memᴰ.head q) h = absurd (h (ap (λ (r : String × ℕ). r.1) q))
      later (Memᴰ.tail k) h = k

  -- The rows that are left are of states of other proxies.
  pub disconnect_each-rows :
      (start : Tunnels) (rows : List (String × ℕ)) (s : Tunnels)
      → ((n : ℕ) → proxy_at n s ≡ proxy_at n start)
      → All
          (λ (row : String × ℕ). proxy_at row.1 start ≢ some proxy_id)
          (disconnect_each proxy_id rows s).run_states
  unfolding disconnect_each
  disconnect_each-rows start [] s same = tt
  disconnect_each-rows start ((run_id, ref) ∷ rest) s same = elim (row_cases run_id ref rest s) [
    | inl (o, found, owned, e) ↦ rw e (
        disconnect_each-rows start rest (reject_state ref o s)
          (λ n. reject_state-proxy n ref o s ∙ same n))
    | inr (other, e) ↦ rw e ((λ h. other (same ref ∙ h)), disconnect_each-rows start rest s same)
  ]

  -- Such rows are all left.
  pub disconnect_each-stays :
      (run_id : String) (n : ℕ) (rows : List (String × ℕ)) (s : Tunnels)
      → Memᴰ (run_id, n) rows
      → proxy_at n s ≢ some proxy_id
      → Memᴰ (run_id, n) (disconnect_each proxy_id rows s).run_states
  unfolding disconnect_each
  disconnect_each-stays run_id n [] s m h = elim m [ ]
  disconnect_each-stays run_id n ((key, ref) ∷ rest) s m h = elim (row_cases key ref rest s) [
    | inl (o, found, owned, e) ↦ rw e (
        disconnect_each-stays run_id n rest (reject_state ref o s)
          (later m (λ q. h (rw (q, found, owned) refl)))
          (λ k. h (sym (reject_state-proxy n ref o s) ∙ k)))
    | inr (other, e) ↦ rw e (either (λ k. disconnect_each-stays run_id n rest s k h) m)
  ]
    where
      later : Memᴰ (run_id, n) ((key, ref) ∷ rest) → n ≢ ref → Memᴰ (run_id, n) rest
      later (Memᴰ.head q) k = absurd (k (ap (λ (r : String × ℕ). r.1) q))
      later (Memᴰ.tail k) k' = k

      either :
          (Memᴰ (run_id, n) rest → Memᴰ (run_id, n) (disconnect_each proxy_id rest s).run_states)
          → Memᴰ (run_id, n) ((key, ref) ∷ rest)
          → Memᴰ (run_id, n) ((key, ref) ∷ (disconnect_each proxy_id rest s).run_states)
      either go (Memᴰ.head q) = Memᴰ.head q
      either go (Memᴰ.tail k) = Memᴰ.tail (go k)
