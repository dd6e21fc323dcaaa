-- ===== src/Auth/Laws.antt =====
-- Finding a session after it is created, and after the sessions of a user are revoked.
use tuixiu.Prelude.{
  ℕ, String, none, some, List, ◌≡◌, refl, ◌==◌, eq_refl, find, modify, find-append_none,
  if◌then◌else◌, find-modify_any,
}
use mathlib.Core.Option
use tuixiu.Auth.{
  RefreshSession, SessionInput, revoked, new_session, create_refresh_session, find_session_by_token,
  revoke_all_for_user,
}

module _ (hash : String → String) where
  -- A refresh session that is created for a token that no session has is what is found by the token.
  pub create_refresh_session-find_session_by_token :
      (id : String) (input : SessionInput) (sessions : List RefreshSession)
      → find_session_by_token hash input.token sessions ≡ none
      → find_session_by_token hash input.token (create_refresh_session hash id input sessions).1
        ≡ some (new_session hash id input)
  unfolding create_refresh_session find_session_by_token new_session
  create_refresh_session-find_session_by_token id input sessions new =
      rw (new, create_refresh_session)
        (find-append_none (λ (s : RefreshSession). s.token_hash == hash input.token) sessions
          (new_session hash id input) new (eq_refl (hash input.token)))

  -- After the sessions of a user are revoked, a token finds the session that it found before,
  -- revoked if it is the user's and as it was otherwise.
  pub revoke_all_for_user-find_session_by_token :
      (now : ℕ) (user_id token : String) (sessions : List RefreshSession)
      → find_session_by_token hash token (revoke_all_for_user now user_id sessions)
        ≡ Option.map
            (λ s. if s.user_id == user_id then revoked now s else s)
            (find_session_by_token hash token sessions)
  unfolding find_session_by_token revoke_all_for_user find modify
  revoke_all_for_user-find_session_by_token now user_id token sessions =
      find-modify_any (λ s. s.token_hash) (hash token) (λ s. s.user_id == user_id) (revoked now)
        sessions (λ s. refl)
