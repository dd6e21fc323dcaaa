-- ===== src/Auth.antt =====
-- backend/src/modules/auth/refreshSessions.ts: the sessions of refresh tokens, kept by the hash of
-- the token. Generated ids and the time are arguments.
pub mod Laws
mod Tests
use tuixiu.Prelude.{
  ℕ, String, Option, none, some, List, [], ◌∷◌, ◌++◌, ◌==◌, is_empty, find, modify, is_some,
  if◌then◌else◌,
}

pub record RefreshSession : Type 0 where
  pub id : String
  pub user_id : String
  pub token_hash : String
  pub expires_at : ℕ
  pub ip : Option String
  pub user_agent : Option String
  pub rotated_from_id : Option String
  pub revoked_at : Option ℕ

pub record SessionInput : Type 0 where
  pub user_id : String
  pub token : String
  pub expires_at : ℕ
  pub ip : Option String
  pub user_agent : Option String
  pub rotated_from_id : Option String

pub data SessionError : Type 0 where
  taken missing : SessionError

pub data SessionResult : Type 0 where
  session : RefreshSession → SessionResult
  rejected : SessionError → SessionResult

abbrev Sessions : Type 0
Sessions = List RefreshSession

abbrev present : Option String → Option String
present none = none
present (some s) = if is_empty s then none else some s

abbrev pub revoked : ℕ → RefreshSession → RefreshSession
revoked now s = record s { revoked_at = some now }

-- `crypto.createHash("sha256")`
module _ (hash_refresh_token : String → String) where
  unfoldable pub new_session : String → SessionInput → RefreshSession
  new_session id input = record {
    id = id;
    user_id = input.user_id;
    token_hash = hash_refresh_token input.token;
    expires_at = input.expires_at;
    ip = input.ip;
    user_agent = input.user_agent;
    rotated_from_id = present input.rotated_from_id;
    revoked_at = none;
  }

  -- hashes are unique in the table
  unfoldable pub create_refresh_session :
      String → SessionInput → Sessions → SessionResult × Sessions
  create_refresh_session id input sessions =
      let created = new_session id input in
      elim (find (λ s. s.token_hash == created.token_hash) sessions) [
        | some s ↦ (rejected taken, sessions)
        | none ↦ (session created, sessions ++ created ∷ [])
      ]

  unfoldable pub find_session_by_token : String → Sessions → Option RefreshSession
  find_session_by_token token sessions =
      find (λ s. s.token_hash == hash_refresh_token token) sessions

unfoldable pub revoke_session : ℕ → String → Sessions → SessionResult × Sessions
revoke_session now id sessions = elim (find (λ s. s.id == id) sessions) [
  | none ↦ (rejected missing, sessions)
  | some s ↦ (session (revoked now s), modify (λ s. s.id == id) (revoked now) sessions)
]

unfoldable pub revoke_all_for_user : ℕ → String → Sessions → Sessions
revoke_all_for_user now user_id sessions = modify (λ s. s.user_id == user_id) (revoked now) sessions
