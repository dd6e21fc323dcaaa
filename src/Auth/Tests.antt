-- ===== src/Auth/Tests.antt =====
-- The theorems of the component at concrete data.
use tuixiu.Prelude.{String, none, some}
use tuixiu.Auth.{RefreshSession, SessionInput}

abbrev demo_hash : String → String
demo_hash s = s

abbrev old_session : RefreshSession
old_session = record {
  id = "s0";
  user_id = "u0";
  token_hash = "old";
  expires_at = 3;
  ip = none;
  user_agent = none;
  rotated_from_id = none;
  revoked_at = none;
}

abbrev demo_input : SessionInput
demo_input = record {
  user_id = "u0";
  token = "fresh";
  expires_at = 9;
  ip = none;
  user_agent = none;
  rotated_from_id = some "";
}
