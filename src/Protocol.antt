-- ===== src/Protocol.antt =====
-- internal/protocol/messages.go: the messages between client and server, after json.Unmarshal.
use wakehub.Base.{String, Bool, ◌||◌, List, ◌==◌}
use wakehub.Config.{NicInfo}

pub record Hello : Type 0 where
  pub type : String
  pub key : String
  pub token : String
  pub hostname : String
  pub nics : List NicInfo
  pub version : String
  pub os : String
  pub arch : String

-- What the server writes to a client.
pub data Reply : Type 0 where
  hello_ok : Reply
  pong : Reply
  -- code and message
  error : String → String → Reply
  -- the types "shutdown" and "restart", and the id of the request
  control : String → String → Reply

unfoldable pub is_auth_failure : String → Bool
is_auth_failure code = code == "token_mismatch" || code == "invalid_hello" || code == "auth_failed"
