-- ===== src/Orchestrator/Auth.antt =====
-- auth.py and routes/agents.py. The JWT library and pydantic are parameters.
pub mod Guards
use turbocat.Prelude.{
  ℕ, String, Bool, true, false, ◌≡◌, Option, none, some, List, Result, ok, err, Exc, http_exception,
  handle, str_eq, if◌then◌else◌, ◌>>=◌,
}
use turbocat.Prelude.Exec.{Exec}
use turbocat.Python.Dict.{Dict}
use turbocat.Python.Value.{Value}
use turbocat.Orchestrator.Table.{find, replace}
use turbocat.Orchestrator.Models.{Agent, Db}
use turbocat.Orchestrator.Jobs.Status.{not_found, status_ok}

pub record TokenPayload : Type 0 where
  pub sub : String
  pub account_id : ℕ

abbrev pub unauthorized : String → Exc
unauthorized text = record { kind = http_exception 401; text = text }

-- `decode` is `jwt.decode` with the settings' secret and algorithm, `model_validate` pydantic's, and
-- `is_refusal` says which exceptions are InvalidTokenError or ValidationError.
module _ (decode : String → Result (Dict Value)) (model_validate : Dict Value → Result TokenPayload)
    (is_refusal : Exc → Bool) where
  unfoldable pub verify_token : Option String → Result TokenPayload
  verify_token none = err (unauthorized "Authorization header missing")
  verify_token (some credentials) =
      handle (do raw ← decode credentials; model_validate raw)
        (λ e. if is_refusal e then err (unauthorized "Invalid or expired token") else err e)
        (λ token. ok token)

  unfoldable pub get_account_id : Option String → Result ℕ
  unfolding verify_token
  get_account_id credentials = do token ← verify_token credentials; ok token.account_id

unfoldable pub verify_agent_key : String → Option String → Result (Unit {0})
verify_agent_key agent_api_key none = err (unauthorized "Invalid or missing agent key")
verify_agent_key agent_api_key (some key) =
    if str_eq key agent_api_key then ok tt else err (unauthorized "Invalid or missing agent key")

abbrev pub agent_key : Agent → ℕ
agent_key a = a.agent_id

unfoldable pub heartbeat : ℕ → ℕ → Exec Db (Dict String)
heartbeat now agent_id db = elim (find agent_key agent_id db.agents) [
  | none ↦ (err (not_found "Agent not found"), db)
  | some agent ↦ (
    ok status_ok,
    record db { agents = replace agent_key (record agent { last_seen_at = some now }) db.agents },
  )
]
