-- ===== src/Agent/Startup.antt =====
-- `_run` of main.py up to the event loop: the settings, and `Agent.__init__`. What pydantic reads from
-- the environment is a parameter.
pub mod Slots
pub mod Shutdown
use turbocat.Prelude.{ℕ, zero, suc, String, ◌≡◌, Result, ok, err, Exc, value_error, ◌>>=◌}
use turbocat.Python.Value.{ℤ, pos, negsuc}
use turbocat.Agent.Client.{OrchestratorClient}
use turbocat.Agent.Loop.{State, init}

-- The fields that the agent uses.
pub record AgentSettings : Type 0 where
  pub id : ℕ
  pub api_key : String
  pub max_workers : ℤ

abbrev refused : String → Exc
refused what = record { kind = value_error; text = what }

-- asyncio.Semaphore(value)
unfoldable pub semaphore : ℤ → Result ℕ
semaphore (pos n) = ok n
semaphore (negsuc n) = err (refused "Semaphore initial value must be >= 0")

-- ThreadPoolExecutor(max_workers=…)
unfoldable pub thread_pool : ℤ → Result ℕ
thread_pool (pos zero) = err (refused "max_workers must be greater than 0")
thread_pool (pos (suc n)) = ok (suc n)
thread_pool (negsuc n) = err (refused "max_workers must be greater than 0")

-- `settings.max_workers` as a count: the test `available > 0` fails for a negative one as it does for 0.
abbrev pub count_of_workers : ℤ → ℕ
count_of_workers (pos n) = n
count_of_workers (negsuc n) = 0

-- The semaphore is part of the state.
pub record Agent : Type 0 where
  pub client : OrchestratorClient
  pub max_workers : ℕ
  pub threads : ℕ
  pub state : State

unfoldable pub make_agent : AgentSettings → Result Agent
unfolding semaphore thread_pool
make_agent settings = do
  permits ← semaphore settings.max_workers
  threads ← thread_pool settings.max_workers
  ok (record {
    client = record { agent_id = settings.id; api_key = settings.api_key };
    max_workers = count_of_workers settings.max_workers;
    threads = threads;
    state = init permits;
  })

-- AgentSettings(), ClickHouseConfig() and Agent(…)
unfoldable pub run {ℓ} : {Config : Type ℓ} → Result AgentSettings → Result Config → Result Agent
unfolding make_agent
run settings ch_config = do s ← settings; c ← ch_config; make_agent s
