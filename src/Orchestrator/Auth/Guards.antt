-- ===== src/Orchestrator/Auth/Guards.antt =====
-- Who is let in, and what a heartbeat writes.
use turbocat.Prelude.{
  ℕ, String, ◌≡◌, ◌↔◌, ap, ◌∙◌, Option, none, some, ok, arith, eq_iff, ◌==◌, ==_iff, if◌then◌else◌,
  Option-cases, inl, inr,
}
use turbocat.Orchestrator.Table.{find, find-key, find-replace}
use turbocat.Orchestrator.Models.{Db}
use turbocat.Orchestrator.Auth.{verify_agent_key, agent_key, heartbeat}

-- A caller passes as an agent exactly with the configured key.
pub verify_agent_key_iff :
    (agent_api_key : String) (key : Option String)
    → (verify_agent_key agent_api_key key ≡ ok tt) ↔ (key ≡ some agent_api_key)
unfolding verify_agent_key
verify_agent_key_iff agent_api_key none = (λ h. ground arith, λ h. ground arith)
verify_agent_key_iff agent_api_key (some key) =
    (λ h. ground (arith, eq_iff key agent_api_key), λ h. ground (arith, eq_iff key agent_api_key))

-- A heartbeat of an agent that there is writes the time into its row; it leaves the other agents,
-- the jobs and the pipelines as they were. The heartbeat of an unknown agent changes none of them.
pub heartbeat_effect :
    (now agent_id : ℕ) (db : Db) (k : ℕ)
    → let db' = (heartbeat now agent_id db).1 in
      (find agent_key k db'.agents ≡ (
        if agent_id == k
        then elim (find agent_key k db.agents) [
          | none ↦ none
          | some agent ↦ some (record agent { last_seen_at = some now })
        ]
        else find agent_key k db.agents))
      × (db'.job_runs ≡ db.job_runs)
      × (db'.pipelines ≡ db.pipelines)
unfolding heartbeat
heartbeat_effect now agent_id db k = elim (Option-cases (find agent_key agent_id db.agents)) [
  | inl missing ↦ ground (arith, missing, ==_iff agent_id k)
  | inr (a, found) ↦
      let id = find-key agent_key agent_id db.agents a found in
      ground (
        arith,
        found,
        id,
        ==_iff agent_id k,
        find-replace agent_key k (record a { last_seen_at = some now }) a db.agents
            (ap (λ i. find agent_key i db.agents) id ∙ found),
      )
]
