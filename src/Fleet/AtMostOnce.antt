-- ===== src/Fleet/AtMostOnce.antt =====
-- No job is run twice, by one agent or by two.
use turbocat.Prelude.{
  ℕ, ◌+◌, ◌≤◌, ◌≡◌, inl, inr, refl, subst, ap, List, [], ◌∷◌, ◌++◌, All, times, times-append, arith,
}
use turbocat.Orchestrator.Models.{Db}
use turbocat.Orchestrator.Jobs.Payload.{JobPayload}
use turbocat.Orchestrator.Jobs.Dispatch.{ids_of}
use turbocat.Orchestrator.Jobs.Interleaving as Server
use turbocat.Orchestrator.Jobs.Interleaving.{start, later}
use turbocat.Orchestrator.Jobs.Interleaving.NoDoubles.{claims_disjoint}
use turbocat.Agent.Loop as Loop
use turbocat.Agent.Loop.{init, count, here, next}
use turbocat.Agent.Loop.Jobs.{everywhere, count-append, jobs_conserved}
use turbocat.Fleet.{
  State, job_ids, Step, serve, claim, lose, receive, work, join, Reach, begin, further, in_answers,
  handed, runs,
}

in_answers-split :
    (k : ℕ) (before after : List (List JobPayload)) (jobs : List JobPayload)
    → in_answers k (before ++ jobs ∷ after) ≡ count k jobs + in_answers k (before ++ after)
unfolding in_answers
in_answers-split k [] after jobs = refl
in_answers-split k (x ∷ before) after jobs = omega (arith, in_answers-split k before after jobs)

handed-split :
    (k : ℕ) (those these : List Loop.State) (a : Loop.State)
    → handed k (those ++ a ∷ these) ≡ count k a.claimed + handed k (those ++ these)
unfolding handed
handed-split k [] these a = refl
handed-split k (x ∷ those) these a = omega (arith, handed-split k those these a)

in_answers-cons :
    (k : ℕ) (jobs : List JobPayload) (answers : List (List JobPayload))
    → in_answers k (jobs ∷ answers) ≡ count k jobs + in_answers k answers
unfolding in_answers
in_answers-cons k jobs answers = refl

count-nil : (k : ℕ) → count k [] ≡ 0
unfolding count times
count-nil k = refl

handed-init :
    (k permits : ℕ) (agents : List Loop.State) → handed k (init permits ∷ agents) ≡ handed k agents
unfolding handed
handed-init k permits agents = omega (arith, count-nil k)

nothing_yet : (k : ℕ) → in_answers k [] + handed k [] ≤ times k []
unfolding in_answers handed times
nothing_yet k = omega arith

count-job_ids : (k : ℕ) (jobs : List JobPayload) → count k jobs ≡ times k (job_ids jobs)
unfolding count
count-job_ids k jobs = refl

module _ (max_workers : ℕ) (db : Db) where
  record Inv (s : State) : Type 0 where
    served : Server.Reach db s.server
    looped : All (Loop.Reach max_workers (init max_workers)) s.agents
    few : (k : ℕ) → in_answers k s.answers + handed k s.agents ≤ times k s.server.claims

  All-set :
      (those these : List Loop.State) (a b : Loop.State)
      → (Loop.Reach max_workers (init max_workers) a → Loop.Reach max_workers (init max_workers) b)
      → All (Loop.Reach max_workers (init max_workers)) (those ++ a ∷ these)
      → All (Loop.Reach max_workers (init max_workers)) (those ++ b ∷ these)
  All-set [] these a b f h = (f h.0, h.1)
  All-set (x ∷ those) these a b f h = (h.0, All-set those these a b f h.1)

  Step-Inv : {s t : State} → Step max_workers s t → Inv s → Inv t
  Step-Inv (serve st same) v = record {
    served = later v.served st;
    looped = v.looped;
    few = λ k. omega (arith, v.few k, ap (times k) same);
  }
  Step-Inv (claim ids jobs st more (inl nothing)) v = record {
    served = later v.served st;
    looped = v.looped;
    few = λ k. omega (
      arith,
      v.few k,
      ap (times k) more,
      times-append k ids _,
      ap (count k) nothing,
      in_answers-cons k jobs _,
      count-nil k,
    );
  }
  Step-Inv (claim ids jobs st more (inr all)) v = record {
    served = later v.served st;
    looped = v.looped;
    few = λ k. omega (
      arith,
      v.few k,
      ap (times k) more,
      times-append k ids _,
      ap (times k) all,
      count-job_ids k jobs,
      in_answers-cons k jobs _,
    );
  }
  Step-Inv (lose jobs before after e) v = record {
    served = v.served;
    looped = v.looped;
    few = λ k. omega (arith, v.few k, ap (in_answers k) e, in_answers-split k before after jobs);
  }
  Step-Inv (receive {b} jobs before after a those these e e' st more) v = record {
    served = v.served;
    looped =
        All-set those these a b (λ r. next r st)
          (subst (All (Loop.Reach max_workers (init max_workers))) e' v.looped);
    few = λ k. omega (
      arith,
      v.few k,
      ap (in_answers k) e,
      in_answers-split k before after jobs,
      ap (handed k) e',
      handed-split k those these a,
      handed-split k those these b,
      ap (count k) more,
      count-append k jobs a.claimed,
    );
  }
  Step-Inv (work {b} a those these e st same) v = record {
    served = v.served;
    looped =
        All-set those these a b (λ r. next r st)
          (subst (All (Loop.Reach max_workers (init max_workers))) e v.looped);
    few = λ k. omega (
      arith,
      v.few k,
      ap (handed k) e,
      handed-split k those these a,
      handed-split k those these b,
      ap (count k) same,
    );
  }
  Step-Inv {s} join v = record {
    served = v.served;
    looped = (here, v.looped);
    few = λ k. omega (arith, v.few k, handed-init k max_workers s.agents);
  }

  Reach-Inv : {s : State} → Reach max_workers db s → Inv s
  Reach-Inv begin = record { served = start; looped = tt; few = λ k. nothing_yet k }
  Reach-Inv (further r st) = Step-Inv st (Reach-Inv r)

  runs-le-handed :
      (k : ℕ) (agents : List Loop.State)
      → All (Loop.Reach max_workers (init max_workers)) agents
      → runs k agents ≤ handed k agents
  unfolding runs handed everywhere
  runs-le-handed k [] h = omega arith
  runs-le-handed k (a ∷ agents) (r, h) =
      omega (arith, jobs_conserved max_workers k r, runs-le-handed k agents h)

  -- From a database whose jobs have different ids, in whatever order the orchestrator and the agents
  -- take their steps, whatever is reported but "pending", whichever answers get lost, and however often
  -- agents are started: among all agents together, a job runs or has run at most once.
  pub runs_at_most_once :
      {s : State}
      → ((k : ℕ) → times k (ids_of db.job_runs) ≤ 1)
      → Reach max_workers db s
      → (k : ℕ) → runs k s.agents ≤ 1
  runs_at_most_once {s} keys r k =
      let v = Reach-Inv r in
      omega
        (arith, (claims_disjoint keys v.served k).0, v.few k, runs-le-handed k s.agents v.looped)
