-- ===== src/Orchestrator/Agent/Passes.antt =====
-- node_agent.py: passes of `NodeAgent`, between changes that others make to the pods.
use container_platform.Prelude.Dict
use container_platform.Prelude.Dict.{Dict}
use container_platform.Prelude.{
  ℕ, String, ◌≡◌, inl, inr, Bool, true, false, not, ◌&&◌, Option, none, some, List, [], ◌∷◌, arith,
  str_eq, Bool-cases,
}
use container_platform.Orchestrator.Workloads.{is_terminal}
use container_platform.Orchestrator.Agent.{
  AgentPod, NodeAgent, Answers, reconcile_found, reconcile_agent,
}
use container_platform.Orchestrator.Agent.Tidy.{
  IsTidy, IsStopped, stop_handle-IsTidy, reconcile_found-IsTidy,
}

pub data AgentStep : Type 0 where
  reconciles : ℕ → Answers → String → AgentStep
  changes : Dict AgentPod → AgentStep

unfoldable pub agent_step : AgentStep → NodeAgent → NodeAgent
unfolding reconcile_agent
agent_step (AgentStep.reconciles now answers key) a = (reconcile_agent now answers key a).0
agent_step (AgentStep.changes pods) a = record a { pods = pods }

unfoldable pub agent_steps : List AgentStep → NodeAgent → NodeAgent
unfolding agent_step
agent_steps [] a = a
agent_steps (s ∷ ss) a = agent_steps ss (agent_step s a)

-- The pod is on this node, and has not finished.
abbrev pub should_run : String → Option AgentPod → Bool
should_run node none = false
should_run node (some p) = str_eq p.node_name node && not (is_terminal p.phase)

stops :
    (now : ℕ) (answers : Answers) (key : String) (o : Option AgentPod) (a : NodeAgent)
    → IsTidy a
    → should_run a.node_name o ≡ false
    → IsStopped key (reconcile_found now answers key o a).0
unfolding reconcile_found
stops now answers key none a v e = (stop_handle-IsTidy key a v).1
stops now answers key (some p) a v e = elim (Bool-cases (str_eq p.node_name a.node_name)) [
  | inr moved ↦ rw moved (stop_handle-IsTidy key a v).1
  | inl here ↦
      let done : is_terminal p.phase ≡ true = ground (arith, e, here) in
      rw (here, done) (stop_handle-IsTidy key a v).1
]

-- Where every process that runs is the one that the agent has for its pod, this stays so in any
-- passes, whatever the runtime answers and whatever others do to the pods. A pass for a pod that is
-- gone, is on another node or has finished leaves no process of it.
pub agent_steps-IsTidy :
    (ss : List AgentStep) (a : NodeAgent)
    → IsTidy a
    → IsTidy (agent_steps ss a)
      × ((now : ℕ) (answers : Answers) (key : String)
          → should_run (agent_steps ss a).node_name (Dict.lookup key (agent_steps ss a).pods)
            ≡ false
          → IsStopped key (reconcile_agent now answers key (agent_steps ss a)).0)
unfolding agent_steps agent_step reconcile_agent
agent_steps-IsTidy [] a v =
    (v, λ now answers key e. stops now answers key (Dict.lookup key a.pods) a v e)
agent_steps-IsTidy (AgentStep.reconciles now answers key ∷ ss) a v =
    agent_steps-IsTidy ss (reconcile_found now answers key (Dict.lookup key a.pods) a).0
      (reconcile_found-IsTidy now answers key (Dict.lookup key a.pods) a v)
agent_steps-IsTidy (AgentStep.changes pods ∷ ss) a v =
    agent_steps-IsTidy ss (record a { pods = pods }) v
