-- ===== src/Orchestrator/Agent/Examples.antt =====
-- An agent with one pod, which is started and then deleted.
use container_platform.Prelude.Dict
use container_platform.Prelude.{ℕ, String, ◌≡◌, refl, true, false, none, some, List, [], ◌∷◌}
use container_platform.Orchestrator.Workloads.{Phase, is_ready, is_terminal}
use container_platform.Orchestrator.Agent.{
  AgentPod, NodeAgent, Answers, stop_process, stop_found, stop_handle, write_pod, update_pod,
  restart_delay, crash_pod, crash_delay, crashed, since_or, same_phase, set_phase, start_pod,
  probe_pod, serve_pod, reconcile_found, reconcile_agent,
}
use container_platform.Orchestrator.Agent.Tidy.{IsTidy, IsStopped}
use container_platform.Orchestrator.Agent.Passes.{
  AgentStep, agent_step, agent_steps, should_run, agent_steps-IsTidy,
}

abbrev pod : AgentPod
pod = record {
  node_name = "n1";
  phase = Phase.scheduled;
  ready_since = none;
  restart_count = 0;
  next_restart_at = 0;
  reason = "";
}

abbrev agent : NodeAgent
agent = record {
  node_name = "n1";
  handles = [];
  running = [];
  pods = ("p", pod) ∷ [];
  next_pid = 7;
}

abbrev healthy : Answers
healthy = record { failed = false; alive = true; ready = true }

abbrev dead : Answers
dead = record { failed = false; alive = false; ready = false }

program : Unit {0}
unfolding is_ready is_terminal stop_process stop_found stop_handle write_pod update_pod
    restart_delay crash_pod crash_delay crashed since_or same_phase set_phase start_pod probe_pod
    serve_pod reconcile_found reconcile_agent agent_step agent_steps Dict.lookup Dict.insert
    Dict.remove
program = tt

starts_process :
    (reconcile_agent 100 healthy "p" agent).0.running ≡ record { pod_key = "p"; pid = 7 } ∷ []
unfolding program
starts_process = refl

-- The second crash in a row waits twice as long.
crash_backoff :
    (reconcile_agent 300 dead "p" (
      agent_steps
        (AgentStep.reconciles 100 healthy "p"
          ∷ AgentStep.reconciles 110 dead "p"
          ∷ AgentStep.reconciles 200 healthy "p"
          ∷ [])
        agent)).1
    ≡ some 100
unfolding program
crash_backoff = refl

abbrev steps : List AgentStep
steps = AgentStep.reconciles 100 healthy "p" ∷ AgentStep.changes [] ∷ []

agent_steps-IsTidy_example :
    IsTidy (agent_steps steps agent)
    × ((now : ℕ) (answers : Answers) (key : String)
        → should_run
            (agent_steps steps agent).node_name
            (Dict.lookup key (agent_steps steps agent).pods)
          ≡ false
        → IsStopped key (reconcile_agent now answers key (agent_steps steps agent)).0)
agent_steps-IsTidy_example = agent_steps-IsTidy steps agent tt
