-- ===== src/Orchestrator/Agent.antt =====
-- node_agent.py: `NodeAgent`, over a store of the fields of pods that it reads and writes. What the
-- runtime answers is given: whether a start fails, and whether a process is alive and ready. The
-- processes that run are a list of handles. Times are in milliseconds.
pub mod Tidy
pub mod Passes
mod Examples
use container_platform.Prelude.Dict
use container_platform.Prelude.Dict.{Dict}
use container_platform.Prelude.{
  ℕ, ◌+◌, ◌-◌, ◌*◌, ◌^◌, min, String, Bool, true, false, not, ◌&&◌, Option, none, some, List, [],
  ◌∷◌, ltb, ◌==◌, str_eq, if◌then◌else◌,
}
use container_platform.Orchestrator.Workloads.{Phase, is_ready, is_terminal}

pub record Handle : Type 0 where
  pub pod_key : String
  pub pid : ℕ

pub record AgentPod : Type 0 where
  pub node_name : String
  pub phase : Phase
  pub ready_since : Option ℕ
  pub restart_count : ℕ
  pub next_restart_at : ℕ
  pub reason : String

pub record NodeAgent : Type 0 where
  pub node_name : String
  pub handles : Dict Handle
  pub running : List Handle
  pub pods : Dict AgentPod
  pub next_pid : ℕ

-- What the runtime says in a pass.
pub record Answers : Type 0 where
  pub failed : Bool
  pub alive : Bool
  pub ready : Bool

-- `runtime.stop`
unfoldable pub stop_process : ℕ → List Handle → List Handle
stop_process pid [] = []
stop_process pid (h ∷ hs) =
    let rest = stop_process pid hs in if h.pid == pid then rest else h ∷ rest

unfoldable pub stop_found : String → Option Handle → NodeAgent → NodeAgent
unfolding stop_process
stop_found key none a = a
stop_found key (some h) a = record a {
  handles = Dict.remove key a.handles;
  running = stop_process h.pid a.running;
}

-- The handle of a pod leaves, and its process is stopped.
unfoldable pub stop_handle : String → NodeAgent → NodeAgent
unfolding stop_found
stop_handle key a = stop_found key (Dict.lookup key a.handles) a

unfoldable pub write_pod : String → (AgentPod → AgentPod) → Option AgentPod → NodeAgent → NodeAgent
write_pod key f none a = a
write_pod key f (some p) a = record a { pods = Dict.insert key (f p) a.pods }

-- `update_with_retry`, where a pod that is gone is passed over
unfoldable pub update_pod : String → (AgentPod → AgentPod) → NodeAgent → NodeAgent
unfolding write_pod
update_pod key f a = write_pod key f (Dict.lookup key a.pods) a

unfoldable pub restart_delay : ℕ → ℕ
restart_delay restarts = min (50 * 2 ^ (restarts - 1)) 2000

unfoldable pub crash_pod : ℕ → String → AgentPod → AgentPod
unfolding restart_delay
crash_pod now reason p = record p {
  phase = Phase.crash_loop;
  reason = reason;
  restart_count = p.restart_count + 1;
  next_restart_at = now + restart_delay (p.restart_count + 1);
  ready_since = none;
}

-- `_crashed`: what it returns is the delay, if the pod is there.
unfoldable pub crash_delay : Option AgentPod → Option ℕ
unfolding restart_delay
crash_delay none = none
crash_delay (some p) = some (restart_delay (p.restart_count + 1))

unfoldable pub crashed : ℕ → String → String → NodeAgent → NodeAgent × Option ℕ
unfolding update_pod crash_pod crash_delay
crashed now key reason a =
    (update_pod key (crash_pod now reason) a, crash_delay (Dict.lookup key a.pods))

unfoldable pub since_or : ℕ → Option ℕ → Option ℕ
since_or now none = some now
since_or now (some t) = if t == 0 then some now else some t

unfoldable pub same_phase : Phase → Phase → Bool
same_phase Phase.pending Phase.pending = true
same_phase Phase.scheduled Phase.scheduled = true
same_phase Phase.running Phase.running = true
same_phase Phase.ready Phase.ready = true
same_phase Phase.crash_loop Phase.crash_loop = true
same_phase Phase.succeeded Phase.succeeded = true
same_phase Phase.failed Phase.failed = true
same_phase _ _ = false

unfoldable pub set_phase : ℕ → Phase → AgentPod → AgentPod
unfolding same_phase is_ready since_or
set_phase now phase p = if same_phase p.phase phase then p else record p {
  phase = phase;
  ready_since = if is_ready phase then since_or now p.ready_since else none;
}

-- A pod without a handle: it waits for its restart, or is started.
unfoldable pub start_pod : ℕ → Answers → String → AgentPod → NodeAgent → NodeAgent × Option ℕ
unfolding crashed update_pod set_phase
start_pod now answers key p a =
    if ltb now p.next_restart_at
    then (a, some (p.next_restart_at - now))
    else if answers.failed
    then crashed now key "container failed to start" (record a { next_pid = a.next_pid + 1 })
    else (
      update_pod key (set_phase now Phase.running) (record a {
        handles = Dict.insert key (record { pod_key = key; pid = a.next_pid }) a.handles;
        running = record { pod_key = key; pid = a.next_pid } ∷ a.running;
        next_pid = a.next_pid + 1;
      }),
      some 20,
    )

unfoldable pub probe_pod : ℕ → Answers → String → AgentPod → NodeAgent → NodeAgent × Option ℕ
unfolding crashed stop_handle update_pod set_phase is_ready
probe_pod now answers key p a =
    if not answers.alive
    then crashed now key "process exited" (stop_handle key a)
    else if answers.ready
    then (if is_ready p.phase then a else update_pod key (set_phase now Phase.ready) a, none)
    else (a, some 20)

unfoldable pub serve_pod :
    ℕ → Answers → String → AgentPod → Option Handle → NodeAgent → NodeAgent × Option ℕ
unfolding start_pod probe_pod
serve_pod now answers key p none a = start_pod now answers key p a
serve_pod now answers key p (some h) a = probe_pod now answers key p a

unfoldable pub reconcile_found :
    ℕ → Answers → String → Option AgentPod → NodeAgent → NodeAgent × Option ℕ
unfolding serve_pod stop_handle is_terminal
reconcile_found now answers key none a = (stop_handle key a, none)
reconcile_found now answers key (some p) a =
    if not (str_eq p.node_name a.node_name)
    then (stop_handle key a, none)
    else if is_terminal p.phase
    then (stop_handle key a, none)
    else serve_pod now answers key p (Dict.lookup key a.handles) a

unfoldable pub reconcile_agent : ℕ → Answers → String → NodeAgent → NodeAgent × Option ℕ
unfolding reconcile_found
reconcile_agent now answers key a = reconcile_found now answers key (Dict.lookup key a.pods) a
