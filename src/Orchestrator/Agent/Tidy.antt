-- ===== src/Orchestrator/Agent/Tidy.antt =====
-- node_agent.py: the agent knows every process that runs, and stops what should not run.
use container_platform.Prelude.Dict
use container_platform.Prelude.Dict.{Dict, lookup-insert, lookup-insert_own, lookup-remove}
use container_platform.Prelude.{
  ℕ, ◌+◌, String, ◌≡◌, refl, ap, ◌∙◌, sym, inl, inr, true, false, not, Option, none, some, List, [],
  ◌∷◌, All, All-map, ltb, ◌==◌, str_eq, if-branches, Bool-cases, eq_iff, ==_iff,
}
use container_platform.Orchestrator.Workloads.{Phase, is_ready, is_terminal}
use container_platform.Orchestrator.Agent.{
  Handle, AgentPod, NodeAgent, Answers, stop_process, stop_found, stop_handle, write_pod,
  update_pod, crash_pod, crashed, set_phase, start_pod, probe_pod, serve_pod, reconcile_found,
}

-- Every process that runs is the one that the agent has for its pod.
abbrev pub IsTidy : NodeAgent → Type 0
IsTidy a = All (λ h. Dict.lookup h.pod_key a.handles ≡ some h) a.running

-- No process runs for the pod.
abbrev pub IsStopped : String → NodeAgent → Type 0
IsStopped key a = All (λ h. str_eq key h.pod_key ≡ false) a.running

-- After the handle of a pod has gone: what runs is for other pods.
stopped :
    (key : String) (h : Handle) (handles : Dict Handle) (hs : List Handle)
    → Dict.lookup key handles ≡ some h
    → All (λ x. Dict.lookup x.pod_key handles ≡ some x) hs
    → All
        (λ x.
          (Dict.lookup x.pod_key (Dict.remove key handles) ≡ some x)
          × (str_eq key x.pod_key ≡ false))
        (stop_process h.pid hs)
unfolding stop_process
stopped key h handles [] e tidy = tt
stopped key h handles (x ∷ hs) e tidy = elim (Bool-cases (x.pid == h.pid)) [
  | inl same ↦ rw same (stopped key h handles hs e tidy.1)
  | inr differs ↦ elim (Bool-cases (str_eq key x.pod_key)) [
    | inl mine ↦
        let n : key ≡ x.pod_key = (eq_iff key x.pod_key).0 mine in
        let f : some h ≡ some x = sym e ∙ ap (λ k. Dict.lookup k handles) n ∙ tidy.0 in
        let q : x.pid ≡ h.pid = sym (ap pid_of f) in
        let no_way : true ≡ false = sym ((==_iff x.pid h.pid).1 q) ∙ differs in cc
    | inr other ↦ rw differs (
      (lookup-remove key x.pod_key handles ∙ rw other tidy.0, other),
      stopped key h handles hs e tidy.1,
    )
  ]
]
  where
    pid_of : Option Handle → ℕ
    pid_of none = 0
    pid_of (some y) = y.pid

not_running :
    (key : String) (handles : Dict Handle) (hs : List Handle)
    → Dict.lookup key handles ≡ none
    → All (λ x. Dict.lookup x.pod_key handles ≡ some x) hs
    → All (λ x. str_eq key x.pod_key ≡ false) hs
not_running key handles [] e tidy = tt
not_running key handles (x ∷ hs) e tidy = elim (Bool-cases (str_eq key x.pod_key)) [
  | inl mine ↦
      let n : key ≡ x.pod_key = (eq_iff key x.pod_key).0 mine in
      let f : none ≡ some x = sym e ∙ ap (λ k. Dict.lookup k handles) n ∙ tidy.0 in cc
  | inr other ↦ (other, not_running key handles hs e tidy.1)
]

stop_found-IsTidy :
    (key : String) (o : Option Handle) (a : NodeAgent)
    → Dict.lookup key a.handles ≡ o
    → IsTidy a
    → IsTidy (stop_found key o a) × IsStopped key (stop_found key o a)
unfolding stop_found
stop_found-IsTidy key none a e v = (v, not_running key a.handles a.running e v)
stop_found-IsTidy key (some h) a e v =
    let s = stopped key h a.handles a.running e v in
    (
      All-map
          (λ x.
            (Dict.lookup x.pod_key (Dict.remove key a.handles) ≡ some x)
            × (str_eq key x.pod_key ≡ false))
          (λ x. Dict.lookup x.pod_key (Dict.remove key a.handles) ≡ some x) (λ x p. p.0) _ s,
      All-map
          (λ x.
            (Dict.lookup x.pod_key (Dict.remove key a.handles) ≡ some x)
            × (str_eq key x.pod_key ≡ false))
          (λ x. str_eq key x.pod_key ≡ false) (λ x p. p.1) _ s,
    )

pub stop_handle-IsTidy :
    (key : String) (a : NodeAgent)
    → IsTidy a
    → IsTidy (stop_handle key a) × IsStopped key (stop_handle key a)
unfolding stop_handle
stop_handle-IsTidy key a v = stop_found-IsTidy key (Dict.lookup key a.handles) a refl v

write_pod-IsTidy :
    (key : String) (f : AgentPod → AgentPod) (o : Option AgentPod) (a : NodeAgent)
    → IsTidy a
    → IsTidy (write_pod key f o a)
unfolding write_pod
write_pod-IsTidy key f none a v = v
write_pod-IsTidy key f (some p) a v = v

update_pod-IsTidy :
    (key : String) (f : AgentPod → AgentPod) (a : NodeAgent)
    → IsTidy a
    → IsTidy (update_pod key f a)
unfolding update_pod
update_pod-IsTidy key f a v = write_pod-IsTidy key f (Dict.lookup key a.pods) a v

crashed-IsTidy :
    (now : ℕ) (key reason : String) (a : NodeAgent) → IsTidy a → IsTidy (crashed now key reason a).0
unfolding crashed
crashed-IsTidy now key reason a v = update_pod-IsTidy key (crash_pod now reason) a v

started :
    (key : String) (h : Handle) (handles : Dict Handle) (hs : List Handle)
    → Dict.lookup key handles ≡ none
    → All (λ x. Dict.lookup x.pod_key handles ≡ some x) hs
    → All (λ x. Dict.lookup x.pod_key (Dict.insert key h handles) ≡ some x) hs
started key h handles [] e tidy = tt
started key h handles (x ∷ hs) e tidy =
    let other = (not_running key handles (x ∷ hs) e tidy).0 in
    (lookup-insert key x.pod_key h handles ∙ rw other tidy.0, started key h handles hs e tidy.1)

start_pod-IsTidy :
    (now : ℕ) (answers : Answers) (key : String) (p : AgentPod) (a : NodeAgent)
    → Dict.lookup key a.handles ≡ none
    → IsTidy a
    → IsTidy (start_pod now answers key p a).0
unfolding start_pod
start_pod-IsTidy now answers key p a e v =
    let h : Handle = record { pod_key = key; pid = a.next_pid } in
    let b : NodeAgent = record a {
      handles = Dict.insert key h a.handles;
      running = h ∷ a.running;
      next_pid = a.next_pid + 1;
    } in
    let fresh : IsTidy b =
      (lookup-insert_own key h a.handles, started key h a.handles a.running e v) in
    if-branches (λ (r : NodeAgent × Option ℕ). IsTidy r.0) (ltb now p.next_restart_at) _ _ v
      (if-branches (λ (r : NodeAgent × Option ℕ). IsTidy r.0) answers.failed _ _
        (crashed-IsTidy now key "container failed to start" (record a { next_pid = a.next_pid + 1 })
          v)
        (update_pod-IsTidy key (set_phase now Phase.running) b fresh))

probe_pod-IsTidy :
    (now : ℕ) (answers : Answers) (key : String) (p : AgentPod) (a : NodeAgent)
    → IsTidy a
    → IsTidy (probe_pod now answers key p a).0
unfolding probe_pod
probe_pod-IsTidy now answers key p a v =
    if-branches (λ (r : NodeAgent × Option ℕ). IsTidy r.0) (not answers.alive) _ _
      (crashed-IsTidy now key "process exited" (stop_handle key a) (stop_handle-IsTidy key a v).0)
      (if-branches (λ (r : NodeAgent × Option ℕ). IsTidy r.0) answers.ready _ _
        (if-branches IsTidy (is_ready p.phase) a _ v
          (update_pod-IsTidy key (set_phase now Phase.ready) a v))
        v)

serve_pod-IsTidy :
    (now : ℕ) (answers : Answers) (key : String) (p : AgentPod) (o : Option Handle) (a : NodeAgent)
    → Dict.lookup key a.handles ≡ o
    → IsTidy a
    → IsTidy (serve_pod now answers key p o a).0
unfolding serve_pod
serve_pod-IsTidy now answers key p none a e v = start_pod-IsTidy now answers key p a e v
serve_pod-IsTidy now answers key p (some h) a e v = probe_pod-IsTidy now answers key p a v

pub reconcile_found-IsTidy :
    (now : ℕ) (answers : Answers) (key : String) (o : Option AgentPod) (a : NodeAgent)
    → IsTidy a
    → IsTidy (reconcile_found now answers key o a).0
unfolding reconcile_found
reconcile_found-IsTidy now answers key none a v = (stop_handle-IsTidy key a v).0
reconcile_found-IsTidy now answers key (some p) a v =
    let gone = (stop_handle-IsTidy key a v).0 in
    if-branches (λ (r : NodeAgent × Option ℕ). IsTidy r.0) (not (str_eq p.node_name a.node_name)) _
      _ gone
      (if-branches (λ (r : NodeAgent × Option ℕ). IsTidy r.0) (is_terminal p.phase) _ _ gone
        (serve_pod-IsTidy now answers key p (Dict.lookup key a.handles) a refl v))
