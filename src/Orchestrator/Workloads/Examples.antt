-- ===== src/Orchestrator/Workloads/Examples.antt =====
-- Sets and pods of a deployment.
use container_platform.Prelude.Dict
use container_platform.Prelude.Dict.{Dict}
use container_platform.Prelude.{
  ℕ, ◌≤◌, max, String, ◌≡◌, refl, sym, ap, Option, none, some, List, [], ◌∷◌, map, arith, inl, inr,
  eq_iff, Bool-cases, length, str_eq, if◌then◌else◌,
}
use container_platform.Orchestrator.Workloads.{
  Phase, Pod, ReplicaSet, Deployment, is_ready, is_terminal, is_available, count_pods, total,
  insert_by_revision, by_revision, scale, scale_up, shrink, clamped_available, scale_down, retire,
  settle, roll, is_complete,
}
use container_platform.Orchestrator.Workloads.Parts.{target_of, old_of, requested}
use container_platform.Orchestrator.Workloads.Rolling.{IsTarget, roll_surge, roll_retires}
use container_platform.Orchestrator.Workloads.Serving.{roll_available}
use container_platform.Orchestrator.Workloads.Progress.{Pass, roll_passes, roll_passes_finish}
use container_platform.Orchestrator.Workloads.Replicas.{
  PodSet, has_labels, update_all, is_alive, alive_of, has_key, create_pod, create_pods, goes_before,
  insert_pod, sort_pods, delete_pod, delete_pods, reconcile_pods,
}
use container_platform.Orchestrator.Workloads.Replicas.Converging.{keyed}
use container_platform.Orchestrator.Workloads.Replicas.Counted.{
  AreSoMany, IsCounted, IsReadyOf, readies-alive_of, reconcile_pods_converges, reconcile_pods_ready,
}
use container_platform.Orchestrator.Workloads.Revisions.{
  owned_by, find_set, last_or, find_last, max_revision, create_set, target_found, ensure_target,
  revisions, restore, restore_found, rollback_to, rollback, reconcile_sets,
}
use container_platform.Orchestrator.Workloads.Revisions.Reselecting.{
  IsAmong, ensure_target-rollback,
}

abbrev set_of : String → ℕ → ℕ → ReplicaSet
set_of name revision replicas = record {
  name = name;
  owner = "default/web";
  hash = name;
  revision = revision;
  replicas = replicas;
  template = some name;
}

abbrev web : Deployment
web = record {
  name = "web";
  key = "default/web";
  template = "v2";
  replicas = 3;
  max_surge = 1;
  max_unavailable = 0;
  min_ready = 0;
}

abbrev sets : List ReplicaSet
sets = set_of "v1" 1 3 ∷ set_of "v2" 2 0 ∷ []

abbrev pods_of : ℕ → ℕ → String → ℕ
pods_of n m name = if str_eq name "v1" then n else if str_eq name "v2" then m else 0

program : Unit {0}
unfolding is_ready is_terminal is_available count_pods total insert_by_revision by_revision scale
    scale_up shrink clamped_available scale_down retire settle roll is_complete roll_passes is_alive
    alive_of has_key create_pod create_pods goes_before insert_pod sort_pods delete_pod delete_pods
    reconcile_pods owned_by find_set last_or find_last max_revision create_set target_found
    ensure_target revisions restore restore_found rollback_to rollback reconcile_sets has_labels
    update_all Dict.lookup Dict.insert
program = tt

is_target : IsTarget (set_of "v2" 2 0) sets
unfolding program
is_target = record { once = refl; spec = refl }

-- The first pass asks for one new replica, and takes none away.
first_pass :
    reconcile_sets "v2" (λ t. t) web (pods_of 3 0) (pods_of 3 0) sets
    ≡ set_of "v1" 1 3 ∷ set_of "v2" 2 1 ∷ []
unfolding program
first_pass = refl

roll_surge_example :
    total requested (roll web (set_of "v2" 2 0) (pods_of 3 0) (pods_of 3 0) sets)
    ≤ max (total requested sets) 4
roll_surge_example = roll_surge web (set_of "v2" 2 0) (pods_of 3 0) (pods_of 3 0) sets is_target

roll_available_example :
    3
    ≤ total
        (clamped_available (pods_of 3 0))
        (roll web (set_of "v2" 2 0) (pods_of 3 0) (pods_of 3 0) sets)
unfolding program
roll_available_example =
    roll_available web (set_of "v2" 2 0) (pods_of 3 0) (pods_of 3 0) sets is_target (omega arith)
      (λ h. absurd (omega (arith, h)))

-- The rollout is turned back when one replica has moved, and the first set still has its three pods.
abbrev turned : List ReplicaSet
turned = set_of "v1" 1 1 ∷ set_of "v2" 2 3 ∷ []

roll_retires_example :
    total requested (roll web (set_of "v1" 1 1) (pods_of 3 1) (pods_of 3 1) turned) ≡ 1
unfolding program
roll_retires_example =
    roll_retires web (set_of "v1" 1 1) (pods_of 3 1) (pods_of 3 1) turned
      (record { once = refl; spec = refl }) (omega arith) (omega arith) (omega arith)

abbrev last_pass : List Pass
last_pass = record { target = set_of "v2" 2 3; pods = pods_of 1 3 } ∷ []

abbrev nearly : List ReplicaSet
nearly = set_of "v1" 1 1 ∷ set_of "v2" 2 3 ∷ []

roll_passes_finish_example :
    (target_of requested "v2" (roll_passes web last_pass nearly) ≡ 3)
    × (old_of requested "v2" (roll_passes web last_pass nearly) ≡ 0)
unfolding program
roll_passes_finish_example =
    roll_passes_finish web "v2" last_pass nearly (omega arith)
      (refl, record { once = refl; spec = refl }, (refl, (refl, tt)), tt) (omega arith)

abbrev web_labels : Dict String
web_labels = ("app", "web") ∷ []

abbrev v2 : PodSet
v2 = record { key = "v2"; selector = web_labels; template_labels = ("tier", "front") ∷ [] }

abbrev one_pod : List Pod
one_pod =
    record {
      key = "p1";
      owner = "v2";
      labels = web_labels;
      phase = Phase.ready;
      ready_since = 5;
      created_at = 1;
    }
    ∷ []

one_pod_once : (k : String) → keyed k (alive_of v2 one_pod) ≤ 1
unfolding program
one_pod_once k = ground arith

reconcile_pods_converges_example :
    AreSoMany (IsCounted v2) (reconcile_pods 9 v2 2 ("p2" ∷ []) one_pod) 2
unfolding program
reconcile_pods_converges_example =
    reconcile_pods_converges 9 v2 2 ("p2" ∷ []) one_pod one_pod_once (refl, tt) (omega arith)
      (refl, tt)

-- Of an old Ready pod, a Pending one and a younger Ready one, the set asks for two.
abbrev three_pods : List Pod
three_pods =
    record {
      key = "p1";
      owner = "v2";
      labels = web_labels;
      phase = Phase.ready;
      ready_since = 5;
      created_at = 1;
    }
    ∷ record {
      key = "p2";
      owner = "v2";
      labels = web_labels;
      phase = Phase.pending;
      ready_since = 0;
      created_at = 7;
    }
    ∷ record {
      key = "p3";
      owner = "v2";
      labels = web_labels;
      phase = Phase.ready;
      ready_since = 5;
      created_at = 4;
    }
    ∷ []

abbrev HaveOwnKeys : List Pod → Type 0
HaveOwnKeys [] = Unit
HaveOwnKeys (p ∷ ps) = (keyed p.key ps ≡ 0) × HaveOwnKeys ps

keyed_once : (ps : List Pod) → HaveOwnKeys ps → (k : String) → keyed k ps ≤ 1
keyed_once [] h k = omega arith
keyed_once (p ∷ ps) h k = elim (Bool-cases (str_eq p.key k)) [
  | inl same ↦
      let none_else = ap (λ j. keyed j ps) (sym ((eq_iff p.key k).0 same)) in
      rw same (omega (arith, none_else, h.0))
  | inr other ↦ rw other (keyed_once ps h.1 k)
]

three_pods_once : (k : String) → keyed k (alive_of v2 three_pods) ≤ 1
unfolding program
three_pods_once k = keyed_once three_pods (refl, (refl, (refl, tt))) k

reconcile_pods_ready_example : AreSoMany (IsReadyOf v2) (reconcile_pods 9 v2 2 [] three_pods) 2
unfolding program
reconcile_pods_ready_example =
    reconcile_pods_ready 9 v2 2 [] three_pods 2 three_pods_once (readies-alive_of v2 three_pods)

-- A template whose labels take the place of others in the selector: the new pod is not counted, and
-- the next pass makes one more.
abbrev relabelled : PodSet
relabelled = record v2 { template_labels = ("app", "other") ∷ [] }

never_counted : length (alive_of relabelled (reconcile_pods 9 relabelled 2 ("p2" ∷ []) one_pod)) ≡ 1
unfolding program
never_counted = refl

-- Of two Ready pods the older one is deleted.
older_deleted :
    map (λ (p : Pod). p.key) (alive_of v2 (reconcile_pods 9 v2 1 [] three_pods)) ≡ "p3" ∷ []
unfolding program
older_deleted = refl

ensure_target-rollback_example :
    ((ensure_target "v1" (λ t. t) (record web { template = "v1" }) sets).1 ≡ sets)
    × ((ensure_target "v1" (λ t. t) (record web { template = "v1" }) sets).0.hash ≡ "v1")
    × IsAmong (ensure_target "v1" (λ t. t) (record web { template = "v1" }) sets).0 sets
unfolding program
ensure_target-rollback_example =
    ensure_target-rollback "v1" (λ t. t) web none sets 1 "v1"
      ((λ t e. sym (ap from e)), ((λ t e. sym (ap from e)), tt)) refl
  where
    from : Option String → String
    from none = ""
    from (some t) = t
