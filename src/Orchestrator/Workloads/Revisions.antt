-- ===== src/Orchestrator/Workloads/Revisions.antt =====
-- workloads.py: the sets of a deployment by their revisions, the status, and `rollback`. A template is
-- its JSON text, and `hash` stands for `template_hash`.
pub mod Reselecting
use container_platform.Prelude.{
  ℕ, suc, ◌+◌, ◌-◌, max, String, Bool, true, false, not, ◌&&◌, ◌||◌, Option, none, some, List, [],
  ◌∷◌, ◌++◌, length, ltb, ◌==◌, str_eq, if◌then◌else◌,
}
use container_platform.Orchestrator.Workloads.{ReplicaSet, Deployment, by_revision, roll}

unfoldable pub owned_by : String → List ReplicaSet → List ReplicaSet
owned_by key [] = []
owned_by key (rs ∷ sets) =
    let rest = owned_by key sets in if str_eq rs.owner key then rs ∷ rest else rest

-- The first set that a test holds of.
unfoldable pub find_set : (ReplicaSet → Bool) → List ReplicaSet → Option ReplicaSet
find_set test [] = none
find_set test (rs ∷ sets) = let rest = find_set test sets in if test rs then some rs else rest

unfoldable pub last_or : ReplicaSet → Option ReplicaSet → Option ReplicaSet
last_or rs none = some rs
last_or rs (some later) = some later

-- The last set that a test holds of.
unfoldable pub find_last : (ReplicaSet → Bool) → List ReplicaSet → Option ReplicaSet
unfolding last_or
find_last test [] = none
find_last test (rs ∷ sets) =
    let rest = find_last test sets in if test rs then last_or rs rest else rest

unfoldable pub max_revision : List ReplicaSet → ℕ
max_revision [] = 0
max_revision (rs ∷ sets) = max rs.revision (max_revision sets)

-- `store.create`, or `store.get` of what has the name
unfoldable pub create_set :
    ReplicaSet → Option ReplicaSet → List ReplicaSet → ReplicaSet × List ReplicaSet
create_set rs none sets = (rs, sets ++ (rs ∷ []))
create_set rs (some there) sets = (there, sets)

-- `_ensure_target`, after the search for the hash
unfoldable pub target_found :
    String
    → (String → String)
    → Deployment
    → Option ReplicaSet
    → List ReplicaSet
    → List ReplicaSet
    → ReplicaSet × List ReplicaSet
unfolding create_set find_set max_revision
target_found name hash d (some rs) owned sets = (rs, sets)
target_found name hash d none owned sets =
    create_set
      (record {
        name = name;
        owner = d.key;
        hash = hash d.template;
        revision = max_revision owned + 1;
        replicas = 0;
        template = some d.template;
      })
      (find_set (λ rs. str_eq rs.name name) sets) sets

-- `name` is f"{deployment.meta.name}-{digest}".
unfoldable pub ensure_target :
    String → (String → String) → Deployment → List ReplicaSet → ReplicaSet × List ReplicaSet
unfolding target_found find_set owned_by
ensure_target name hash d sets =
    let owned = by_revision (owned_by d.key sets) in
    target_found name hash d (find_set (λ rs. str_eq rs.hash (hash d.template)) owned) owned sets

-- A pass of `DeploymentController.reconcile` on the sets of the deployment.
unfoldable pub reconcile_sets :
    String
    → (String → String)
    → Deployment
    → (String → ℕ)
    → (String → ℕ)
    → List ReplicaSet
    → List ReplicaSet
unfolding ensure_target roll owned_by
reconcile_sets name hash d available fresh sets =
    let (target, all) = ensure_target name hash d sets in
    roll d target available fresh (by_revision (owned_by d.key all))

unfoldable pub revisions : String → List ReplicaSet → List ReplicaSet
unfolding owned_by by_revision
revisions key sets = by_revision (owned_by key sets)

pub data RollbackError : Type 0 where
  nothing_to_roll_back : RollbackError
  no_revision : ℕ → RollbackError
  not_recorded : ℕ → RollbackError

-- The revision and the template that the deployment gets, or what is raised.
pub data Rollback : Type 0 where
  rolled_back : ℕ → String → Rollback
  raises : RollbackError → Rollback

unfoldable pub restore : ReplicaSet → Option String → Rollback
restore rs none = Rollback.raises (RollbackError.not_recorded rs.revision)
restore rs (some template) =
    if str_eq template ""
    then Rollback.raises (RollbackError.not_recorded rs.revision)
    else Rollback.rolled_back rs.revision template

unfoldable pub restore_found : RollbackError → Option ReplicaSet → Rollback
unfolding restore
restore_found e none = Rollback.raises e
restore_found e (some rs) = restore rs rs.template

unfoldable pub rollback_to : (String → String) → String → Option ℕ → List ReplicaSet → Rollback
unfolding restore_found find_set find_last
rollback_to hash current none history =
    restore_found RollbackError.nothing_to_roll_back
      (find_last (λ rs. not (str_eq rs.hash (hash current))) history)
rollback_to hash current (some revision) history =
    restore_found (RollbackError.no_revision revision)
      (find_set (λ rs. rs.revision == revision) history)

unfoldable pub rollback : (String → String) → Deployment → Option ℕ → List ReplicaSet → Rollback
unfolding rollback_to revisions
rollback hash d to sets =
    let history = revisions d.key sets in
    if ltb (length history) 2
    then Rollback.raises RollbackError.nothing_to_roll_back
    else rollback_to hash d.template to history
