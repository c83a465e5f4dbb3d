-- ===== src/Orchestrator/Workloads.antt =====
-- workloads.py: `ReplicaSetController` and `DeploymentController`, on the fields of the objects that
-- they read. The sets of a deployment are a list; no two have the same name, as the store keeps them
-- by their keys. Times are natural numbers of seconds.
pub mod Parts
pub mod Rolling
pub mod Serving
pub mod Progress
pub mod Replicas
pub mod Revisions
mod Examples
use container_platform.Prelude.Dict.{Dict}
use container_platform.Prelude.{
  ℕ, suc, ◌+◌, ◌-◌, ◌*◌, min, max, String, Bool, true, false, not, ◌&&◌, ◌||◌, Option, none, some,
  List, [], ◌∷◌, ◌++◌, length, take, ltb, leb, ◌==◌, str_eq, if◌then◌else◌, map,
}

pub data Phase : Type 0 where
  pending scheduled running ready crash_loop succeeded failed : Phase

pub record Pod : Type 0 where
  pub key : String
  pub owner : String
  pub labels : Dict String
  pub phase : Phase
  pub ready_since : ℕ
  pub created_at : ℕ

pub record ReplicaSet : Type 0 where
  pub name : String
  pub owner : String
  pub hash : String
  pub revision : ℕ
  pub replicas : ℕ
  pub template : Option String

-- A deployment, with its strategy.
pub record Deployment : Type 0 where
  pub name : String
  pub key : String
  pub template : String
  pub replicas : ℕ
  pub max_surge : ℕ
  pub max_unavailable : ℕ
  pub min_ready : ℕ

unfoldable pub is_ready : Phase → Bool
is_ready Phase.ready = true
is_ready _ = false

-- phase in TERMINAL
unfoldable pub is_terminal : Phase → Bool
is_terminal Phase.succeeded = true
is_terminal Phase.failed = true
is_terminal _ = false

unfoldable pub is_available : ℕ → ℕ → Pod → Bool
unfolding is_ready
is_available now min_ready p =
    is_ready p.phase
    && (min_ready == 0 || not (p.ready_since == 0) && leb min_ready (now - p.ready_since))

-- The pods of a set that a test counts, among those that are listed by the selector of the deployment.
unfoldable pub count_pods : (Pod → Bool) → String → List Pod → ℕ
count_pods test owner [] = 0
count_pods test owner (p ∷ ps) =
    let rest = count_pods test owner ps in if str_eq p.owner owner && test p then suc rest else rest

-- sum(f(rs) for rs in sets)
unfoldable pub total : (ReplicaSet → ℕ) → List ReplicaSet → ℕ
total f [] = 0
total f (rs ∷ sets) = f rs + total f sets

unfoldable pub insert_by_revision : ReplicaSet → List ReplicaSet → List ReplicaSet
insert_by_revision rs [] = rs ∷ []
insert_by_revision rs (x ∷ xs) =
    let rest = insert_by_revision rs xs in
    if leb rs.revision x.revision then rs ∷ x ∷ xs else x ∷ rest

-- `sorted` by the revision
unfoldable pub by_revision : List ReplicaSet → List ReplicaSet
unfolding insert_by_revision
by_revision [] = []
by_revision (rs ∷ sets) = insert_by_revision rs (by_revision sets)

-- `_scale`
unfoldable pub scale : String → ℕ → List ReplicaSet → List ReplicaSet
scale name n [] = []
scale name n (rs ∷ sets) =
    let rest = scale name n sets in
    if str_eq rs.name name then record rs { replicas = n } ∷ rest else rs ∷ rest

-- 1. The new set grows, in the room that maxSurge leaves.
unfoldable pub scale_up : ℕ → ℕ → ReplicaSet → List ReplicaSet → List ReplicaSet
unfolding scale
scale_up desired max_surge target sets =
    let room = desired + max_surge - total (λ rs. rs.replicas) sets in
    if ltb 0 room && ltb target.replicas desired
    then scale target.name (target.replicas + min room (desired - target.replicas)) sets
    else sets

-- The loop of step 2, from the last set on: the sets after it, and the surplus that is left.
unfoldable pub shrink : String → ℕ → List ReplicaSet → List ReplicaSet × ℕ
shrink target surplus [] = ([], surplus)
shrink target surplus (rs ∷ sets) =
    let rest = shrink target surplus sets in
    if str_eq rs.name target then (rs ∷ rest.0, rest.1) else (
      record rs { replicas = rs.replicas - min rs.replicas rest.1 } ∷ rest.0,
      rest.1 - min rs.replicas rest.1,
    )

unfoldable pub clamped_available : (String → ℕ) → ReplicaSet → ℕ
clamped_available fresh rs = min (fresh rs.name) rs.replicas

-- 2. The old sets shrink, as far as enough pods stay available.
unfoldable pub scale_down : ℕ → ℕ → (String → ℕ) → String → List ReplicaSet → List ReplicaSet
unfolding shrink total clamped_available
scale_down desired max_unavailable fresh target sets =
    (shrink target (total (clamped_available fresh) sets - (desired - max_unavailable)) sets).0

-- 3. The old sets end.
unfoldable pub retire : String → List ReplicaSet → List ReplicaSet
retire target [] = []
retire target (rs ∷ sets) =
    let rest = retire target sets in
    if str_eq rs.name target then rs ∷ rest else record rs { replicas = 0 } ∷ rest

-- 4. The new set shrinks to the number that is desired.
unfoldable pub settle : ℕ → ReplicaSet → List ReplicaSet → List ReplicaSet
unfolding scale
settle desired target sets =
    if ltb desired target.replicas then scale target.name desired sets else sets

-- The four steps. `available` counts the pods of each set at the start, `fresh` before step 2.
unfoldable pub roll :
    Deployment → ReplicaSet → (String → ℕ) → (String → ℕ) → List ReplicaSet → List ReplicaSet
unfolding scale_up scale_down retire settle
roll d target available fresh sets =
    let up = scale_up d.replicas d.max_surge target sets in
    let down = scale_down d.replicas d.max_unavailable fresh target.name up in
    let rest = if leb d.replicas (available target.name) then retire target.name down else down in
    settle d.replicas target rest

-- The verdict: the new pods are available, and nothing old is left.
unfoldable pub is_complete :
    Deployment → ReplicaSet → (String → ℕ) → (String → ℕ) → List ReplicaSet → Bool
unfolding total
is_complete d target available alive sets =
    leb d.replicas (available target.name)
    && total (λ rs. if str_eq rs.name target.name then 0 else rs.replicas) sets == 0
    && total (λ rs. if str_eq rs.name target.name then 0 else alive rs.name) sets == 0
