-- ===== src/Orchestrator/Workloads/Replicas.antt =====
-- workloads.py: `ReplicaSetController.reconcile`. A name that is taken makes a create fail, which is
-- ignored; the names of the new pods, which the source takes from the clock, are given.
pub mod Converging
pub mod Ready
pub mod Counted
use container_platform.Prelude.Dict
use container_platform.Prelude.Dict.{Dict}
use container_platform.Prelude.{
  ℕ, zero, suc, ◌+◌, ◌-◌, String, Bool, true, false, not, ◌&&◌, ◌||◌, Option, none, some, List, [],
  ◌∷◌, ◌++◌, length, take, ltb, leb, ◌==◌, str_eq, if◌then◌else◌,
}
use container_platform.Orchestrator.Workloads.{Phase, Pod, is_ready, is_terminal}

-- What the pass reads of the set: its key, its selector, and the labels of its template.
pub record PodSet : Type 0 where
  pub key : String
  pub selector : Dict String
  pub template_labels : Dict String

has_value : Option String → String → Bool
has_value none v = false
has_value (some w) v = str_eq w v

-- Whether `list` with a selector gives what has the labels.
unfoldable pub has_labels : Dict String → Dict String → Bool
unfolding has_value
has_labels [] labels = true
has_labels ((k, v) ∷ selector) labels =
    has_value (Dict.lookup k labels) v && has_labels selector labels

-- {**labels, **over}
unfoldable pub update_all : Dict String → Dict String → Dict String
update_all labels [] = labels
update_all labels ((k, v) ∷ over) = update_all (Dict.insert k v labels) over

unfoldable pub is_alive : PodSet → Pod → Bool
unfolding is_terminal has_labels
is_alive rs p =
    has_labels rs.selector p.labels && (str_eq p.owner rs.key && not (is_terminal p.phase))

unfoldable pub alive_of : PodSet → List Pod → List Pod
unfolding is_alive
alive_of rs [] = []
alive_of rs (p ∷ ps) = let rest = alive_of rs ps in if is_alive rs p then p ∷ rest else rest

unfoldable pub has_key : String → List Pod → Bool
has_key key [] = false
has_key key (p ∷ ps) = str_eq p.key key || has_key key ps

-- `store.create` of a pod
unfoldable pub create_pod : ℕ → PodSet → String → List Pod → List Pod
unfolding has_key update_all
create_pod now rs key pods =
    if has_key key pods
    then pods
    else pods
      ++ (record {
        key = key;
        owner = rs.key;
        labels = update_all rs.selector rs.template_labels;
        phase = Phase.pending;
        ready_since = 0;
        created_at = now;
      }
          ∷ [])

unfoldable pub create_pods : ℕ → PodSet → List String → List Pod → List Pod
unfolding create_pod
create_pods now rs [] pods = pods
create_pods now rs (key ∷ keys) pods = create_pods now rs keys (create_pod now rs key pods)

-- `<` on (phase == READY, created_at)
unfoldable pub goes_before : Pod → Pod → Bool
unfolding is_ready
goes_before p q =
    if is_ready p.phase
    then is_ready q.phase && ltb p.created_at q.created_at
    else is_ready q.phase || ltb p.created_at q.created_at

unfoldable pub insert_pod : Pod → List Pod → List Pod
unfolding goes_before
insert_pod p [] = p ∷ []
insert_pod p (q ∷ qs) =
    let rest = insert_pod p qs in if goes_before q p then q ∷ rest else p ∷ q ∷ qs

unfoldable pub sort_pods : List Pod → List Pod
unfolding insert_pod
sort_pods [] = []
sort_pods (p ∷ ps) = insert_pod p (sort_pods ps)

-- `store.delete` of a key
unfoldable pub delete_pod : String → List Pod → List Pod
delete_pod key [] = []
delete_pod key (p ∷ ps) =
    let rest = delete_pod key ps in if str_eq p.key key then rest else p ∷ rest

unfoldable pub delete_pods : List Pod → List Pod → List Pod
unfolding delete_pod
delete_pods [] pods = pods
delete_pods (s ∷ surplus) pods = delete_pods surplus (delete_pod s.key pods)

-- The pods after a pass; `keys` are the names that the creates of this pass try.
unfoldable pub reconcile_pods : ℕ → PodSet → ℕ → List String → List Pod → List Pod
unfolding alive_of create_pods sort_pods delete_pods
reconcile_pods now rs desired keys pods =
    let alive = alive_of rs pods in
    if ltb (length alive) desired
    then create_pods now rs (take (desired - length alive) keys) pods
    else if ltb desired (length alive)
    then delete_pods (take (length alive - desired) (sort_pods alive)) pods
    else pods
