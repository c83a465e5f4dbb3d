-- ===== src/Orchestrator/Scheduler.antt =====
-- scheduler.py: the placement of a pod. A pod and a node are the fields that the scheduler reads; a
-- missing `nodeName` is the empty text, as `get` and its tests take both alike. Resources and scores
-- are floating-point numbers, which `f` gives.
pub mod Fitting
pub mod Totals
pub mod Capacity
use Prim.Native.String
use container_platform.Prelude.Dict
use container_platform.Prelude.Dict.{Dict}
use container_platform.Prelude.Float.{Float}
use container_platform.Prelude.{
  ℕ, zero, suc, ◌+◌, ◌-◌, ◌*◌, String, Bool, true, false, not, ◌&&◌, ◌||◌, Option, none, some, List,
  [], ◌∷◌, ◌++◌, ltb, ◌==◌, str_eq, if◌then◌else◌,
}

pub record Pod (R : Type 0) : Type 0 where
  pub key : String
  pub name : String
  pub owner : String
  pub node_name : String
  pub phase : String
  pub cpu : R
  pub memory : R
  pub node_selector : Dict String
  pub unschedulable_reason : String

pub record Node (R : Type 0) : Type 0 where
  pub name : String
  pub cpu : R
  pub memory : R
  pub unschedulable : Bool
  pub ready : Bool
  pub spec_labels : Dict String
  pub labels : Dict String

pub data Reason : Type 0 where
  cordoned not_ready selector_mismatch insufficient_cpu insufficient_memory : Reason

-- With the score of a node that is feasible.
pub data Fit (R : Type 0) : Type 0 where
  feasible : String → R → Fit R
  infeasible : String → Reason → Fit R

-- labels.get(k), with the labels of the metadata over those of the spec
label_or : Option String → Option String → Option String
label_or (some v) other = some v
label_or none other = other

label_matches : Option String → String → Bool
label_matches none v = false
label_matches (some w) v = str_eq w v

unfoldable pub selects : {R : Type 0} → Dict String → Node R → Bool
unfolding label_or label_matches
selects [] n = true
selects ((k, v) ∷ selector) n =
    label_matches (label_or (Dict.lookup k n.labels) (Dict.lookup k n.spec_labels)) v
    && selects selector n

-- phase in ("Succeeded", "Failed")
unfoldable pub is_finished : {R : Type 0} → Pod R → Bool
is_finished p = str_eq p.phase "Succeeded" || str_eq p.phase "Failed"

unfoldable pub counts_on : {R : Type 0} → String → Pod R → Bool
unfolding is_finished
counts_on node p = str_eq p.node_name node && not (is_finished p)

unfoldable pub count_siblings : {R : Type 0} → Pod R → String → List (Pod R) → ℕ
count_siblings p node [] = 0
count_siblings p node (q ∷ qs) =
    let rest = count_siblings p node qs in
    if str_eq q.owner p.owner && (str_eq q.node_name node && not (str_eq q.name p.name))
    then suc rest
    else rest

module _ (f : Float) where
  open f use {Number, natural, plus, minus, times, over, less, is_zero}

  -- The loop of `allocated`, from the sums so far.
  unfoldable pub allocated_from : Number × Number → List (Pod Number) → String → Number × Number
  unfolding counts_on
  allocated_from sums [] node = sums
  allocated_from sums (p ∷ ps) node =
      allocated_from (if counts_on node p then (plus sums.0 p.cpu, plus sums.1 p.memory) else sums)
        ps node

  unfoldable pub allocated : List (Pod Number) → String → Number × Number
  unfolding allocated_from
  allocated ps node = allocated_from (natural 0, natural 0) ps node

  -- A free share: nothing of a resource that a node does not have.
  abbrev share : Number → Number → Number → Number
  share whole used asked =
      if is_zero whole then natural 0 else over (minus (minus whole used) asked) whole

  unfoldable pub score : Bool → Pod Number → List (Pod Number) → Node Number → Number
  unfolding allocated count_siblings
  score spread p ps n =
      let used = allocated ps n.name in
      let balance =
        over (plus (share n.cpu used.0 p.cpu) (share n.memory used.1 p.memory)) (natural 2) in
      let base = if spread then balance else minus (natural 1) balance in
      if not (str_eq p.owner "") && spread
      then minus base (times (natural (count_siblings p n.name ps)) (over (natural 3) (natural 2)))
      else base

  unfoldable pub evaluate_node : Bool → Pod Number → List (Pod Number) → Node Number → Fit Number
  unfolding allocated selects score
  evaluate_node spread p ps n =
      let used = allocated ps n.name in
      if n.unschedulable
      then infeasible n.name cordoned
      else if not n.ready
      then infeasible n.name not_ready
      else if not (selects p.node_selector n)
      then infeasible n.name selector_mismatch
      else if less n.cpu (plus used.0 p.cpu)
      then infeasible n.name insufficient_cpu
      else if less n.memory (plus used.1 p.memory)
      then infeasible n.name insufficient_memory
      else feasible n.name (score spread p ps n)

  unfoldable pub evaluate :
      Bool → Pod Number → List (Pod Number) → List (Node Number) → List (Fit Number)
  unfolding evaluate_node
  evaluate spread p ps [] = []
  evaluate spread p ps (n ∷ ns) = evaluate_node spread p ps n ∷ evaluate spread p ps ns

  -- `max(feasible, key=score)`: the first of the best, from the best so far.
  unfoldable pub better : Option (String × Number) → Fit Number → Option (String × Number)
  better best (infeasible n r) = best
  better none (feasible n s) = some (n, s)
  better (some (m, t)) (feasible n s) = if less t s then some (n, s) else some (m, t)

  unfoldable pub best_of : Option (String × Number) → List (Fit Number) → Option (String × Number)
  unfolding better
  best_of best [] = best
  best_of best (g ∷ fs) = best_of (better best g) fs

-- `bind` on the pods of the store.
unfoldable pub bind : {R : Type 0} → String → String → List (Pod R) → List (Pod R)
bind k node [] = []
bind k node (p ∷ ps) =
    let rest = bind k node ps in
    if str_eq p.key k && str_eq p.node_name ""
    then record p { node_name = node; phase = "Scheduled" } ∷ rest
    else p ∷ rest

text : Reason → String
text cordoned = "node is cordoned"
text not_ready = "node is not ready"
text selector_mismatch = "node selector does not match"
text insufficient_cpu = "insufficient cpu"
text insufficient_memory = "insufficient memory"

gives : {R : Type 0} → String → List (Fit R) → Bool
unfolding text
gives t [] = false
gives t (feasible n s ∷ fs) = gives t fs
gives t (infeasible n r ∷ fs) = str_eq (text r) t || gives t fs

given : {R : Type 0} → List String → List (Fit R) → List String
unfolding gives
given [] fs = []
given (t ∷ ts) fs = let rest = given ts fs in if gives t fs then t ∷ rest else rest

-- f"{w}; {s}"
with_separator : String → String → String
with_separator String.[] s = String.◌∷◌ ";" (String.◌∷◌ " " s)
with_separator (String.◌∷◌ c w) s = String.◌∷◌ c (with_separator w s)

joined : List String → String
unfolding with_separator
joined [] = "no nodes registered"
joined (t ∷ []) = t
joined (t ∷ u ∷ ts) = with_separator t (joined (u ∷ ts))

-- The reasons of the fits, each once and in the order of their texts.
unfoldable pub reason_of : {R : Type 0} → List (Fit R) → String
unfolding given joined
reason_of fs = joined (
    given
      ("insufficient cpu" ∷ "insufficient memory" ∷ "node is cordoned" ∷ "node is not ready"
        ∷ "node selector does not match" ∷ [])
      fs)

unfoldable pub marked : {R : Type 0} → String → Pod R → Pod R
marked reason p =
    if str_eq p.unschedulable_reason reason
    then p
    else record p { phase = "Pending"; unschedulable_reason = reason }

-- `_set_condition` on the pods of the store.
unfoldable pub set_condition : {R : Type 0} → String → String → List (Pod R) → List (Pod R)
unfolding marked
set_condition k reason [] = []
set_condition k reason (p ∷ ps) =
    let rest = set_condition k reason ps in
    if str_eq p.key k then marked reason p ∷ rest else p ∷ rest

-- The end of `reconcile` for a pod that it read.
unfoldable pub place :
    {R : Type 0} → Pod R → List (Fit R) → Option (String × R) → List (Pod R) → List (Pod R)
unfolding bind set_condition reason_of
place p fits none ps = set_condition p.key (reason_of fits) ps
place p fits (some (node, s)) ps = bind p.key node ps

unfoldable pub reconcile :
    (f : Float)
    → Bool
    → Pod f.Number
    → List (Node f.Number)
    → List (Pod f.Number)
    → List (Pod f.Number)
unfolding evaluate best_of place is_finished
reconcile f spread p ns ps =
    if not (str_eq p.node_name "") || is_finished p
    then ps
    else let fits = evaluate f spread p ps ns in place p fits (best_of f none fits) ps
