-- ===== src/Orchestrator/Workloads/Progress.antt =====
-- workloads.py: a rollout whose pods follow comes to its end.
use container_platform.Prelude.{
  ℕ, ◌+◌, ◌-◌, ◌≤◌, ◌<◌, String, ◌≡◌, refl, ap, subst, ◌∙◌, inl, inr, List, [], ◌∷◌, arith, All,
  str_eq, Bool-cases, eq_iff, length,
}
use container_platform.Orchestrator.Workloads.{
  ReplicaSet, Deployment, total, clamped_available, scale_up, roll,
}
use container_platform.Orchestrator.Workloads.Parts.{
  target_of, old_of, requested, total_parts, named, target_of-none,
}
use container_platform.Orchestrator.Workloads.Rolling.{IsTarget, scale_up_parts, roll-IsRolled}
use container_platform.Orchestrator.Workloads.Serving.{target_of-clamped_available}

-- The pods of each set are as many as it asks for, and available.
abbrev pub IsSettled : (String → ℕ) → List ReplicaSet → Type 0
IsSettled pods sets = All (λ rs. pods rs.name ≡ rs.replicas) sets

old_of-settled :
    (pods : String → ℕ) (name : String) (sets : List ReplicaSet)
    → IsSettled pods sets
    → old_of (clamped_available pods) name sets ≡ old_of requested name sets
unfolding total clamped_available
old_of-settled pods name [] h = refl
old_of-settled pods name (rs ∷ sets) h = elim (Bool-cases (str_eq rs.name name)) [
  | inl same ↦ rw same (omega (arith, old_of-settled pods name sets h.1))
  | inr other ↦ rw other (omega (arith, h.0, old_of-settled pods name sets h.1))
]

target_of-settled :
    (pods : String → ℕ) (name : String) (sets : List ReplicaSet)
    → IsSettled pods sets
    → named name sets ≡ 1
    → pods name ≡ target_of requested name sets
unfolding total
target_of-settled pods name [] h e = absurd (omega (arith, e))
target_of-settled pods name (rs ∷ sets) h e = elim (Bool-cases (str_eq rs.name name)) [
  | inl same ↦
      let gone : named name sets ≡ 0 = omega (arith, rw same at e) in
      let n : pods rs.name ≡ pods name = ap pods ((eq_iff rs.name name).0 same) in
      rw same (omega (arith, n, h.0, target_of-none requested name sets gone))
  | inr other ↦
      rw other (omega (arith, target_of-settled pods name sets h.1 (omega (arith, rw other at e))))
]

-- The replicas that a rollout has still to add or to take away.
abbrev pub left_to_do : Deployment → String → List ReplicaSet → ℕ
left_to_do d name sets =
    (d.replicas - target_of requested name sets)
    + (target_of requested name sets - d.replicas)
    + old_of requested name sets

pub roll_progress :
    (d : Deployment) (target : ReplicaSet) (pods : String → ℕ) (sets : List ReplicaSet)
    → IsTarget target sets
    → IsSettled pods sets
    → 0 < d.max_surge + d.max_unavailable
    → left_to_do d target.name (roll d target pods pods sets) ≤ left_to_do d target.name sets - 1
roll_progress d target pods sets v settled moves =
    let name = target.name in
    let c = clamped_available pods in
    let up = scale_up d.replicas d.max_surge target sets in
    let r = roll-IsRolled d target pods pods sets v in
    let all : target.replicas + old_of requested name sets ≡ total requested sets =
      omega (arith, v.spec, total_parts requested name sets) in
    let (up_target, up_named, up_old) = scale_up_parts d target sets _ all v in
    let in_target = target_of-clamped_available pods name up up_named in
    let in_total = total_parts c name up in
    let o = up_old c ∙ old_of-settled pods name sets settled in
    let t = target_of-settled pods name sets settled v.once in
    let spec = v.spec in
    let a = r.target_part in
    let b = r.old_part in ground (arith, up_target, in_target, in_total, o, t, spec, a, b, moves)

-- One pass: the set that it takes for the new one, and the pods that it sees.
pub record Pass : Type 0 where
  pub target : ReplicaSet
  pub pods : String → ℕ

unfoldable pub roll_passes : Deployment → List Pass → List ReplicaSet → List ReplicaSet
unfolding roll
roll_passes d [] sets = sets
roll_passes d (p ∷ ps) sets = roll_passes d ps (roll d p.target p.pods p.pods sets)

-- Each pass takes the set named `name` for the new one, and before it the pods have followed.
abbrev pub Follows : Deployment → String → List Pass → List ReplicaSet → Type 0
Follows d name [] sets = Unit
Follows d name (p ∷ ps) sets =
    (p.target.name ≡ name)
    × IsTarget p.target sets
    × IsSettled p.pods sets
    × Follows d name ps (roll d p.target p.pods p.pods sets)

-- If maxSurge or maxUnavailable is not zero, and the pods follow what is asked for between the
-- passes, then after as many passes as there are replicas to add and to take away the new set has
-- the desired number of replicas, and the old sets have none.
pub roll_passes_finish :
    (d : Deployment) (name : String) (passes : List Pass) (sets : List ReplicaSet)
    → 0 < d.max_surge + d.max_unavailable
    → Follows d name passes sets
    → left_to_do d name sets ≤ length passes
    → (target_of requested name (roll_passes d passes sets) ≡ d.replicas)
      × (old_of requested name (roll_passes d passes sets) ≡ 0)
unfolding roll_passes
roll_passes_finish d name [] sets moves follows enough =
    (omega (arith, enough), omega (arith, enough))
roll_passes_finish d name (p ∷ ps) sets moves (same, v, settled, follows) enough =
    let next = roll d p.target p.pods p.pods sets in
    let step : left_to_do d name next ≤ left_to_do d name sets - 1 =
      subst (λ k. left_to_do d k next ≤ left_to_do d k sets - 1) same
        (roll_progress d p.target p.pods sets v settled moves) in
    let less : left_to_do d name next ≤ length ps = omega (arith, step, enough) in
    roll_passes_finish d name ps (roll d p.target p.pods p.pods sets) moves follows less
