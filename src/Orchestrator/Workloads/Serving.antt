-- ===== src/Orchestrator/Workloads/Serving.antt =====
-- workloads.py: the pods that stay available in a pass of `DeploymentController.reconcile`.
use container_platform.Prelude.{
  ℕ, ◌+◌, ◌-◌, ◌≤◌, min, String, ◌≡◌, refl, ap, ◌∙◌, inl, inr, false, List, [], ◌∷◌, arith, ltb,
  leb, leb→le, str_eq, if◌then◌else◌, Bool-cases, eq_iff,
}
use container_platform.Orchestrator.Workloads.{
  ReplicaSet, Deployment, total, shrink, clamped_available, retire, scale_up, scale_down, settle,
  roll,
}
use container_platform.Orchestrator.Workloads.Parts.{
  target_of, old_of, requested, total_parts, old_of-scale, named, target_of-none, shrink-available,
}
use container_platform.Orchestrator.Workloads.Rolling.{
  IsTarget, surplus, scale_up_parts, roll-IsRolled,
}

pub target_of-clamped_available :
    (fresh : String → ℕ) (name : String) (sets : List ReplicaSet)
    → named name sets ≡ 1
    → target_of (clamped_available fresh) name sets
      ≡ min (fresh name) (target_of requested name sets)
unfolding total clamped_available
target_of-clamped_available fresh name [] e = absurd (omega (arith, e))
target_of-clamped_available fresh name (rs ∷ sets) e = elim (Bool-cases (str_eq rs.name name)) [
  | inl same ↦
      let gone : named name sets ≡ 0 = omega (arith, rw same at e) in
      let n : fresh rs.name ≡ fresh name = ap fresh ((eq_iff rs.name name).0 same) in
      let none_left = target_of-none (clamped_available fresh) name sets gone in
      let none_asked = target_of-none requested name sets gone in
      rw same (omega (arith, n, none_left, none_asked))
  | inr other ↦
      rw other
        (omega (arith, target_of-clamped_available fresh name sets (omega (arith, rw other at e))))
]

old_of-settle :
    (f : ReplicaSet → ℕ) (desired : ℕ) (target : ReplicaSet) (sets : List ReplicaSet)
    → old_of f target.name (settle desired target sets) ≡ old_of f target.name sets
unfolding settle
old_of-settle f desired target sets = elim (Bool-cases (ltb desired target.replicas)) [
  | inl less ↦ rw less (old_of-scale f target.name desired sets)
  | inr more ↦ rw more refl
]

-- While the old sets are not ended, they lose no more than the surplus.
old_of-roll :
    (d : Deployment) (target : ReplicaSet) (available fresh : String → ℕ) (sets : List ReplicaSet)
    → IsTarget target sets
    → leb d.replicas (available target.name) ≡ false
    → old_of (clamped_available fresh) target.name sets
      ≤ old_of (clamped_available fresh) target.name (roll d target available fresh sets)
        + surplus d target fresh sets
unfolding roll scale_down
old_of-roll d target available fresh sets v early =
    let name = target.name in
    let c = clamped_available fresh in
    let up = scale_up d.replicas d.max_surge target sets in
    let s = surplus d target fresh sets in
    let down = (shrink name s up).0 in
    let all : target.replicas + old_of requested name sets ≡ total requested sets =
      omega (arith, v.spec, total_parts requested name sets) in
    let (up_target, up_named, up_old) = scale_up_parts d target sets _ all v in
    let settled : old_of c name (
          settle d.replicas target
            (if leb d.replicas (available name) then retire name down else down))
        ≡ old_of c name down =
      old_of-settle c d.replicas target _
      ∙ ap (λ b. old_of c name (if b then retire name down else down)) early in
    omega (arith, settled, up_old c, shrink-available fresh name s up)

-- If after the new set has grown at least `replicas - maxUnavailable` pods are available, with no
-- set counted above what is asked of it, then as many are after the whole pass. When enough new pods
-- were available at the start, this needs that as many were asked for and are still there.
pub roll_available :
    (d : Deployment) (target : ReplicaSet) (available fresh : String → ℕ) (sets : List ReplicaSet)
    → IsTarget target sets
    → d.replicas - d.max_unavailable
      ≤ total (clamped_available fresh) (scale_up d.replicas d.max_surge target sets)
    → (d.replicas ≤ available target.name
        → (d.replicas ≤ target.replicas) × (d.replicas ≤ fresh target.name))
    → d.replicas - d.max_unavailable
      ≤ total (clamped_available fresh) (roll d target available fresh sets)
roll_available d target available fresh sets v enough kept =
    let name = target.name in
    let c = clamped_available fresh in
    let up = scale_up d.replicas d.max_surge target sets in
    let out = roll d target available fresh sets in
    let r = roll-IsRolled d target available fresh sets v in
    let all : target.replicas + old_of requested name sets ≡ total requested sets =
      omega (arith, v.spec, total_parts requested name sets) in
    let (up_target, up_named, up_old) = scale_up_parts d target sets _ all v in
    let out_target = target_of-clamped_available fresh name out r.named_part in
    let in_target = target_of-clamped_available fresh name up up_named in
    let out_total = total_parts c name out in
    let in_total = total_parts c name up in
    elim (Bool-cases (leb d.replicas (available name))) [
      | inl late ↦
          let k = kept (leb→le _ _ late) in
          let t = r.target_part in ground (arith, out_target, out_total, t, k.0, k.1)
      | inr early ↦
          let o = old_of-roll d target available fresh sets v early in
          let u = up_old c in
          let t = r.target_part in
          ground (arith, out_target, out_total, in_target, in_total, up_target, o, u, t, enough)
    ]
