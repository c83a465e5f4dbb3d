-- ===== src/Orchestrator/Workloads/Rolling.antt =====
-- workloads.py: what a pass of `DeploymentController.reconcile` asks of the new set and the old ones.
use container_platform.Prelude.{
  ℕ, ◌+◌, ◌-◌, ◌≤◌, ◌<◌, min, max, String, ◌≡◌, refl, ap, ◌∙◌, inl, inr, Bool, true, false, ◌&&◌,
  List, arith, ltb, leb, if◌then◌else◌, Bool-cases,
}
use container_platform.Orchestrator.Workloads.{
  ReplicaSet, Deployment, total, shrink, clamped_available, retire, scale_up, scale_down, settle,
  roll,
}
use container_platform.Orchestrator.Workloads.Parts.{
  target_of, old_of, requested, total_parts, old_of-scale, named, named-scale, target_of-scale,
  target_of-shrink, shrink_lem, target_of-retire, old_of-retire,
}

-- The set that `_ensure_target` gives is in the list, once.
pub record IsTarget (target : ReplicaSet) (sets : List ReplicaSet) : Type 0 where
  pub once : named target.name sets ≡ 1
  pub spec : target_of requested target.name sets ≡ target.replicas

-- The number that step 1 asks of the new set.
abbrev pub raised : Deployment → ℕ → ℕ → ℕ
raised d t o =
    if ltb 0 (d.replicas + d.max_surge - (t + o)) && ltb t d.replicas
    then t + min (d.replicas + d.max_surge - (t + o)) (d.replicas - t)
    else t

pub scale_up_parts :
    (d : Deployment) (target : ReplicaSet) (sets : List ReplicaSet) (n : ℕ)
    → n ≡ total requested sets
    → IsTarget target sets
    → (target_of requested target.name (scale_up d.replicas d.max_surge target sets) ≡ (
        if ltb 0 (d.replicas + d.max_surge - n) && ltb target.replicas d.replicas
        then target.replicas + min (d.replicas + d.max_surge - n) (d.replicas - target.replicas)
        else target.replicas))
      × (named target.name (scale_up d.replicas d.max_surge target sets) ≡ 1)
      × ((f : ReplicaSet → ℕ)
          → old_of f target.name (scale_up d.replicas d.max_surge target sets)
            ≡ old_of f target.name sets)
unfolding scale_up
scale_up_parts d target sets n e v =
    rw⁻¹ e
      (elim (Bool-cases (ltb 0 (d.replicas + d.max_surge - n) && ltb target.replicas d.replicas)) [
        | inl up ↦ rw up (
          target_of-scale requested target.name _ _ sets (λ rs h. refl) v.once,
          named-scale target.name _ sets ∙ v.once,
          λ f. old_of-scale f target.name _ sets,
        )
        | inr stay ↦ rw stay (v.spec, v.once, λ f. refl)
      ])

-- The surplus of step 2.
abbrev pub surplus : Deployment → ReplicaSet → (String → ℕ) → List ReplicaSet → ℕ
surplus d target fresh sets =
    total (clamped_available fresh) (scale_up d.replicas d.max_surge target sets)
    - (d.replicas - d.max_unavailable)

-- What a pass leaves: the number asked of the new set, of the old ones, and the one new set.
pub record IsRolled (d : Deployment) (target : ReplicaSet) (available fresh : String → ℕ)
    (sets after : List ReplicaSet) : Type 0 where
  pub target_part : target_of requested target.name after ≡ (
      if ltb d.replicas target.replicas
      then d.replicas
      else raised d target.replicas (old_of requested target.name sets))
  pub old_part : old_of requested target.name after ≡ (
      if leb d.replicas (available target.name)
      then 0
      else old_of requested target.name sets - surplus d target fresh sets)
  pub named_part : named target.name after ≡ 1

settle_parts :
    (desired : ℕ) (target : ReplicaSet) (sets : List ReplicaSet)
    → named target.name sets ≡ 1
    → (target_of requested target.name (settle desired target sets)
        ≡ (if ltb desired target.replicas then desired else target_of requested target.name sets))
      × (old_of requested target.name (settle desired target sets)
          ≡ old_of requested target.name sets)
      × (named target.name (settle desired target sets) ≡ 1)
unfolding settle
settle_parts desired target sets once = elim (Bool-cases (ltb desired target.replicas)) [
  | inl less ↦ rw less (
    target_of-scale requested target.name desired desired sets (λ rs h. refl) once,
    old_of-scale requested target.name desired sets,
    named-scale target.name desired sets ∙ once,
  )
  | inr more ↦ rw more (refl, refl, once)
]

retire_parts :
    (b : Bool) (name : String) (sets : List ReplicaSet)
    → (target_of requested name (if b then retire name sets else sets)
        ≡ target_of requested name sets)
      × (old_of requested name (if b then retire name sets else sets)
          ≡ (if b then 0 else old_of requested name sets))
      × (named name (if b then retire name sets else sets) ≡ named name sets)
retire_parts true name sets = (
  target_of-retire requested name sets,
  old_of-retire name sets,
  target_of-retire (λ rs. 1) name sets,
)
retire_parts false name sets = (refl, refl, refl)

pub roll-IsRolled :
    (d : Deployment) (target : ReplicaSet) (available fresh : String → ℕ) (sets : List ReplicaSet)
    → IsTarget target sets
    → IsRolled d target available fresh sets (roll d target available fresh sets)
unfolding roll scale_down
roll-IsRolled d target available fresh sets v =
    let name = target.name in
    let up = scale_up d.replicas d.max_surge target sets in
    let s = surplus d target fresh sets in
    let down = (shrink name s up).0 in
    let b = leb d.replicas (available name) in
    let rest = if b then retire name down else down in
    let all : target.replicas + old_of requested name sets ≡ total requested sets =
      omega (arith, v.spec, total_parts requested name sets) in
    let (up_target, up_named, up_old) = scale_up_parts d target sets _ all v in
    let (shrunk, left) = shrink_lem name s up in
    let (r_target, r_old, r_named) = retire_parts b name down in
    let once : named name rest ≡ 1 = r_named ∙ target_of-shrink (λ rs. 1) name s up ∙ up_named in
    let (s_target, s_old, s_named) = settle_parts d.replicas target rest once in
    record {
      target_part =
          s_target
          ∙ ap (λ k. if ltb d.replicas target.replicas then d.replicas else k)
              (r_target ∙ target_of-shrink requested name s up ∙ up_target);
      old_part =
          s_old
          ∙ r_old
          ∙ ap (λ k. if b then 0 else k) (shrunk ∙ ap (λ k. k - s) (up_old requested));
      named_part = s_named;
    }

-- A pass never asks for more replicas in all than the desired number and the surge, unless more were
-- asked for before it.
pub roll_surge :
    (d : Deployment) (target : ReplicaSet) (available fresh : String → ℕ) (sets : List ReplicaSet)
    → IsTarget target sets
    → total requested (roll d target available fresh sets)
      ≤ max (total requested sets) (d.replicas + d.max_surge)
roll_surge d target available fresh sets v =
    let r = roll-IsRolled d target available fresh sets v in
    let after = total_parts requested target.name (roll d target available fresh sets) in
    let before = total_parts requested target.name sets in
    ground (arith, r.target_part, r.old_part, after, before, v.spec)

-- If enough pods of the new set are available, but fewer were asked of it and there is no room to
-- ask for more, the pass ends all old sets, so that only these fewer are asked for.
pub roll_retires :
    (d : Deployment) (target : ReplicaSet) (available fresh : String → ℕ) (sets : List ReplicaSet)
    → IsTarget target sets
    → d.replicas ≤ available target.name
    → target.replicas < d.replicas
    → d.replicas + d.max_surge ≤ total requested sets
    → total requested (roll d target available fresh sets) ≡ target.replicas
roll_retires d target available fresh sets v enough fewer full =
    let r = roll-IsRolled d target available fresh sets v in
    let after = total_parts requested target.name (roll d target available fresh sets) in
    let before = total_parts requested target.name sets in
    ground (arith, r.target_part, r.old_part, after, before, v.spec)
