-- ===== src/Orchestrator/Workloads/Parts.antt =====
-- workloads.py: what each step does to the new set and to the old ones.
use container_platform.Prelude.{
  ℕ, ◌+◌, ◌-◌, ◌≤◌, String, ◌≡◌, refl, ap, ◌∙◌, inl, inr, true, List, [], ◌∷◌, arith, str_eq,
  if◌then◌else◌, Bool-cases,
}
use container_platform.Orchestrator.Workloads.{
  ReplicaSet, total, scale, shrink, clamped_available, retire,
}

-- The sum over the sets with a name, and that over the others.
abbrev pub target_of : (ReplicaSet → ℕ) → String → List ReplicaSet → ℕ
target_of f name sets = total (λ rs. if str_eq rs.name name then f rs else 0) sets

abbrev pub old_of : (ReplicaSet → ℕ) → String → List ReplicaSet → ℕ
old_of f name sets = total (λ rs. if str_eq rs.name name then 0 else f rs) sets

abbrev pub requested : ReplicaSet → ℕ
requested rs = rs.replicas

pub total_parts :
    (f : ReplicaSet → ℕ) (name : String) (sets : List ReplicaSet)
    → total f sets ≡ target_of f name sets + old_of f name sets
unfolding total
total_parts f name [] = refl
total_parts f name (rs ∷ sets) = ground (arith, total_parts f name sets)

pub old_of-scale :
    (f : ReplicaSet → ℕ) (name : String) (n : ℕ) (sets : List ReplicaSet)
    → old_of f name (scale name n sets) ≡ old_of f name sets
unfolding total scale
old_of-scale f name n [] = refl
old_of-scale f name n (rs ∷ sets) = elim (Bool-cases (str_eq rs.name name)) [
  | inl same ↦ rw same (rw same (omega (arith, old_of-scale f name n sets)))
  | inr other ↦ rw other (rw other (ap (λ k. f rs + k) (old_of-scale f name n sets)))
]

-- How many sets have the name.
abbrev pub named : String → List ReplicaSet → ℕ
named name sets = target_of (λ rs. 1) name sets

pub named-scale :
    (name : String) (n : ℕ) (sets : List ReplicaSet)
    → named name (scale name n sets) ≡ named name sets
unfolding total scale
named-scale name n [] = refl
named-scale name n (rs ∷ sets) = elim (Bool-cases (str_eq rs.name name)) [
  | inl same ↦ rw same (rw same (ap (λ k. 1 + k) (named-scale name n sets)))
  | inr other ↦ rw other (rw other (omega (arith, named-scale name n sets)))
]

pub target_of-none :
    (f : ReplicaSet → ℕ) (name : String) (sets : List ReplicaSet)
    → named name sets ≡ 0
    → target_of f name sets ≡ 0
unfolding total
target_of-none f name [] e = refl
target_of-none f name (rs ∷ sets) e = elim (Bool-cases (str_eq rs.name name)) [
  | inl same ↦ absurd (omega (arith, rw same at e))
  | inr other ↦ rw other (omega (arith, target_of-none f name sets (omega (arith, rw other at e))))
]

-- The one set with the name counts what the changed set counts.
pub target_of-scale :
    (f : ReplicaSet → ℕ) (name : String) (n v : ℕ) (sets : List ReplicaSet)
    → ((rs : ReplicaSet) → str_eq rs.name name ≡ true → f (record rs { replicas = n }) ≡ v)
    → named name sets ≡ 1
    → target_of f name (scale name n sets) ≡ v
unfolding total scale
target_of-scale f name n v [] h e = absurd (omega (arith, e))
target_of-scale f name n v (rs ∷ sets) h e = elim (Bool-cases (str_eq rs.name name)) [
  | inl same ↦
      let gone : named name sets ≡ 0 = omega (arith, rw same at e) in
      let none_left = target_of-none f name (scale name n sets) (named-scale name n sets ∙ gone) in
      rw same (rw same (omega (arith, h rs same, none_left)))
  | inr other ↦
      rw other
        (rw other (omega (arith, target_of-scale f name n v sets h (omega (arith, rw other at e)))))
]

pub target_of-shrink :
    (f : ReplicaSet → ℕ) (name : String) (s : ℕ) (sets : List ReplicaSet)
    → target_of f name (shrink name s sets).0 ≡ target_of f name sets
unfolding total shrink
target_of-shrink f name s [] = refl
target_of-shrink f name s (rs ∷ sets) = elim (Bool-cases (str_eq rs.name name)) [
  | inl same ↦ rw same (rw same (ap (λ k. f rs + k) (target_of-shrink f name s sets)))
  | inr other ↦ rw other (rw other (omega (arith, target_of-shrink f name s sets)))
]

pub shrink_lem :
    (name : String) (s : ℕ) (sets : List ReplicaSet)
    → (old_of requested name (shrink name s sets).0 ≡ old_of requested name sets - s)
      × ((shrink name s sets).1 ≡ s - old_of requested name sets)
unfolding total shrink
shrink_lem name s [] = (omega arith, omega arith)
shrink_lem name s (rs ∷ sets) =
    let ih = shrink_lem name s sets in
    elim (Bool-cases (str_eq rs.name name)) [
      | inl same ↦ rw same (rw same (omega (arith, ih.0), omega (arith, ih.1)))
      | inr other ↦ rw other (rw other (omega (arith, ih.0, ih.1), omega (arith, ih.0, ih.1)))
    ]

-- What `shrink` takes from the available pods of the old sets is what it takes from the surplus.
pub shrink-available :
    (fresh : String → ℕ) (name : String) (s : ℕ) (sets : List ReplicaSet)
    → old_of (clamped_available fresh) name sets + (shrink name s sets).1
      ≤ old_of (clamped_available fresh) name (shrink name s sets).0 + s
unfolding total shrink clamped_available
shrink-available fresh name s [] = omega arith
shrink-available fresh name s (rs ∷ sets) =
    let ih = shrink-available fresh name s sets in
    elim (Bool-cases (str_eq rs.name name)) [
      | inl same ↦ rw same (rw same (omega (arith, ih)))
      | inr other ↦ rw other (rw other (omega (arith, ih)))
    ]

pub target_of-retire :
    (f : ReplicaSet → ℕ) (name : String) (sets : List ReplicaSet)
    → target_of f name (retire name sets) ≡ target_of f name sets
unfolding total retire
target_of-retire f name [] = refl
target_of-retire f name (rs ∷ sets) = elim (Bool-cases (str_eq rs.name name)) [
  | inl same ↦ rw same (rw same (ap (λ k. f rs + k) (target_of-retire f name sets)))
  | inr other ↦ rw other (rw other (omega (arith, target_of-retire f name sets)))
]

pub old_of-retire :
    (name : String) (sets : List ReplicaSet) → old_of requested name (retire name sets) ≡ 0
unfolding total retire
old_of-retire name [] = refl
old_of-retire name (rs ∷ sets) = elim (Bool-cases (str_eq rs.name name)) [
  | inl same ↦ rw same (rw same (omega (arith, old_of-retire name sets)))
  | inr other ↦ rw other (rw other (omega (arith, old_of-retire name sets)))
]
