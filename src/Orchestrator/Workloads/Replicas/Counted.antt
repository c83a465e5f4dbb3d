-- ===== src/Orchestrator/Workloads/Replicas/Counted.antt =====
-- workloads.py: the pods that a pass of `ReplicaSetController.reconcile` leaves, counted by what they
-- are.
use container_platform.Prelude.Dict
use container_platform.Prelude.Dict.{Dict}
use container_platform.Prelude.{
  ℕ, suc, ◌+◌, ◌-◌, ◌≤◌, min, String, ◌≡◌, refl, ap, ◌∙◌, sym, subst, ◌≢◌, ◌⊎◌, inl, inr, true,
  false, Option, none, some, List, [], ◌∷◌, arith, length, take, str_eq, Bool-cases, eq_iff,
}
use container_platform.Orchestrator.Workloads.{Phase, Pod, is_ready, is_terminal}
use container_platform.Orchestrator.Workloads.Replicas.{
  PodSet, has_value, has_labels, update_all, is_alive, alive_of, reconcile_pods,
}
use container_platform.Orchestrator.Workloads.Replicas.Converging.{keyed, AreFree, converges_lem}
use container_platform.Orchestrator.Workloads.Replicas.Ready.{readies, ready_lem}

-- The labels have the values of the selector.
abbrev pub AreSelected : Dict String → Dict String → Type 0
AreSelected [] labels = Unit
AreSelected ((k, v) ∷ selector) labels =
    (Dict.lookup k labels ≡ some v) × AreSelected selector labels

-- The set owns the pod and selects it, and the pod has not ended.
abbrev pub IsCounted : PodSet → Pod → Type 0
IsCounted rs p =
    AreSelected rs.selector p.labels
    × (p.owner ≡ rs.key)
    × (p.phase ≢ Phase.succeeded)
    × (p.phase ≢ Phase.failed)

-- So many of the pods have a property.
abbrev pub AreSoMany : (Pod → Type 0) → List Pod → ℕ → Type 0
AreSoMany P [] n = n ≡ 0
AreSoMany P (p ∷ ps) n =
    (P p × ((m : ℕ) × (n ≡ suc m) × AreSoMany P ps m)) ⊎ ((P p → ⊥) × AreSoMany P ps n)

AreSoMany-unique :
    (P : Pod → Type 0) (ps : List Pod) (a b : ℕ) → AreSoMany P ps a → AreSoMany P ps b → a ≡ b
AreSoMany-unique P [] a b x y = x ∙ sym y
AreSoMany-unique P (p ∷ ps) a b (inl (holds, (m, e, x))) (inl (also, (n, e', y))) =
    e ∙ ap suc (AreSoMany-unique P ps m n x y) ∙ sym e'
AreSoMany-unique P (p ∷ ps) a b (inl (holds, x)) (inr (never, y)) = absurd (never holds)
AreSoMany-unique P (p ∷ ps) a b (inr (never, x)) (inl (holds, y)) = absurd (never holds)
AreSoMany-unique P (p ∷ ps) a b (inr (never, x)) (inr (also, y)) = AreSoMany-unique P ps a b x y

has_value_lem : (o : Option String) (v : String) → has_value o v ≡ true → o ≡ some v
unfolding has_value
has_value_lem none v h = let e : false ≡ true = h in absurd (cc e)
has_value_lem (some w) v h = ap some ((eq_iff w v).0 h)

has_value-some : (o : Option String) (v : String) → o ≡ some v → has_value o v ≡ true
unfolding has_value
has_value-some o v e = rw e ((eq_iff v v).1 refl)

has_labels-AreSelected :
    (selector labels : Dict String)
    → has_labels selector labels ≡ true
    → AreSelected selector labels
unfolding has_labels
has_labels-AreSelected [] labels h = tt
has_labels-AreSelected ((k, v) ∷ selector) labels h =
    elim (Bool-cases (has_value (Dict.lookup k labels) v)) [
      | inl same ↦ (
        has_value_lem (Dict.lookup k labels) v same,
        has_labels-AreSelected selector labels (rw same at h),
      )
      | inr other ↦ let e : false ≡ true = rw other at h in absurd (cc e)
    ]

AreSelected-has_labels :
    (selector labels : Dict String)
    → AreSelected selector labels
    → has_labels selector labels ≡ true
unfolding has_labels
AreSelected-has_labels [] labels h = refl
AreSelected-has_labels ((k, v) ∷ selector) labels h =
    rw (has_value-some (Dict.lookup k labels) v h.0) (AreSelected-has_labels selector labels h.1)

lasts :
    (phase : Phase) → is_terminal phase ≡ false → (phase ≢ Phase.succeeded) × (phase ≢ Phase.failed)
unfolding is_terminal
lasts phase h =
    (λ e. let f : true ≡ false = rw e at h in cc f, λ e. let f : true ≡ false = rw e at h in cc f)

ended :
    (phase : Phase) → is_terminal phase ≡ true → (phase ≡ Phase.succeeded) ⊎ (phase ≡ Phase.failed)
unfolding is_terminal
ended Phase.succeeded h = inl refl
ended Phase.failed h = inr refl
ended Phase.pending h = absurd (cc h)
ended Phase.scheduled h = absurd (cc h)
ended Phase.running h = absurd (cc h)
ended Phase.ready h = absurd (cc h)
ended Phase.crash_loop h = absurd (cc h)

is_alive-IsCounted : (rs : PodSet) (p : Pod) → is_alive rs p ≡ true → IsCounted rs p
unfolding is_alive
is_alive-IsCounted rs p h =
    let labels : has_labels rs.selector p.labels ≡ true = ground (arith, h) in
    let own : str_eq p.owner rs.key ≡ true = ground (arith, h) in
    let alive : is_terminal p.phase ≡ false = ground (arith, h) in
    (
      has_labels-AreSelected rs.selector p.labels labels,
      (eq_iff p.owner rs.key).0 own,
      (lasts p.phase alive).0,
      (lasts p.phase alive).1,
    )

IsCounted-is_alive : (rs : PodSet) (p : Pod) → IsCounted rs p → is_alive rs p ≡ true
unfolding is_alive
IsCounted-is_alive rs p h =
    let labels = AreSelected-has_labels rs.selector p.labels h.0 in
    let own = (eq_iff p.owner rs.key).1 h.1 in
    elim (Bool-cases (is_terminal p.phase)) [
      | inl end ↦ elim (ended p.phase end) [ inl e ↦ absurd (h.2 e) | inr e ↦ absurd (h.3 e) ]
      | inr alive ↦ rw (labels, own, alive) refl
    ]

not_alive : (rs : PodSet) (p : Pod) → is_alive rs p ≡ false → IsCounted rs p → ⊥
not_alive rs p h c = let e : true ≡ false = sym (IsCounted-is_alive rs p c) ∙ h in cc e

length-alive_of :
    (rs : PodSet) (ps : List Pod) → AreSoMany (IsCounted rs) ps (length (alive_of rs ps))
unfolding alive_of
length-alive_of rs [] = refl
length-alive_of rs (p ∷ ps) = elim (Bool-cases (is_alive rs p)) [
  | inl alive ↦
      rw alive (
        inl (is_alive-IsCounted rs p alive, (length (alive_of rs ps), refl, length-alive_of rs ps)))
  | inr other ↦ rw other (inr (not_alive rs p other, length-alive_of rs ps))
]

-- A pod of the set that is Ready.
abbrev pub IsReadyOf : PodSet → Pod → Type 0
IsReadyOf rs p = IsCounted rs p × (p.phase ≡ Phase.ready)

is_ready_lem : (phase : Phase) → is_ready phase ≡ true → phase ≡ Phase.ready
unfolding is_ready
is_ready_lem Phase.ready h = refl
is_ready_lem Phase.succeeded h = absurd (cc h)
is_ready_lem Phase.failed h = absurd (cc h)
is_ready_lem Phase.pending h = absurd (cc h)
is_ready_lem Phase.scheduled h = absurd (cc h)
is_ready_lem Phase.running h = absurd (cc h)
is_ready_lem Phase.crash_loop h = absurd (cc h)

not_ready : (phase : Phase) → is_ready phase ≡ false → phase ≢ Phase.ready
unfolding is_ready
not_ready phase h e = let f : true ≡ false = rw e at h in cc f

pub readies-alive_of :
    (rs : PodSet) (ps : List Pod) → AreSoMany (IsReadyOf rs) ps (readies (alive_of rs ps))
unfolding alive_of
readies-alive_of rs [] = refl
readies-alive_of rs (p ∷ ps) = elim (Bool-cases (is_alive rs p)) [
  | inl alive ↦ elim (Bool-cases (is_ready p.phase)) [
    | inl here ↦
        rw (alive, here)
          (inl (
            (is_alive-IsCounted rs p alive, is_ready_lem p.phase here),
            (readies (alive_of rs ps), omega arith, readies-alive_of rs ps),
          ))
    | inr other ↦
        let same : 0 + readies (alive_of rs ps) ≡ readies (alive_of rs ps) = omega arith in
        rw (alive, other, same) (inr (λ c. not_ready p.phase other c.1, readies-alive_of rs ps))
  ]
  | inr other ↦ rw other (inr (λ c. not_alive rs p other c.0, readies-alive_of rs ps))
]

-- After a pass as many pods as the set asks for are owned by it, have the labels of its selector and
-- have not ended, if the living ones among them have different keys before, the labels that the set
-- gives to its pods have the values of its selector, and the names that the pass tries are enough and
-- free.
pub reconcile_pods_converges :
    (now : ℕ) (rs : PodSet) (desired : ℕ) (keys : List String) (pods : List Pod)
    → ((k : String) → keyed k (alive_of rs pods) ≤ 1)
    → AreSelected rs.selector (update_all rs.selector rs.template_labels)
    → desired ≤ length (alive_of rs pods) + length keys
    → AreFree (take (desired - length (alive_of rs pods)) keys) now rs pods
    → AreSoMany (IsCounted rs) (reconcile_pods now rs desired keys pods) desired
reconcile_pods_converges now rs desired keys pods once own enough free =
    let after = reconcile_pods now rs desired keys pods in
    let own' = AreSelected-has_labels rs.selector (update_all rs.selector rs.template_labels) own in
    subst (AreSoMany (IsCounted rs) after)
      (converges_lem now rs desired keys pods once own' enough free) (length-alive_of rs after)

-- A pass leaves as many Ready pods as there were, up to the number that is asked for, counted among
-- the pods that the set owns, that have the labels of its selector and have not ended, if the living
-- ones have different keys: a Ready pod is deleted only when no other is left to delete.
pub reconcile_pods_ready :
    (now : ℕ) (rs : PodSet) (desired : ℕ) (keys : List String) (pods : List Pod) (n : ℕ)
    → ((k : String) → keyed k (alive_of rs pods) ≤ 1)
    → AreSoMany (IsReadyOf rs) pods n
    → AreSoMany (IsReadyOf rs) (reconcile_pods now rs desired keys pods) (min n desired)
reconcile_pods_ready now rs desired keys pods n once h =
    let after = reconcile_pods now rs desired keys pods in
    let same =
      AreSoMany-unique (IsReadyOf rs) pods (readies (alive_of rs pods)) n (readies-alive_of rs pods)
        h in
    subst (AreSoMany (IsReadyOf rs) after)
      (ready_lem now rs desired keys pods once ∙ ap (λ k. min k desired) same)
      (readies-alive_of rs after)
