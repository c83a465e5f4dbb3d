-- ===== src/Orchestrator/Workloads/Replicas/Converging.antt =====
-- workloads.py: after a pass of `ReplicaSetController.reconcile` the count is right.
use container_platform.Prelude.{
  ℕ, zero, suc, ◌+◌, ◌-◌, ◌≤◌, String, ◌≡◌, refl, ap, ◌∙◌, sym, inl, inr, true, false, List, [],
  ◌∷◌, ◌++◌, arith, length, take, ltb, str_eq, if◌then◌else◌, Bool-cases, eq_iff, length-take,
  ltb→lt,
}
use container_platform.Orchestrator.Workloads.{Pod, is_terminal}
use container_platform.Orchestrator.Workloads.Replicas.{
  PodSet, has_labels, update_all, is_alive, alive_of, has_key, create_pod, create_pods, goes_before,
  insert_pod, sort_pods, delete_pod, delete_pods, reconcile_pods,
}

-- How many pods have the key.
abbrev pub keyed : String → List Pod → ℕ
keyed key [] = 0
keyed key (p ∷ ps) = let rest = keyed key ps in if str_eq p.key key then suc rest else rest

keyed-insert_pod :
    (key : String) (p : Pod) (ps : List Pod) → keyed key (insert_pod p ps) ≡ keyed key (p ∷ ps)
unfolding insert_pod
keyed-insert_pod key p [] = refl
keyed-insert_pod key p (q ∷ qs) = elim (Bool-cases (goes_before q p)) [
  | inl before ↦ let ih = keyed-insert_pod key p qs in rw before (ground (arith, ih))
  | inr after ↦ rw after refl
]

keyed-sort_pods : (key : String) (ps : List Pod) → keyed key (sort_pods ps) ≡ keyed key ps
unfolding sort_pods
keyed-sort_pods key [] = refl
keyed-sort_pods key (p ∷ ps) =
    let ih = keyed-sort_pods key ps in
    let e = keyed-insert_pod key p (sort_pods ps) in ground (arith, ih, e)

pub length-insert_pod : (p : Pod) (ps : List Pod) → length (insert_pod p ps) ≡ suc (length ps)
unfolding insert_pod
length-insert_pod p [] = refl
length-insert_pod p (q ∷ qs) = elim (Bool-cases (goes_before q p)) [
  | inl before ↦ rw before (ap suc (length-insert_pod p qs))
  | inr after ↦ rw after refl
]

pub length-sort_pods : (ps : List Pod) → length (sort_pods ps) ≡ length ps
unfolding sort_pods
length-sort_pods [] = refl
length-sort_pods (p ∷ ps) = length-insert_pod p (sort_pods ps) ∙ ap suc (length-sort_pods ps)

keyed-take : (key : String) (n : ℕ) (ps : List Pod) → keyed key (take n ps) ≤ keyed key ps
keyed-take key zero ps = omega arith
keyed-take key (suc n) [] = omega arith
keyed-take key (suc n) (p ∷ ps) = let ih = keyed-take key n ps in ground (arith, ih)

-- A delete takes the living pods with its key.
length-delete_pod :
    (key : String) (ps : List Pod) → length (delete_pod key ps) + keyed key ps ≡ length ps
unfolding delete_pod
length-delete_pod key [] = refl
length-delete_pod key (p ∷ ps) = elim (Bool-cases (str_eq p.key key)) [
  | inl same ↦ rw same (omega (arith, length-delete_pod key ps))
  | inr other ↦ rw other (omega (arith, length-delete_pod key ps))
]

pub alive_of-delete_pod :
    (rs : PodSet) (key : String) (ps : List Pod)
    → alive_of rs (delete_pod key ps) ≡ delete_pod key (alive_of rs ps)
unfolding alive_of delete_pod
alive_of-delete_pod rs key [] = refl
alive_of-delete_pod rs key (p ∷ ps) =
    let ih = alive_of-delete_pod rs key ps in
    elim (Bool-cases (str_eq p.key key)) [
      | inl same ↦ elim (Bool-cases (is_alive rs p)) [
        | inl alive ↦ rw (same, alive, same) ih
        | inr gone ↦ rw (same, gone) ih
      ]
      | inr other ↦ elim (Bool-cases (is_alive rs p)) [
        | inl alive ↦ rw (other, alive, other) (ap (λ l. p ∷ l) ih)
        | inr gone ↦ rw (other, gone) ih
      ]
    ]

keyed-delete_pod :
    (key k : String) (ps : List Pod)
    → keyed k (delete_pod key ps) ≡ (if str_eq key k then 0 else keyed k ps)
unfolding delete_pod
keyed-delete_pod key k [] = ground arith
keyed-delete_pod key k (p ∷ ps) =
    let ih = keyed-delete_pod key k ps in
    elim (Bool-cases (str_eq p.key key)) [
      | inl same ↦ rw same (ground (arith, ih, eq_iff p.key key, eq_iff p.key k, eq_iff key k))
      | inr other ↦ rw other (ground (arith, ih, eq_iff p.key key, eq_iff p.key k, eq_iff key k))
    ]

-- Deleting some of the living pods, whose keys are all different.
length-delete_pods :
    (rs : PodSet) (ds ps : List Pod)
    → ((k : String) → keyed k ds ≤ keyed k (alive_of rs ps))
    → ((k : String) → keyed k (alive_of rs ps) ≤ 1)
    → length (alive_of rs (delete_pods ds ps)) + length ds ≡ length (alive_of rs ps)
unfolding delete_pods
length-delete_pods rs [] ps within once = omega arith
length-delete_pods rs (d ∷ ds) ps within once =
    let same : str_eq d.key d.key ≡ true = (eq_iff d.key d.key).1 refl in
    let mine : suc (keyed d.key ds) ≤ keyed d.key (alive_of rs ps) = rw same at (within d.key) in
    let one = once d.key in
    let e = alive_of-delete_pod rs d.key ps in
    let left : (k : String)
        → keyed k (alive_of rs (delete_pod d.key ps))
          ≡ (if str_eq d.key k then 0 else keyed k (alive_of rs ps)) =
      λ k. ap (keyed k) e ∙ keyed-delete_pod d.key k (alive_of rs ps) in
    let fewer = length-delete_pod d.key (alive_of rs ps) in
    let rest : length (alive_of rs (delete_pods ds (delete_pod d.key ps))) + length ds
        ≡ length (alive_of rs (delete_pod d.key ps)) =
      length-delete_pods rs ds (delete_pod d.key ps)
        (λ k. elim (Bool-cases (str_eq d.key k)) [
          | inl it ↦
              let n : keyed k ds ≡ keyed d.key ds =
                ap (λ j. keyed j ds) (sym ((eq_iff d.key k).0 it)) in
              omega (arith, n, mine, one)
          | inr not_it ↦
              let w : keyed k ds ≤ keyed k (alive_of rs ps) = rw not_it at (within k) in
              let l = left k ∙ rw not_it refl in rw l w
        ])
        (λ k. let l = left k in let o = once k in ground (arith, l, o)) in
    omega (arith, rest, ap length e, fewer, mine, one)

-- The names of the new pods are free, each after the creates before it.
abbrev pub AreFree : List String → ℕ → PodSet → List Pod → Type 0
AreFree [] now rs pods = Unit
AreFree (key ∷ keys) now rs pods =
    (has_key key pods ≡ false) × AreFree keys now rs (create_pod now rs key pods)

alive_of-append :
    (rs : PodSet) (ps qs : List Pod)
    → length (alive_of rs (ps ++ qs)) ≡ length (alive_of rs ps) + length (alive_of rs qs)
unfolding alive_of
alive_of-append rs [] qs = omega arith
alive_of-append rs (p ∷ ps) qs = elim (Bool-cases (is_alive rs p)) [
  | inl alive ↦ rw alive (omega (arith, alive_of-append rs ps qs))
  | inr gone ↦ rw gone (alive_of-append rs ps qs)
]

-- The pods that a set makes are among those that it selects: the labels of its template do not take
-- the place of others in its selector.
abbrev pub SelectsItsOwn : PodSet → Type 0
SelectsItsOwn rs = has_labels rs.selector (update_all rs.selector rs.template_labels) ≡ true

alive_of-create_pod :
    (now : ℕ) (rs : PodSet) (key : String) (pods : List Pod)
    → SelectsItsOwn rs
    → has_key key pods ≡ false
    → length (alive_of rs (create_pod now rs key pods)) ≡ suc (length (alive_of rs pods))
unfolding create_pod alive_of is_alive is_terminal
alive_of-create_pod now rs key pods own free =
    rw free (alive_of-append rs pods _ ∙ rw (own, (eq_iff rs.key rs.key).1 refl) (omega arith))

alive_of-create_pods :
    (now : ℕ) (rs : PodSet) (keys : List String) (pods : List Pod)
    → SelectsItsOwn rs
    → AreFree keys now rs pods
    → length (alive_of rs (create_pods now rs keys pods)) ≡ length (alive_of rs pods) + length keys
unfolding create_pods
alive_of-create_pods now rs [] pods own free = omega arith
alive_of-create_pods now rs (key ∷ keys) pods own free = omega (
  arith,
  alive_of-create_pods now rs keys (create_pod now rs key pods) own free.1,
  alive_of-create_pod now rs key pods own free.0,
)

-- The count after a pass.
pub converges_lem :
    (now : ℕ) (rs : PodSet) (desired : ℕ) (keys : List String) (pods : List Pod)
    → ((k : String) → keyed k (alive_of rs pods) ≤ 1)
    → SelectsItsOwn rs
    → desired ≤ length (alive_of rs pods) + length keys
    → AreFree (take (desired - length (alive_of rs pods)) keys) now rs pods
    → length (alive_of rs (reconcile_pods now rs desired keys pods)) ≡ desired
unfolding reconcile_pods
converges_lem now rs desired keys pods once own enough free =
    let alive = alive_of rs pods in
    elim (Bool-cases (ltb (length alive) desired)) [
      | inl fewer ↦
          let few = ltb→lt (length alive) desired fewer in
          let made = alive_of-create_pods now rs _ pods own free in
          let tried = length-take (desired - length alive) keys in
          rw fewer (omega (arith, few, made, tried, enough))
      | inr not_fewer ↦ elim (Bool-cases (ltb desired (length alive))) [
        | inl more ↦
            let much = ltb→lt desired (length alive) more in
            let ds = take (length alive - desired) (sort_pods alive) in
            let within : (k : String) → keyed k ds ≤ keyed k alive = λ k. omega (
              arith,
              keyed-take k (length alive - desired) (sort_pods alive),
              keyed-sort_pods k alive,
            ) in
            let gone = length-delete_pods rs ds pods within once in
            let cut = length-take (length alive - desired) (sort_pods alive) in
            rw (not_fewer, more) (omega (arith, gone, cut, length-sort_pods alive, much))
        | inr not_more ↦ rw (not_fewer, not_more) (ground (arith, not_fewer, not_more))
      ]
    ]
