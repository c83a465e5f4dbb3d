-- ===== src/Orchestrator/Workloads/Replicas/Ready.antt =====
-- workloads.py: which pods `ReplicaSetController.reconcile` deletes.
use container_platform.Prelude.{
  ℕ, zero, suc, ◌+◌, ◌-◌, min, ◌≤◌, String, ◌≡◌, refl, ap, ◌∙◌, sym, inl, inr, Bool, true, false,
  List, [], ◌∷◌, ◌++◌, arith, length, take, ltb, str_eq, if◌then◌else◌, Bool-cases, eq_iff, ltb→lt,
}
use container_platform.Orchestrator.Workloads.{Pod, is_ready, is_terminal}
use container_platform.Orchestrator.Workloads.Replicas.{
  PodSet, is_alive, alive_of, has_key, create_pod, create_pods, goes_before, insert_pod, sort_pods,
  delete_pod, delete_pods, reconcile_pods,
}
use container_platform.Orchestrator.Workloads.Replicas.Converging.{
  keyed, alive_of-delete_pod, length-insert_pod, length-sort_pods,
}

-- One if the pod is Ready.
abbrev pub ready_one : Pod → ℕ
ready_one p = if is_ready p.phase then 1 else 0

one_ready : (p : Pod) → is_ready p.phase ≡ true → ready_one p ≡ 1
one_ready p h = ground arith

-- How many pods are Ready.
abbrev pub readies : List Pod → ℕ
readies [] = 0
readies (p ∷ ps) = ready_one p + readies ps

-- How many pods with a key are Ready, and how many are not.
abbrev ready_keyed : Bool → String → List Pod → ℕ
ready_keyed b key [] = 0
ready_keyed b key (p ∷ ps) =
    (if str_eq p.key key
      then (if is_ready p.phase then (if b then 1 else 0) else (if b then 0 else 1))
      else 0)
    + ready_keyed b key ps

ready_keyed_sum :
    (key : String) (ps : List Pod)
    → ready_keyed true key ps + ready_keyed false key ps ≡ keyed key ps
ready_keyed_sum key [] = refl
ready_keyed_sum key (p ∷ ps) = ground (arith, ready_keyed_sum key ps)

readies-le : (ps : List Pod) → readies ps ≤ length ps
readies-le [] = omega arith
readies-le (p ∷ ps) = ground (arith, readies-le ps)

-- Sorting loses no pod and makes none.
ready_keyed-insert_pod :
    (b : Bool) (key : String) (p : Pod) (ps : List Pod)
    → ready_keyed b key (insert_pod p ps) ≡ ready_keyed b key (p ∷ ps)
unfolding insert_pod
ready_keyed-insert_pod b key p [] = refl
ready_keyed-insert_pod b key p (q ∷ qs) = elim (Bool-cases (goes_before q p)) [
  | inl before ↦ rw before (omega (arith, ready_keyed-insert_pod b key p qs))
  | inr after ↦ rw after refl
]

ready_keyed-sort_pods :
    (b : Bool) (key : String) (ps : List Pod)
    → ready_keyed b key (sort_pods ps) ≡ ready_keyed b key ps
unfolding sort_pods
ready_keyed-sort_pods b key [] = refl
ready_keyed-sort_pods b key (p ∷ ps) =
    omega (arith, ready_keyed-insert_pod b key p (sort_pods ps), ready_keyed-sort_pods b key ps)

ready_keyed-take :
    (b : Bool) (key : String) (n : ℕ) (ps : List Pod)
    → ready_keyed b key (take n ps) ≤ ready_keyed b key ps
ready_keyed-take b key zero ps = omega arith
ready_keyed-take b key (suc n) [] = omega arith
ready_keyed-take b key (suc n) (p ∷ ps) = omega (arith, ready_keyed-take b key n ps)

readies-insert_pod : (p : Pod) (ps : List Pod) → readies (insert_pod p ps) ≡ readies (p ∷ ps)
unfolding insert_pod
readies-insert_pod p [] = refl
readies-insert_pod p (q ∷ qs) = elim (Bool-cases (goes_before q p)) [
  | inl before ↦ rw before (omega (arith, readies-insert_pod p qs))
  | inr after ↦ rw after refl
]

readies-sort_pods : (ps : List Pod) → readies (sort_pods ps) ≡ readies ps
unfolding sort_pods
readies-sort_pods [] = refl
readies-sort_pods (p ∷ ps) =
    omega (arith, readies-insert_pod p (sort_pods ps), readies-sort_pods ps)

-- The pods that are not Ready come first: behind a Ready one all are Ready.
ReadyLast : List Pod → Type 0
ReadyLast [] = Unit
ReadyLast (p ∷ ps) = (is_ready p.phase ≡ true → readies ps ≡ length ps) × ReadyLast ps

goes_before_ready :
    (q p : Pod)
    → (goes_before q p ≡ true → is_ready q.phase ≡ true → is_ready p.phase ≡ true)
      × (goes_before q p ≡ false → is_ready p.phase ≡ true → is_ready q.phase ≡ true)
unfolding goes_before
goes_before_ready q p = ground arith

insert_pod-ReadyLast : (p : Pod) (ps : List Pod) → ReadyLast ps → ReadyLast (insert_pod p ps)
unfolding insert_pod ReadyLast
insert_pod-ReadyLast p [] h = (λ _. refl, tt)
insert_pod-ReadyLast p (q ∷ qs) h = elim (Bool-cases (goes_before q p)) [
  | inl before ↦ rw before (
    λ ready.
        let also = (goes_before_ready q p).0 before ready in
        let all = h.0 ready in
        omega (arith, readies-insert_pod p qs, length-insert_pod p qs, all, one_ready p also),
    insert_pod-ReadyLast p qs h.1,
  )
  | inr after ↦ rw after (
    λ ready.
        let first = (goes_before_ready q p).1 after ready in
        omega (arith, h.0 first, one_ready q first),
    h,
  )
]

sort_pods-ReadyLast : (ps : List Pod) → ReadyLast (sort_pods ps)
unfolding sort_pods ReadyLast
sort_pods-ReadyLast [] = tt
sort_pods-ReadyLast (p ∷ ps) = insert_pod-ReadyLast p (sort_pods ps) (sort_pods-ReadyLast ps)

-- A front part has only the Ready pods that are left when the others have gone.
readies-take :
    (n : ℕ) (ps : List Pod)
    → ReadyLast ps
    → n ≤ length ps
    → readies (take n ps) ≡ n - (length ps - readies ps)
unfolding ReadyLast
readies-take zero ps h few = omega arith
readies-take (suc n) [] h few = absurd (omega arith)
readies-take (suc n) (p ∷ ps) h few =
    let rest = readies-take n ps h.1 (omega arith) in
    let most = readies-le ps in
    elim (Bool-cases (is_ready p.phase)) [
      | inl ready ↦ let all = h.0 ready in rw ready (omega arith)
      | inr not_ready ↦ rw not_ready (omega arith)
    ]

readies-delete_pod :
    (key : String) (ps : List Pod)
    → readies (delete_pod key ps) + ready_keyed true key ps ≡ readies ps
unfolding delete_pod
readies-delete_pod key [] = refl
readies-delete_pod key (p ∷ ps) = elim (Bool-cases (str_eq p.key key)) [
  | inl same ↦ rw same (ground (arith, readies-delete_pod key ps))
  | inr other ↦ rw other (ground (arith, readies-delete_pod key ps))
]

ready_keyed-delete_pod :
    (b : Bool) (key k : String) (ps : List Pod)
    → ready_keyed b k (delete_pod key ps) ≡ (if str_eq key k then 0 else ready_keyed b k ps)
unfolding delete_pod
ready_keyed-delete_pod b key k [] = ground arith
ready_keyed-delete_pod b key k (p ∷ ps) =
    let ih = ready_keyed-delete_pod b key k ps in
    elim (Bool-cases (str_eq p.key key)) [
      | inl same ↦ rw same (ground (arith, ih, eq_iff p.key key, eq_iff p.key k, eq_iff key k))
      | inr other ↦ rw other (ground (arith, ih, eq_iff p.key key, eq_iff p.key k, eq_iff key k))
    ]

-- A pod that is deleted is Ready if the one with its key is.
ready_deleted :
    (d : Pod) (ds ps : List Pod)
    → ((b : Bool) → ready_keyed b d.key (d ∷ ds) ≤ ready_keyed b d.key ps)
    → keyed d.key ps ≤ 1
    → ready_keyed true d.key ps ≡ ready_one d
ready_deleted d ds ps within once =
    let same = (eq_iff d.key d.key).1 refl in
    let r : ready_keyed true d.key (d ∷ ds) ≤ ready_keyed true d.key ps = within true in
    let u : ready_keyed false d.key (d ∷ ds) ≤ ready_keyed false d.key ps = within false in
    let all = ready_keyed_sum d.key ps in
    elim (Bool-cases (is_ready d.phase)) [
      | inl ready ↦ let r' = rw (same, ready) at r in rw ready (omega arith)
      | inr not_ready ↦ let u' = rw (same, not_ready) at u in rw not_ready (omega arith)
    ]

ready_keyed-le : (b : Bool) (key : String) (ps : List Pod) → ready_keyed b key ps ≤ keyed key ps
ready_keyed-le true key ps = omega (arith, ready_keyed_sum key ps)
ready_keyed-le false key ps = omega (arith, ready_keyed_sum key ps)

-- No other pod to delete has the key of the first.
keyed-others :
    (d : Pod) (ds ps : List Pod)
    → ((b : Bool) → ready_keyed b d.key (d ∷ ds) ≤ ready_keyed b d.key ps)
    → keyed d.key ps ≤ 1
    → keyed d.key ds ≡ 0
keyed-others d ds ps within once =
    let all : ready_keyed true d.key (d ∷ ds) + ready_keyed false d.key (d ∷ ds)
        ≡ suc (keyed d.key ds) =
      ready_keyed_sum d.key (d ∷ ds) ∙ rw ((eq_iff d.key d.key).1 refl) refl in
    omega (arith, all, within true, within false, ready_keyed_sum d.key ps, once)

-- Deleting some of the living pods, whose keys are all different.
readies-delete_pods :
    (rs : PodSet) (ds ps : List Pod)
    → ((b : Bool) (k : String) → ready_keyed b k ds ≤ ready_keyed b k (alive_of rs ps))
    → ((k : String) → keyed k (alive_of rs ps) ≤ 1)
    → readies (alive_of rs (delete_pods ds ps)) + readies ds ≡ readies (alive_of rs ps)
unfolding delete_pods
readies-delete_pods rs [] ps within once = omega arith
readies-delete_pods rs (d ∷ ds) ps within once =
    let alive = alive_of rs ps in
    let e = alive_of-delete_pod rs d.key ps in
    let left : (b : Bool) (k : String)
        → ready_keyed b k (alive_of rs (delete_pod d.key ps))
          ≡ (if str_eq d.key k then 0 else ready_keyed b k alive) =
      λ b k. ap (ready_keyed b k) e ∙ ready_keyed-delete_pod b d.key k alive in
    let mine = ready_deleted d ds alive (λ b. within b d.key) (once d.key) in
    let rest =
      readies-delete_pods rs ds (delete_pod d.key ps)
        (λ b k. elim (Bool-cases (str_eq d.key k)) [
          | inl it ↦
              let none_left = keyed-others d ds alive (λ b. within b d.key) (once d.key) in
              let n : keyed k ds ≡ keyed d.key ds =
                ap (λ j. keyed j ds) (sym ((eq_iff d.key k).0 it)) in
              omega (arith, n, none_left, ready_keyed-le b k ds)
          | inr not_it ↦
              let w : 0 + ready_keyed b k ds ≤ ready_keyed b k alive = rw not_it at (within b k) in
              let l : ready_keyed b k (alive_of rs (delete_pod d.key ps)) ≡ ready_keyed b k alive =
                left b k ∙ rw not_it refl in
              omega (arith, w, l)
        ])
        (λ k.
          let sum = ready_keyed_sum k alive in
          let sum' = ready_keyed_sum k (alive_of rs (delete_pod d.key ps)) in
          let t = left true k in
          let f = left false k in
          let o = once k in
          elim (Bool-cases (str_eq d.key k)) [
            | inl it ↦ let t' = rw it at t in let f' = rw it at f in omega (arith, sum', t', f')
            | inr not_it ↦
                let t' = rw not_it at t in
                let f' = rw not_it at f in omega (arith, sum, sum', t', f', o)
          ]) in
    omega (arith, rest, ap readies e, readies-delete_pod d.key alive, mine)

readies-append :
    (rs : PodSet) (ps qs : List Pod)
    → readies (alive_of rs (ps ++ qs)) ≡ readies (alive_of rs ps) + readies (alive_of rs qs)
unfolding alive_of
readies-append rs [] qs = omega arith
readies-append rs (p ∷ ps) qs = elim (Bool-cases (is_alive rs p)) [
  | inl alive ↦ rw alive (omega (arith, readies-append rs ps qs))
  | inr gone ↦ rw gone (readies-append rs ps qs)
]

-- A new pod is not Ready.
readies-create_pod :
    (now : ℕ) (rs : PodSet) (key : String) (pods : List Pod)
    → readies (alive_of rs (create_pod now rs key pods)) ≡ readies (alive_of rs pods)
unfolding create_pod alive_of is_alive is_terminal is_ready
readies-create_pod now rs key pods = elim (Bool-cases (has_key key pods)) [
  | inl taken ↦ rw taken refl
  | inr free ↦ rw free (readies-append rs pods _ ∙ ground arith)
]

readies-create_pods :
    (now : ℕ) (rs : PodSet) (keys : List String) (pods : List Pod)
    → readies (alive_of rs (create_pods now rs keys pods)) ≡ readies (alive_of rs pods)
unfolding create_pods
readies-create_pods now rs [] pods = refl
readies-create_pods now rs (key ∷ keys) pods =
    readies-create_pods now rs keys (create_pod now rs key pods)
    ∙ readies-create_pod now rs key pods

-- The Ready pods after a pass.
pub ready_lem :
    (now : ℕ) (rs : PodSet) (desired : ℕ) (keys : List String) (pods : List Pod)
    → ((k : String) → keyed k (alive_of rs pods) ≤ 1)
    → readies (alive_of rs (reconcile_pods now rs desired keys pods))
      ≡ min (readies (alive_of rs pods)) desired
unfolding reconcile_pods
ready_lem now rs desired keys pods once =
    let alive = alive_of rs pods in
    let most = readies-le alive in
    elim (Bool-cases (ltb (length alive) desired)) [
      | inl fewer ↦
          let few = ltb→lt (length alive) desired fewer in
          rw fewer (omega (arith, few, most, readies-create_pods now rs _ pods))
      | inr not_fewer ↦ elim (Bool-cases (ltb desired (length alive))) [
        | inl more ↦
            let much = ltb→lt desired (length alive) more in
            let sorted = sort_pods alive in
            let ds = take (length alive - desired) sorted in
            let within : (b : Bool) (k : String) → ready_keyed b k ds ≤ ready_keyed b k alive =
              λ b k. omega (
                arith,
                ready_keyed-take b k (length alive - desired) sorted,
                ready_keyed-sort_pods b k alive,
              ) in
            let gone = readies-delete_pods rs ds pods within once in
            let size = length-sort_pods alive in
            let cut =
              readies-take (length alive - desired) sorted (sort_pods-ReadyLast alive)
                (omega arith) in
            rw (not_fewer, more)
              (omega (arith, gone, cut, size, much, readies-sort_pods alive, most))
        | inr not_more ↦ rw (not_fewer, not_more) (ground (arith, not_fewer, not_more, most))
      ]
    ]
