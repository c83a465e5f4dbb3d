-- ===== src/Orchestrator/Scheduler/Totals.antt =====
-- scheduler.py: what the pods of a node ask for in whole numbers, and what a placement adds to it.
use container_platform.Prelude.{
  ℕ, ◌+◌, ◌≤◌, String, ◌≡◌, refl, sym, ap, ◌∙◌, ◌≢◌, inl, inr, Bool, true, false, not, ◌||◌, ◌&&◌,
  Option, none, some, List, [], ◌∷◌, ◌++◌, arith, eq_iff, All, str_eq, if◌then◌else◌, Bool-cases,
}
use container_platform.Orchestrator.Scheduler.{
  Pod, Fit, is_finished, counts_on, bind, place, marked, set_condition, reason_of,
}
use container_platform.Orchestrator.Scheduler.Fitting.{IsGoodBest}

-- A pod is assigned to a node and not finished.
abbrev pub takes_room : {R : Type 0} → String → Pod R → Bool
takes_room x p =
    str_eq p.node_name x && (not (str_eq p.phase "Succeeded") && not (str_eq p.phase "Failed"))

not-or : (a b : Bool) → not (a || b) ≡ (not a && not b)
not-or true b = refl
not-or false b = refl

pub counts_on_lem : {R : Type 0} → (x : String) (p : Pod R) → counts_on x p ≡ takes_room x p
unfolding counts_on is_finished
counts_on_lem x p =
    ap (λ b. str_eq p.node_name x && b)
      (not-or (str_eq p.phase "Succeeded") (str_eq p.phase "Failed"))

-- What the pods that are assigned to a node and not finished ask for, by the amount of each key.
abbrev pub total : {R : Type 0} → (String → ℕ) → List (Pod R) → String → ℕ
total amount [] x = 0
total amount (p ∷ ps) x =
    let rest = total amount ps x in if takes_room x p then amount p.key + rest else rest

total-append :
    {R : Type 0}
    → (amount : String → ℕ) (ps qs : List (Pod R)) (x : String)
    → total amount (ps ++ qs) x ≡ total amount ps x + total amount qs x
total-append amount [] qs x = omega arith
total-append amount (p ∷ ps) qs x =
    let rest = total-append amount ps qs x in
    elim (Bool-cases (takes_room x p)) [
      | inl on ↦ rw on (omega (arith, rest))
      | inr off ↦ rw off rest
    ]

-- Binding changes the pod of the key, if no other has it.
bind_others :
    {R : Type 0}
    → (k node : String) (ps : List (Pod R)) → All (λ q. q.key ≢ k) ps
    → bind k node ps ≡ ps
unfolding bind
bind_others k node [] h = refl
bind_others k node (q ∷ ps) h =
    let other : str_eq q.key k ≡ false = ground (arith, eq_iff q.key k, h.0) in
    rw other (ap (λ r. q ∷ r) (bind_others k node ps h.1))

bind_lem :
    {R : Type 0}
    → (p : Pod R) (node : String) (before after : List (Pod R)) → All (λ q. q.key ≢ p.key) before
    → All (λ q. q.key ≢ p.key) after
    → p.node_name ≡ ""
    → bind p.key node (before ++ p ∷ after)
      ≡ before ++ record p { node_name = node; phase = "Scheduled" } ∷ after
unfolding bind
bind_lem p node [] after b a free =
    let test : str_eq p.node_name "" ≡ true = (eq_iff p.node_name "").1 free in
    rw ((eq_iff p.key p.key).1 refl, test)
      (ap (λ r. record p { node_name = node; phase = "Scheduled" } ∷ r)
        (bind_others p.key node after a))
bind_lem p node (q ∷ before) after b a free =
    let other : str_eq q.key p.key ≡ false = ground (arith, eq_iff q.key p.key, b.0) in
    rw other (ap (λ r. q ∷ r) (bind_lem p node before after b.1 a free))

unplaced_lem :
    {R : Type 0} → (p : Pod R) (x : String) → p.node_name ≡ "" → x ≢ "" → takes_room x p ≡ false
unplaced_lem p x free named = elim (Bool-cases (str_eq p.node_name x)) [
  | inl same ↦ absurd (named (sym ((eq_iff p.node_name x).0 same) ∙ free))
  | inr other ↦ rw other refl
]

placed_lem :
    {R : Type 0}
    → (p : Pod R) (x y : String)
    → takes_room x (record p { node_name = y; phase = "Scheduled" }) ≡ str_eq y x
placed_lem p x y = elim (Bool-cases (str_eq y x)) [
  | inl same ↦ rw same refl
  | inr other ↦ rw other refl
]

set_condition_others :
    {R : Type 0}
    → (k r : String) (ps : List (Pod R)) → All (λ q. q.key ≢ k) ps
    → set_condition k r ps ≡ ps
unfolding set_condition
set_condition_others k r [] h = refl
set_condition_others k r (q ∷ ps) h =
    let other : str_eq q.key k ≡ false = ground (arith, eq_iff q.key k, h.0) in
    rw other (ap (λ l. q ∷ l) (set_condition_others k r ps h.1))

set_condition_lem :
    {R : Type 0}
    → (p : Pod R) (r : String) (before after : List (Pod R)) → All (λ q. q.key ≢ p.key) before
    → All (λ q. q.key ≢ p.key) after
    → set_condition p.key r (before ++ p ∷ after) ≡ before ++ marked r p ∷ after
unfolding set_condition
set_condition_lem p r [] after b a =
    rw ((eq_iff p.key p.key).1 refl)
      (ap (λ l. marked r p ∷ l) (set_condition_others p.key r after a))
set_condition_lem p r (q ∷ before) after b a =
    let other : str_eq q.key p.key ≡ false = ground (arith, eq_iff q.key p.key, b.0) in
    rw other (ap (λ l. q ∷ l) (set_condition_lem p r before after b.1 a))

marked-node_name : {R : Type 0} → (r : String) (p : Pod R) → (marked r p).node_name ≡ p.node_name
unfolding marked
marked-node_name r p = elim (Bool-cases (str_eq p.unschedulable_reason r)) [
  | inl same ↦ rw (same, marked) refl
  | inr new ↦ rw (new, marked) refl
]

-- Where a pod changes that no node has, nothing more is asked for.
total-unplaced :
    {R : Type 0}
    → (amount : String → ℕ) (p q : Pod R) (before after : List (Pod R)) (x : String)
    → p.node_name ≡ ""
    → q.node_name ≡ ""
    → x ≢ ""
    → total amount (before ++ q ∷ after) x ≡ total amount (before ++ p ∷ after) x
total-unplaced amount p q before after x free free' named =
    let old = total-append amount before (p ∷ after) x in
    let new = total-append amount before (q ∷ after) x in
    let first : total amount (p ∷ after) x ≡ total amount after x =
      rw (unplaced_lem p x free named) refl in
    let second : total amount (q ∷ after) x ≡ total amount after x =
      rw (unplaced_lem q x free' named) refl in
    omega (arith, old, new, first, second)

-- Where a pod that no node has is bound, its amount is asked for of its node, and of no other.
total-bound :
    {R : Type 0}
    → (amount : String → ℕ) (p : Pod R) (y : String) (before after : List (Pod R)) (x : String)
      (whole : ℕ)
    → p.node_name ≡ ""
    → x ≢ ""
    → (y ≡ x → total amount (before ++ p ∷ after) x + amount p.key ≤ whole)
    → total amount (before ++ p ∷ after) x ≤ whole
    → total amount (before ++ record p { node_name = y; phase = "Scheduled" } ∷ after) x ≤ whole
total-bound {R} amount p y before after x whole free named room h =
    let placed : Pod R = record p { node_name = y; phase = "Scheduled" } in
    let old = total-append amount before (p ∷ after) x in
    let new = total-append amount before (placed ∷ after) x in
    let first : total amount (p ∷ after) x ≡ total amount after x =
      rw (unplaced_lem p x free named) refl in
    elim (Bool-cases (str_eq y x)) [
      | inl here ↦
          let second : total amount (placed ∷ after) x ≡ amount p.key + total amount after x =
            rw (placed_lem p x y ∙ here) refl in
          omega (arith, old, new, first, second, room ((eq_iff y x).0 here))
      | inr elsewhere ↦
          let second : total amount (placed ∷ after) x ≡ total amount after x =
            rw (placed_lem p x y ∙ elsewhere) refl in
          omega (arith, old, new, first, second, h)
    ]

-- The pods that are assigned to a node take no more than it has.
abbrev pub Holds :
    {R : Type 0} → (String → ℕ) → (String → ℕ) → List (Pod R) → String → ℕ × ℕ → Type 0
Holds cpu_of memory_of ps x capacity =
    (total cpu_of ps x ≤ capacity.0) × (total memory_of ps x ≤ capacity.1)

pub place-Holds :
    {R : Type 0}
    → (cpu_of memory_of : String → ℕ) (p : Pod R) (fits : List (Fit R))
      (before after : List (Pod R)) (x : String) (capacity : ℕ × ℕ) (best : Option (String × R))
    → All (λ q. q.key ≢ p.key) before
    → All (λ q. q.key ≢ p.key) after
    → x ≢ ""
    → p.node_name ≡ ""
    → IsGoodBest x
        ((total cpu_of (before ++ p ∷ after) x + cpu_of p.key ≤ capacity.0)
          × (total memory_of (before ++ p ∷ after) x + memory_of p.key ≤ capacity.1))
        best
    → Holds cpu_of memory_of (before ++ p ∷ after) x capacity
    → Holds cpu_of memory_of (place p fits best (before ++ p ∷ after)) x capacity
unfolding place
place-Holds cpu_of memory_of p fits before after x capacity none b a named free good h =
    let q = marked (reason_of fits) p in
    let free' = marked-node_name (reason_of fits) p ∙ free in
    rw (set_condition_lem p (reason_of fits) before after b a) (
      omega (arith, total-unplaced cpu_of p q before after x free free' named, h.0),
      omega (arith, total-unplaced memory_of p q before after x free free' named, h.1),
    )
place-Holds cpu_of memory_of p fits before after x capacity (some (y, s)) b a named free good h =
    rw (bind_lem p y before after b a free) (
      total-bound cpu_of p y before after x capacity.0 free named (λ e. (good e).0) h.0,
      total-bound memory_of p y before after x capacity.1 free named (λ e. (good e).1) h.1,
    )
