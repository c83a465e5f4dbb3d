-- ===== src/Orchestrator/Examples/Placements.antt =====
-- Two nodes and three pods, with fractions for their amounts, and the theorem about placements at
-- them.
use container_platform.Prelude.Float.{Float, IsExact, max_exact}
use container_platform.Prelude.{
  ℕ, ◌+◌, ◌*◌, String, ◌≡◌, refl, ap, ◌∙◌, true, false, [], ◌∷◌, arith, eq_iff, ltb, ◌==◌,
}
use container_platform.Orchestrator.Scheduler.{
  set_condition, marked, reason_of, Pod, Node, is_finished, counts_on, allocated_from, allocated,
  selects, count_siblings, score, evaluate_node, evaluate, better, best_of, bind, place, reconcile,
}
use container_platform.Orchestrator.Scheduler.Totals.{Holds}
use container_platform.Orchestrator.Scheduler.Capacity.{reconcile-Holds}

-- (up - down) / whole, with a divisor that is positive.
pub record Fraction : Type 0 where
  pub up : ℕ
  pub down : ℕ
  pub whole : ℕ

abbrev frac : ℕ → ℕ → ℕ → Fraction
frac up down whole = record { up = up; down = down; whole = whole }

abbrev fractions : Float
fractions = record {
  Number = Fraction;
  natural = λ a. frac a 0 1;
  plus = λ a b.
      frac (a.up * b.whole + b.up * a.whole) (a.down * b.whole + b.down * a.whole)
        (a.whole * b.whole);
  minus = λ a b.
      frac (a.up * b.whole + b.down * a.whole) (a.down * b.whole + b.up * a.whole)
        (a.whole * b.whole);
  times = λ a b.
      frac (a.up * b.up + a.down * b.down) (a.up * b.down + a.down * b.up) (a.whole * b.whole);
  over = λ a b. frac (a.up * b.whole) (a.down * b.whole) (a.whole * b.up);
  less = λ a b. ltb (a.up * b.whole + b.down * a.whole) (b.up * a.whole + a.down * b.whole);
  is_zero = λ a. a.up == a.down;
}

fractions-IsExact : IsExact fractions
fractions-IsExact = record {
  plus_natural = λ a b small. let e : a * 1 + b * 1 ≡ a + b = omega arith in ap (λ k. frac k 0 1) e;
  less_natural = λ a b small small'.
      let ea : a * 1 + 0 ≡ a = omega arith in
      let eb : b * 1 + 0 ≡ b = omega arith in ap (λ k. ltb k (b * 1 + 0)) ea ∙ ap (λ k. ltb a k) eb;
}

abbrev pod : String → String → Pod Fraction
pod key node = record {
  key = key;
  name = key;
  owner = "ReplicaSet/web";
  node_name = node;
  phase = "Pending";
  cpu = frac 2 0 1;
  memory = frac 64 0 1;
  node_selector = [];
  unschedulable_reason = "";
}

abbrev node : String → Fraction → Node Fraction
node name cpu = record {
  name = name;
  cpu = cpu;
  memory = frac 256 0 1;
  unschedulable = false;
  ready = true;
  spec_labels = [];
  labels = [];
}

placement : Unit {0}
unfolding is_finished counts_on allocated_from allocated selects count_siblings score evaluate_node
    evaluate better best_of bind place reconcile set_condition marked reason_of
placement = tt

-- The replicas keep apart, though the first node has as much room.
spread_out :
    reconcile fractions true
      (pod "c" "")
      (node "n1" (frac 8 0 1) ∷ node "n2" (frac 8 0 1) ∷ [])
      (pod "a" "n1" ∷ pod "c" "" ∷ [])
    ≡ pod "a" "n1" ∷ record (pod "c" "n2") { phase = "Scheduled" } ∷ []
unfolding placement
spread_out = refl

-- A pod that fits nowhere is told why.
left_over :
    reconcile fractions true (pod "c" "") (node "n1" (frac 3 0 2) ∷ []) (pod "c" "" ∷ [])
    ≡ record (pod "c" "") { unschedulable_reason = "insufficient cpu" } ∷ []
unfolding placement
left_over = refl

abbrev two_of : String → ℕ
two_of key = 2

abbrev sixty_four : String → ℕ
sixty_four key = 64

full_node-Holds : Holds two_of sixty_four (pod "a" "n1" ∷ pod "c" "" ∷ []) "n1" (3, 256)
unfolding placement
full_node-Holds = omega arith

reconcile-Holds_example :
    Holds two_of sixty_four
      (reconcile fractions true
        (pod "c" "")
        (node "n1" (frac 3 0 1) ∷ node "n2" (frac 8 0 1) ∷ [])
        (pod "a" "n1" ∷ pod "c" "" ∷ []))
      "n1"
      (3, 256)
unfolding max_exact
reconcile-Holds_example =
    reconcile-Holds fractions fractions-IsExact two_of sixty_four true (pod "c" "")
      (pod "a" "n1" ∷ []) [] (node "n1" (frac 3 0 1)) [] (node "n2" (frac 8 0 1) ∷ []) (3, 256)
      ((refl, refl), ((refl, refl), tt)) refl refl (omega arith) (omega arith)
      (ground (arith, eq_iff "a" "c")) tt tt (ground (arith, eq_iff "n2" "n1"))
      (ground (arith, eq_iff "n1" "")) full_node-Holds
