-- ===== src/Orchestrator/Scheduler/Fitting.antt =====
-- scheduler.py: what is known of the node that the scheduler picks, from the tests that it passed.
use container_platform.Prelude.Float.{Float}
use container_platform.Prelude.{
  String, ◌≡◌, refl, ◌≢◌, inl, inr, Bool, true, false, not, Option, none, some, List, [], ◌∷◌, ◌++◌,
  All, if◌then◌else◌, Bool-cases,
}
use container_platform.Orchestrator.Scheduler.{
  Pod, Node, Fit, feasible, infeasible, cordoned, not_ready, selector_mismatch, insufficient_cpu,
  insufficient_memory, allocated, selects, score, evaluate_node, evaluate, better, best_of,
}

-- The node of a fit, if it has this name, has room.
abbrev pub IsGood : {R : Type 0} → String → Type 0 → Fit R → Type 0
IsGood x Room (feasible y s) = y ≡ x → Room
IsGood x Room (infeasible y r) = Unit

abbrev pub IsGoodBest : {R : Type 0} → String → Type 0 → Option (String × R) → Type 0
IsGoodBest x Room none = Unit
IsGoodBest x Room (some (y, s)) = y ≡ x → Room

module _ (f : Float) where
  open f use {Number, plus, less}

  better-IsGoodBest :
      (x : String) (Room : Type 0) (best : Option (String × Number)) (g : Fit Number)
      → IsGoodBest x Room best
      → IsGood x Room g
      → IsGoodBest x Room (better f best g)
  unfolding better
  better-IsGoodBest x Room none (infeasible y r) b h = tt
  better-IsGoodBest x Room none (feasible y s) b h = h
  better-IsGoodBest x Room (some (z, t)) (infeasible y r) b h = b
  better-IsGoodBest x Room (some (z, t)) (feasible y s) b h = elim (Bool-cases (less t s)) [
    | inl more ↦ rw more h
    | inr other ↦ rw other b
  ]

  pub best_of-IsGoodBest :
      (x : String) (Room : Type 0) (fs : List (Fit Number)) (best : Option (String × Number))
      → IsGoodBest x Room best
      → All (IsGood x Room) fs
      → IsGoodBest x Room (best_of f best fs)
  unfolding best_of
  best_of-IsGoodBest x Room [] best b h = b
  best_of-IsGoodBest x Room (g ∷ fs) best b h =
      best_of-IsGoodBest x Room fs (better f best g) (better-IsGoodBest x Room best g b h.0) h.1

  -- What the tests of `evaluate` for a node have to give for its fit to be good.
  tests-IsGood :
      (x y : String) (Room : Type 0) (s : Number) (u r t c k : Bool)
      → (c ≡ false → k ≡ false → y ≡ x → Room)
      → IsGood x Room (
          if u
          then infeasible y cordoned
          else if not r
          then infeasible y not_ready
          else if not t
          then infeasible y selector_mismatch
          else if c
          then infeasible y insufficient_cpu
          else if k
          then infeasible y insufficient_memory
          else feasible y s)
  tests-IsGood x y Room s true r t c k room = tt
  tests-IsGood x y Room s false false t c k room = tt
  tests-IsGood x y Room s false true false c k room = tt
  tests-IsGood x y Room s false true true true k room = tt
  tests-IsGood x y Room s false true true false true room = tt
  tests-IsGood x y Room s false true true false false room = room refl refl

  evaluate_node-IsGood :
      (spread : Bool) (p : Pod Number) (ps : List (Pod Number)) (x : String) (Room : Type 0)
      (m : Node Number)
      → (less m.cpu (plus (allocated f ps m.name).0 p.cpu) ≡ false
          → less m.memory (plus (allocated f ps m.name).1 p.memory) ≡ false
          → m.name ≡ x
          → Room)
      → IsGood x Room (evaluate_node f spread p ps m)
  unfolding evaluate_node
  evaluate_node-IsGood spread p ps x Room m room =
      tests-IsGood x m.name Room (score f spread p ps m) m.unschedulable m.ready
        (selects p.node_selector m) (less m.cpu (plus (allocated f ps m.name).0 p.cpu))
        (less m.memory (plus (allocated f ps m.name).1 p.memory)) room

  evaluate_others :
      (spread : Bool) (p : Pod Number) (ps : List (Pod Number)) (x : String) (Room : Type 0)
      (ns : List (Node Number))
      → All (λ m. m.name ≢ x) ns
      → All (IsGood x Room) (evaluate f spread p ps ns)
  unfolding evaluate
  evaluate_others spread p ps x Room [] h = tt
  evaluate_others spread p ps x Room (m ∷ ns) h = (
    evaluate_node-IsGood spread p ps x Room m (λ d e same. absurd (h.0 same)),
    evaluate_others spread p ps x Room ns h.1,
  )

  -- If the node `n`, alone of its name, has room where it passes the tests, then the fits are good.
  pub evaluate-IsGood :
      (spread : Bool) (p : Pod Number) (ps : List (Pod Number)) (Room : Type 0) (n : Node Number)
      (left right : List (Node Number))
      → (less n.cpu (plus (allocated f ps n.name).0 p.cpu) ≡ false
          → less n.memory (plus (allocated f ps n.name).1 p.memory) ≡ false
          → Room)
      → All (λ m. m.name ≢ n.name) left
      → All (λ m. m.name ≢ n.name) right
      → All (IsGood n.name Room) (evaluate f spread p ps (left ++ n ∷ right))
  unfolding evaluate
  evaluate-IsGood spread p ps Room n [] right room l r = (
    evaluate_node-IsGood spread p ps n.name Room n (λ d e same. room d e),
    evaluate_others spread p ps n.name Room right r,
  )
  evaluate-IsGood spread p ps Room n (m ∷ left) right room l r = (
    evaluate_node-IsGood spread p ps n.name Room m (λ d e same. absurd (l.0 same)),
    evaluate-IsGood spread p ps Room n left right room l.1 r,
  )
