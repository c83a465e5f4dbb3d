-- ===== src/Orchestrator/Scheduler/Capacity.antt =====
-- scheduler.py: no placement takes more of a node than it has, where the amounts are whole numbers.
use container_platform.Prelude.Float.{Float, IsExact, max_exact}
use container_platform.Prelude.{
  ℕ, ◌+◌, ◌≤◌, String, ◌≡◌, refl, sym, ap, ◌∙◌, ◌≢◌, inl, inr, Bool, true, false, not, ◌||◌, List,
  [], ◌∷◌, ◌++◌, arith, eq_iff, All, str_eq, Bool-cases, ltb, none,
}
use container_platform.Orchestrator.Scheduler.{
  Pod, Node, is_finished, counts_on, allocated_from, allocated, evaluate, best_of, reconcile,
}
use container_platform.Orchestrator.Scheduler.Fitting.{best_of-IsGoodBest, evaluate-IsGood}
use container_platform.Orchestrator.Scheduler.Totals.{
  takes_room, counts_on_lem, total, Holds, place-Holds,
}

-- A pod asks for the whole amounts of its key.
abbrev pub IsWhole : (f : Float) → (String → ℕ) → (String → ℕ) → Pod f.Number → Type 0
IsWhole f cpu_of memory_of p =
    (p.cpu ≡ f.natural (cpu_of p.key)) × (p.memory ≡ f.natural (memory_of p.key))

All-middle :
    {A : Type 0}
    → (P : A → Type 0) (x : A) (before after : List A) → All P (before ++ x ∷ after)
    → P x
All-middle P x [] after h = h.0
All-middle P x (y ∷ before) after h = All-middle P x before after h.1

module _ (f : Float) (exact : IsExact f) (cpu_of memory_of : String → ℕ) where
  open f use {Number, natural, plus, less}

  allocated_from_lem :
      (a b : ℕ) (ps : List (Pod Number)) (x : String)
      → All (IsWhole f cpu_of memory_of) ps
      → a + total cpu_of ps x ≤ max_exact
      → b + total memory_of ps x ≤ max_exact
      → allocated_from f (natural a, natural b) ps x
        ≡ (natural (a + total cpu_of ps x), natural (b + total memory_of ps x))
  unfolding allocated_from
  allocated_from_lem a b [] x w ha hb =
      let ea : a ≡ a + 0 = omega arith in
      let eb : b ≡ b + 0 = omega arith in
      ap (λ n. (natural n, natural b)) ea ∙ ap (λ n. (natural (a + 0), natural n)) eb
  allocated_from_lem a b (p ∷ ps) x w ha hb = elim (Bool-cases (takes_room x p)) [
    | inl on ↦
        let counted : counts_on x p ≡ true = counts_on_lem x p ∙ on in
        let ta : total cpu_of (p ∷ ps) x ≡ cpu_of p.key + total cpu_of ps x = rw on refl in
        let tb : total memory_of (p ∷ ps) x ≡ memory_of p.key + total memory_of ps x = rw on refl in
        let ca = cpu_of p.key in
        let cb = memory_of p.key in
        let sa : plus (natural a) p.cpu ≡ natural (a + ca) =
          ap (plus (natural a)) w.0.0 ∙ exact.plus_natural a ca (omega (arith, ha, ta)) in
        let sb : plus (natural b) p.memory ≡ natural (b + cb) =
          ap (plus (natural b)) w.0.1 ∙ exact.plus_natural b cb (omega (arith, hb, tb)) in
        let rest =
          allocated_from_lem (a + ca) (b + cb) ps x w.1 (omega (arith, ha, ta))
            (omega (arith, hb, tb)) in
        let ea : a + ca + total cpu_of ps x ≡ a + (ca + total cpu_of ps x) = omega arith in
        let eb : b + cb + total memory_of ps x ≡ b + (cb + total memory_of ps x) = omega arith in
        rw (counted, on, sa, sb, rest, ea, eb) refl
    | inr off ↦
        let counted : counts_on x p ≡ false = counts_on_lem x p ∙ off in
        let ta : total cpu_of (p ∷ ps) x ≡ total cpu_of ps x = rw off refl in
        let tb : total memory_of (p ∷ ps) x ≡ total memory_of ps x = rw off refl in
        let rest =
          allocated_from_lem a b ps x w.1 (omega (arith, ha, ta)) (omega (arith, hb, tb)) in
        rw (counted, off) rest
  ]

  allocated_lem :
      (ps : List (Pod Number)) (x : String)
      → All (IsWhole f cpu_of memory_of) ps
      → total cpu_of ps x ≤ max_exact
      → total memory_of ps x ≤ max_exact
      → allocated f ps x ≡ (natural (total cpu_of ps x), natural (total memory_of ps x))
  unfolding allocated
  allocated_lem ps x w ha hb =
      let ea : 0 + total cpu_of ps x ≡ total cpu_of ps x = omega arith in
      let eb : 0 + total memory_of ps x ≡ total memory_of ps x = omega arith in
      let rest = allocated_from_lem 0 0 ps x w (omega (arith, ha)) (omega (arith, hb)) in
      rest
      ∙ ap (λ n. (natural n, natural (0 + total memory_of ps x))) ea
      ∙ ap (λ n. (natural (total cpu_of ps x), natural n)) eb

  -- What fits a node by the tests of `evaluate` is room in whole numbers.
  fits_lem :
      (whole a : ℕ) (capacity used asked : Number) (t : ℕ)
      → capacity ≡ natural whole
      → used ≡ natural t
      → asked ≡ natural a
      → t ≤ whole
      → whole + a ≤ max_exact
      → less capacity (plus used asked) ≡ false
      → t + a ≤ whole
  fits_lem whole a capacity used asked t eh eu ea most small test =
      let sum : plus (natural t) (natural a) ≡ natural (t + a) =
        exact.plus_natural t a (omega arith) in
      let compared : less (natural whole) (natural (t + a)) ≡ ltb whole (t + a) =
        exact.less_natural whole (t + a) (omega arith) (omega arith) in
      let fits : ltb whole (t + a) ≡ false = sym compared ∙ (rw (eh, eu, ea, sum) at test) in
      ground (arith, fits)

  -- The placement never takes more of a node than it has, where the requests of all pods and the
  -- capacity of the node are whole numbers, small enough for a double: if the pods that are assigned
  -- to a node, whose name no other node has and is not empty, fit on it, they still do after
  -- `reconcile` of a pod of the store, whose key no other pod has, whatever the other nodes are.
  pub reconcile-Holds :
      (spread : Bool) (p : Pod Number) (before after : List (Pod Number)) (n : Node Number)
      (left right : List (Node Number)) (capacity : ℕ × ℕ)
      → All (IsWhole f cpu_of memory_of) (before ++ p ∷ after)
      → n.cpu ≡ natural capacity.0
      → n.memory ≡ natural capacity.1
      → capacity.0 + cpu_of p.key ≤ max_exact
      → capacity.1 + memory_of p.key ≤ max_exact
      → All (λ q. q.key ≢ p.key) before
      → All (λ q. q.key ≢ p.key) after
      → All (λ m. m.name ≢ n.name) left
      → All (λ m. m.name ≢ n.name) right
      → n.name ≢ ""
      → Holds cpu_of memory_of (before ++ p ∷ after) n.name capacity
      → Holds cpu_of memory_of
          (reconcile f spread p (left ++ n ∷ right) (before ++ p ∷ after))
          n.name
          capacity
  reconcile-Holds spread p before after n left right capacity w ec em sc sm b a l r named h =
      elim (Bool-cases (not (str_eq p.node_name "") || is_finished p)) [
        | inl skip ↦ unfold reconcile in rw (skip, reconcile) h
        | inr wanted ↦
            let ps = before ++ p ∷ after in
            let x = n.name in
            let wp = All-middle (IsWhole f cpu_of memory_of) p before after w in
            let free : p.node_name ≡ "" = ground (arith, eq_iff p.node_name "", wanted) in
            let used : allocated f ps x
                ≡ (natural (total cpu_of ps x), natural (total memory_of ps x)) =
              allocated_lem ps x w (omega (arith, h.0, sc)) (omega (arith, h.1, sm)) in
            let fits = evaluate f spread p ps (left ++ n ∷ right) in
            let good =
              best_of-IsGoodBest f x
                ((total cpu_of ps x + cpu_of p.key ≤ capacity.0)
                  × (total memory_of ps x + memory_of p.key ≤ capacity.1))
                fits none tt
                (evaluate-IsGood f spread p ps
                  ((total cpu_of ps x + cpu_of p.key ≤ capacity.0)
                    × (total memory_of ps x + memory_of p.key ≤ capacity.1))
                  n left right
                  (λ d e. (
                    fits_lem capacity.0 (cpu_of p.key) n.cpu (allocated f ps x).0 p.cpu
                        (total cpu_of ps x) ec (ap (λ u. u.0) used) wp.0 h.0 sc d,
                    fits_lem capacity.1 (memory_of p.key) n.memory (allocated f ps x).1 p.memory
                        (total memory_of ps x) em (ap (λ u. u.1) used) wp.1 h.1 sm e,
                  ))
                  l r) in
            unfold reconcile in
            rw (wanted, reconcile)
              (place-Holds cpu_of memory_of p fits before after x capacity (best_of f none fits) b a
                named free good h)
      ]
