-- ===== src/Dockerfile/Stages/Indexed.antt =====
-- dockerfile.py: what `parse` gives is a list of numbered stages of known instructions.
use container_platform.Prelude.{
  ℕ, ◌+◌, ◌≡◌, ◌≢◌, subst, inl, inr, true, List, [], ◌∷◌, ◌++◌, arith, All, All-append, length,
  Bool-cases,
}
use container_platform.Dockerfile.{Text, strip, logical_lines}
use container_platform.Dockerfile.Stages.{
  text_eq, upper, known, is_one_of, Instruction, Stage, Parsed, start_stage, add_instruction,
  parse_other, parse_line, then_parse, parse_lines, some_stage, parse, as_name, arg_name, from_name,
  partition, split_flags, split,
}

abbrev pub IsKnown : Instruction → Type 0
IsKnown i = is_one_of i.op known ≡ true

-- The stages are numbered from `k` on, and all their instructions are known.
abbrev pub AreIndexed : ℕ → List Stage → Type 0
AreIndexed k [] = Unit
AreIndexed k (s ∷ ss) = (s.index ≡ k) × All IsKnown s.instructions × AreIndexed (k + 1) ss

append-AreIndexed :
    (k : ℕ) (ss : List Stage) (s : Stage)
    → AreIndexed k ss
    → s.index ≡ k + length ss
    → All IsKnown s.instructions
    → AreIndexed k (ss ++ (s ∷ []))
append-AreIndexed k [] s h e i = (omega (arith, e), i, tt)
append-AreIndexed k (t ∷ ss) s h e i =
    (h.0, h.1, append-AreIndexed (k + 1) ss s h.2 (omega (arith, e)) i)

add_instruction-AreIndexed :
    (k : ℕ) (i : Instruction) (ss : List Stage)
    → IsKnown i
    → AreIndexed k ss
    → AreIndexed k (add_instruction i ss)
unfolding add_instruction
add_instruction-AreIndexed k i [] e h = h
add_instruction-AreIndexed k i (s ∷ []) e h =
    (h.0, All-append IsKnown s.instructions (i ∷ []) h.1 (e, tt), h.2)
add_instruction-AreIndexed k i (s ∷ t ∷ ss) e h =
    (h.0, h.1, add_instruction-AreIndexed (k + 1) i (t ∷ ss) e h.2)

-- What holds of the stages that a result has.
abbrev pub IsGood : (List Stage → Type 0) → Parsed → Type 0
IsGood P (Parsed.ok ss) = P ss
IsGood P (Parsed.err e) = Unit

start_stage-AreIndexed :
    (n : ℕ) (words : List Text) (ss : List Stage)
    → AreIndexed 0 ss
    → IsGood (AreIndexed 0) (start_stage n words ss)
unfolding start_stage
start_stage-AreIndexed n [] ss h = tt
start_stage-AreIndexed n (base ∷ []) ss h = append-AreIndexed 0 ss _ h (omega arith) tt
start_stage-AreIndexed n (base ∷ word ∷ []) ss h = tt
start_stage-AreIndexed n (base ∷ word ∷ name ∷ more) ss h =
    elim (Bool-cases (text_eq (upper word) as_name)) [
      | inl named ↦ rw named (append-AreIndexed 0 ss _ h (omega arith) tt)
      | inr other ↦ rw other tt
    ]

parse_other-AreIndexed :
    (i : Instruction) (ss : List Stage) → AreIndexed 0 ss → IsGood (AreIndexed 0) (parse_other i ss)
unfolding parse_other
parse_other-AreIndexed i [] h = elim (Bool-cases (text_eq i.op arg_name)) [
  | inl arg ↦ rw arg tt
  | inr other ↦ rw other tt
]
parse_other-AreIndexed i (s ∷ ss) h = elim (Bool-cases (is_one_of i.op known)) [
  | inl there ↦ rw there (add_instruction-AreIndexed 0 i (s ∷ ss) there h)
  | inr unknown ↦ rw unknown tt
]

parse_line-AreIndexed :
    (n : ℕ) (line : Text) (ss : List Stage)
    → AreIndexed 0 ss
    → IsGood (AreIndexed 0) (parse_line n line ss)
unfolding parse_line
parse_line-AreIndexed n line ss h =
    let taken = split_flags (strip (partition line).1) in
    let i : Instruction = record {
      op = upper (partition line).0;
      args = taken.1;
      flags = taken.0;
      line = n;
    } in
    elim (Bool-cases (text_eq (upper (partition line).0) from_name)) [
      | inl from ↦ rw from (start_stage-AreIndexed n (split taken.1) ss h)
      | inr other ↦ rw other (parse_other-AreIndexed i ss h)
    ]

then_parse-IsGood :
    (P : List Stage → Type 0) (r : Parsed) (f : List Stage → Parsed)
    → IsGood (λ ss. IsGood P (f ss)) r
    → IsGood P (then_parse r f)
unfolding then_parse
then_parse-IsGood P (Parsed.ok ss) f h = h
then_parse-IsGood P (Parsed.err e) f h = tt

IsGood-map :
    (P Q : List Stage → Type 0) (r : Parsed)
    → ((ss : List Stage) → P ss → Q ss)
    → IsGood P r
    → IsGood Q r
IsGood-map P Q (Parsed.ok ss) f h = f ss h
IsGood-map P Q (Parsed.err e) f h = tt

parse_lines-AreIndexed :
    (lines : List (ℕ × Text)) (ss : List Stage)
    → AreIndexed 0 ss
    → IsGood (AreIndexed 0) (parse_lines lines ss)
unfolding parse_lines
parse_lines-AreIndexed [] ss h = h
parse_lines-AreIndexed ((n, line) ∷ lines) ss h =
    then_parse-IsGood (AreIndexed 0) (parse_line n line ss) (λ next. parse_lines lines next)
      (IsGood-map (AreIndexed 0) (λ next. IsGood (AreIndexed 0) (parse_lines lines next))
        (parse_line n line ss) (λ next g. parse_lines-AreIndexed lines next g)
        (parse_line-AreIndexed n line ss h))

some_stage-IsGood :
    (ts : List Stage) → AreIndexed 0 ts → IsGood (λ us. (us ≢ []) × AreIndexed 0 us) (some_stage ts)
unfolding some_stage
some_stage-IsGood [] h = tt
some_stage-IsGood (t ∷ ts) h = ((λ e. cc), h)

-- If `parse` gives stages, there is one at least, they are numbered from 0 in their order, and the
-- name of every instruction in them is a known one.
pub parse-AreIndexed :
    (source : List Text) (ss : List Stage)
    → parse source ≡ Parsed.ok ss
    → (ss ≢ []) × AreIndexed 0 ss
unfolding parse
parse-AreIndexed source ss e = subst (IsGood (λ ts. (ts ≢ []) × AreIndexed 0 ts)) e (
    then_parse-IsGood (λ ts. (ts ≢ []) × AreIndexed 0 ts) (parse_lines (logical_lines source) [])
      some_stage
      (IsGood-map (AreIndexed 0) (λ ts. IsGood (λ us. (us ≢ []) × AreIndexed 0 us) (some_stage ts))
        (parse_lines (logical_lines source) []) some_stage-IsGood
        (parse_lines-AreIndexed (logical_lines source) [] tt)))
