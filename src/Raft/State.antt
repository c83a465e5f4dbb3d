-- ===== src/Raft/State.antt =====
-- raft/state.py: the term and the vote, and the file that each change of them is written to. The
-- file is replaced as a whole; `none` is a file that is not there. A key may be missing in it.
use container_platform.Prelude.{
  ℕ, ◌+◌, ◌≡◌, refl, String, Bool, true, false, Option, none, some, List, [], ◌∷◌, arith,
  if◌then◌else◌,
}

pub record Saved : Type 0 where
  pub term : Option ℕ
  pub voted_for : Option String

pub record PersistentState : Type 0 where
  pub term : ℕ
  pub voted_for : Option String
  pub durable : Bool
  pub file : Option Saved

term_or_zero : Option ℕ → ℕ
term_or_zero none = 0
term_or_zero (some t) = t

unfoldable pub load_state : Option Saved → PersistentState
unfolding term_or_zero
load_state none = record { term = 0; voted_for = none; durable = true; file = none }
load_state (some s) = record {
  term = term_or_zero s.term;
  voted_for = s.voted_for;
  durable = true;
  file = some s;
}

-- The constructor, with and without a directory.
unfoldable pub open_state : Bool → Option Saved → PersistentState
unfolding load_state
open_state true file = load_state file
open_state false file = record { term = 0; voted_for = none; durable = false; file = none }

save : PersistentState → PersistentState
save s =
    if s.durable
    then record s { file = some (record { term = some s.term; voted_for = s.voted_for }) }
    else s

unfoldable pub set_term : ℕ → PersistentState → PersistentState
unfolding save
set_term t s = save (record s { term = t; voted_for = none })

unfoldable pub increment_term : PersistentState → PersistentState × ℕ
unfolding save
increment_term s = (save (record s { term = s.term + 1; voted_for = none }), s.term + 1)

unfoldable pub set_voted_for : Option String → PersistentState → PersistentState
unfolding save
set_voted_for c s = save (record s { voted_for = c })

-- The three changes of the state.
pub data Change : Type 0 where
  term_set : ℕ → Change
  term_incremented : Change
  vote_set : Option String → Change

unfoldable pub change : Change → PersistentState → PersistentState
unfolding set_term increment_term set_voted_for
change (term_set t) s = set_term t s
change term_incremented s = (increment_term s).0
change (vote_set c) s = set_voted_for c s

pub changes : List Change → PersistentState → PersistentState
unfolding change
changes [] s = s
changes (c ∷ cs) s = changes cs (change c s)

-- The file says what the memory says.
pub record IsDurable (s : PersistentState) : Type 0 where
  pub durable : s.durable ≡ true
  pub saved : load_state s.file ≡ s

pub change-IsDurable : (c : Change) (s : PersistentState) → IsDurable s → IsDurable (change c s)
unfolding change load_state
change-IsDurable (term_set t) s h = record { durable = ground arith; saved = ground arith }
change-IsDurable term_incremented s h = record { durable = ground arith; saved = ground arith }
change-IsDurable (vote_set c) s h = record { durable = ground arith; saved = ground arith }

changes-IsDurable :
    (cs : List Change) (s : PersistentState) → IsDurable s → IsDurable (changes cs s)
unfolding changes
changes-IsDurable [] s h = h
changes-IsDurable (c ∷ cs) s h = changes-IsDurable cs (change c s) (change-IsDurable c s h)

pub open_state-IsDurable : (file : Option Saved) → IsDurable (open_state true file)
unfolding open_state
open_state-IsDurable none = record { durable = refl; saved = refl }
open_state-IsDurable (some s) = record { durable = refl; saved = refl }

-- A node that stops after any changes of its term and vote finds the same term and the same vote
-- when it opens the file again.
pub reopen-changes_state :
    (file : Option Saved) (cs : List Change)
    → open_state true (changes cs (open_state true file)).file ≡ changes cs (open_state true file)
reopen-changes_state file cs =
    unfold open_state in (changes-IsDurable cs _ (open_state-IsDurable file)).saved
