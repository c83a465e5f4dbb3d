-- ===== src/Dockerfile.antt =====
-- dockerfile.py: `_logical_lines` and `parse`. A text is the list of the codes of its characters, and
-- a source is the list of its lines. Of `str.upper` what matters for the names of the instructions
-- is modelled: besides the small letters, the characters that become letters of these names.
pub mod Comments
pub mod Stages
mod Examples
use container_platform.Prelude.{
  ℕ, suc, ◌+◌, ◌-◌, ◌*◌, Bool, true, false, not, ◌&&◌, ◌||◌, Option, none, some, List, [], ◌∷◌,
  ◌++◌, length, leb, ltb, ◌==◌, if◌then◌else◌, map,
}

abbrev pub Text : Type 0
Text = List ℕ

-- str.isspace of a character
unfoldable pub is_space : ℕ → Bool
is_space c =
    leb 9 c && leb c 13
    || leb 28 c && leb c 32
    || c == 0x85
    || c == 0xa0
    || c == 0x1680
    || leb 0x2000 c && leb c 0x200a
    || c == 0x2028
    || c == 0x2029
    || c == 0x202f
    || c == 0x205f
    || c == 0x3000

unfoldable pub strip_left : Text → Text
unfolding is_space
strip_left [] = []
strip_left (c ∷ s) = let rest = strip_left s in if is_space c then rest else c ∷ s

unfoldable pub add_left : ℕ → Text → Text
unfolding is_space
add_left c [] = if is_space c then [] else c ∷ []
add_left c (d ∷ s) = c ∷ d ∷ s

unfoldable pub strip_right : Text → Text
unfolding add_left
strip_right [] = []
strip_right (c ∷ s) = add_left c (strip_right s)

unfoldable pub strip : Text → Text
unfolding strip_left strip_right
strip s = strip_right (strip_left s)

unfoldable pub is_empty : Text → Bool
is_empty [] = true
is_empty (c ∷ s) = false

-- startswith("#")
unfoldable pub is_comment : Text → Bool
is_comment [] = false
is_comment (c ∷ s) = c == b'#'

-- The text before a backslash at its end.
unfoldable pub continued : Text → Option Text
continued [] = none
continued (c ∷ []) = if c == 0x5c then some [] else none
continued (c ∷ d ∷ s) =
    let rest = continued (d ∷ s) in elim rest [ none ↦ none | some t ↦ some (c ∷ t) ]

unfoldable pub join_two : Text → Text → Text
unfolding is_empty
join_two a b = if is_empty a then b else if is_empty b then a else a ++ (b' ' ∷ b)

-- " ".join(p for p in buffer if p)
unfoldable pub join_parts : List Text → Text
unfolding join_two
join_parts [] = []
join_parts (p ∷ ps) = join_two p (join_parts ps)

pub record Lines : Type 0 where
  pub out : List (ℕ × Text)
  pub buffer : List Text
  pub start : ℕ

abbrev pub is_nil : {A : Type 0} → List A → Bool
is_nil [] = true
is_nil (x ∷ xs) = false

-- A line that does not go on: it ends the buffered one, or stands alone.
unfoldable pub end_line : ℕ → Text → Lines → Lines
unfolding join_parts
end_line number line s =
    if is_nil s.buffer then record s { out = s.out ++ ((number, line) ∷ []) } else record s {
      out = s.out ++ ((s.start, join_parts (s.buffer ++ (line ∷ []))) ∷ []);
      buffer = [];
    }

unfoldable pub take_line : ℕ → Text → Option Text → Lines → Lines
unfolding end_line strip
take_line number line (some part) s = record s {
  buffer = s.buffer ++ (strip part ∷ []);
  start = if is_nil s.buffer then number else s.start;
}
take_line number line none s = end_line number line s

unfoldable pub read_line : ℕ → Text → Lines → Lines
unfolding take_line is_comment continued is_empty
read_line number stripped s =
    if is_comment stripped || is_nil s.buffer && is_empty stripped
    then s
    else take_line number stripped (continued stripped) s

unfoldable pub read_lines : ℕ → List Text → Lines → Lines
unfolding read_line strip
read_lines number [] s = s
read_lines number (raw ∷ raws) s = read_lines (number + 1) raws (read_line number (strip raw) s)

unfoldable pub flush : Lines → List (ℕ × Text)
unfolding join_parts
flush s = if is_nil s.buffer then s.out else s.out ++ ((s.start, join_parts s.buffer) ∷ [])

unfoldable pub logical_lines : List Text → List (ℕ × Text)
unfolding read_lines flush
logical_lines raws = flush (read_lines 1 raws (record { out = []; buffer = []; start = 0 }))
