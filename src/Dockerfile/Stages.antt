-- ===== src/Dockerfile/Stages.antt =====
-- dockerfile.py: `_split_flags` and `parse`.
pub mod Indexed
use container_platform.Prelude.{
  ℕ, suc, ◌+◌, ◌-◌, Bool, true, false, not, ◌&&◌, ◌||◌, Option, none, some, List, [], ◌∷◌, ◌++◌,
  length, leb, ltb, ◌==◌, if◌then◌else◌,
}
use container_platform.Dockerfile.{Text, is_space, strip, is_empty, logical_lines}

unfoldable pub text_eq : Text → Text → Bool
text_eq [] [] = true
text_eq (c ∷ s) (d ∷ t) = c == d && text_eq s t
text_eq s t = false

-- str.upper of a character, as far as it gives letters of the names below
unfoldable pub upper_char : ℕ → Text
upper_char c =
    if leb b'a' c && leb c b'z'
    then (c - 32) ∷ []
    else if c == 0x17f
    then b'S' ∷ []
    else if c == 0x131
    then b'I' ∷ []
    else if c == 0xfb05 || c == 0xfb06
    then b'S' ∷ b'T' ∷ []
    else c ∷ []

unfoldable pub upper : Text → Text
unfolding upper_char
upper [] = []
upper (c ∷ s) = upper_char c ++ upper s

abbrev pub from_name : Text
from_name = b'F' ∷ b'R' ∷ b'O' ∷ b'M' ∷ []

abbrev pub as_name : Text
as_name = b'A' ∷ b'S' ∷ []

abbrev pub arg_name : Text
arg_name = b'A' ∷ b'R' ∷ b'G' ∷ []

unfoldable pub known : List Text
known =
    (b'C' ∷ b'O' ∷ b'P' ∷ b'Y' ∷ [])
    ∷ (b'R' ∷ b'U' ∷ b'N' ∷ [])
    ∷ (b'E' ∷ b'N' ∷ b'V' ∷ [])
    ∷ (b'A' ∷ b'R' ∷ b'G' ∷ [])
    ∷ (b'W' ∷ b'O' ∷ b'R' ∷ b'K' ∷ b'D' ∷ b'I' ∷ b'R' ∷ [])
    ∷ (b'U' ∷ b'S' ∷ b'E' ∷ b'R' ∷ [])
    ∷ (b'E' ∷ b'N' ∷ b'T' ∷ b'R' ∷ b'Y' ∷ b'P' ∷ b'O' ∷ b'I' ∷ b'N' ∷ b'T' ∷ [])
    ∷ (b'C' ∷ b'M' ∷ b'D' ∷ [])
    ∷ (b'E' ∷ b'X' ∷ b'P' ∷ b'O' ∷ b'S' ∷ b'E' ∷ [])
    ∷ (b'L' ∷ b'A' ∷ b'B' ∷ b'E' ∷ b'L' ∷ [])
    ∷ (b'H' ∷ b'E' ∷ b'A' ∷ b'L' ∷ b'T' ∷ b'H' ∷ b'C' ∷ b'H' ∷ b'E' ∷ b'C' ∷ b'K' ∷ [])
    ∷ (b'S' ∷ b'T' ∷ b'O' ∷ b'P' ∷ b'S' ∷ b'I' ∷ b'G' ∷ b'N' ∷ b'A' ∷ b'L' ∷ [])
    ∷ []

unfoldable pub is_one_of : Text → List Text → Bool
unfolding text_eq
is_one_of t [] = false
is_one_of t (n ∷ ns) = text_eq t n || is_one_of t ns

-- The word in front, and the words after it.
unfoldable pub emit : Text × List Text → List Text
emit ([], ws) = ws
emit (c ∷ w, ws) = (c ∷ w) ∷ ws

unfoldable pub scan_words : Text → Text × List Text
unfolding emit is_space
scan_words [] = ([], [])
scan_words (c ∷ s) =
    let rest = scan_words s in if is_space c then ([], emit rest) else (c ∷ rest.0, rest.1)

-- str.split()
unfoldable pub split : Text → List Text
unfolding scan_words emit
split s = emit (scan_words s)

-- " ".join
unfoldable pub join_words : List Text → Text
join_words [] = []
join_words (w ∷ []) = w
join_words (w ∷ v ∷ ws) = w ++ (b' ' ∷ join_words (v ∷ ws))

-- line.partition(" "), without the separator
unfoldable pub partition : Text → Text × Text
partition [] = ([], [])
partition (c ∷ s) = let rest = partition s in if c == b' ' then ([], s) else (c ∷ rest.0, rest.1)

unfoldable pub is_flag_char : ℕ → Bool
is_flag_char c =
    leb b'A' c && leb c b'Z'
    || leb b'a' c && leb c b'z'
    || leb b'0' c && leb c b'9'
    || c == b'_'
    || c == b'-'

abbrev pub Flags : Type 0
Flags = List (Text × Text)

-- The name of a flag up to `=`, and the value after it.
unfoldable pub scan_flag : Text → Option (Text × Option Text)
unfolding is_flag_char
scan_flag [] = some ([], none)
scan_flag (c ∷ s) =
    let rest = scan_flag s in
    if c == b'='
    then some ([], some s)
    else if is_flag_char c
    then elim rest [ none ↦ none | some p ↦ some (c ∷ p.0, p.1) ]
    else none

abbrev true_text : Text
true_text = b't' ∷ b'r' ∷ b'u' ∷ b'e' ∷ []

unfoldable pub flag_parts : Option (Text × Option Text) → Option (Text × Text)
flag_parts none = none
flag_parts (some ([], value)) = none
flag_parts (some (c ∷ name, none)) = some (c ∷ name, true_text)
flag_parts (some (c ∷ name, some value)) = some (c ∷ name, value)

-- _FLAG.match
unfoldable pub flag_of : Text → Option (Text × Text)
unfolding flag_parts scan_flag
flag_of (a ∷ b ∷ s) = if a == b'-' && b == b'-' then flag_parts (scan_flag s) else none
flag_of _ = none

unfoldable pub set_flag : Text → Text → Flags → Flags
unfolding text_eq
set_flag k v [] = (k, v) ∷ []
set_flag k v ((j, w) ∷ fs) =
    let rest = set_flag k v fs in if text_eq j k then (j, v) ∷ fs else (j, w) ∷ rest

-- The loop over the tokens, with what `flag_of` says of each.
unfoldable pub take_flags : List Text → Flags → Flags × List Text
unfolding flag_of set_flag
take_flags [] flags = (flags, [])
take_flags (t ∷ ts) flags = elim (flag_of t) [
  | none ↦ (flags, t ∷ ts)
  | some p ↦ take_flags ts (set_flag p.0 p.1 flags)
]

unfoldable pub split_flags : Text → Flags × Text
unfolding take_flags split join_words
split_flags args = let taken = take_flags (split args) [] in (taken.0, join_words taken.1)

pub record Instruction : Type 0 where
  pub op : Text
  pub args : Text
  pub flags : Flags
  pub line : ℕ

pub record Stage : Type 0 where
  pub base : Text
  pub name : Option Text
  pub index : ℕ
  pub instructions : List Instruction

pub data ParseError : Type 0 where
  empty_from malformed_from before_from unsupported : ℕ → ParseError
  no_from : ParseError

pub data Parsed : Type 0 where
  ok : List Stage → Parsed
  err : ParseError → Parsed

-- The arguments of FROM; none at all is an IndexError.
unfoldable pub start_stage : ℕ → List Text → List Stage → Parsed
unfolding upper text_eq
start_stage number [] stages = Parsed.err (ParseError.empty_from number)
start_stage number (base ∷ []) stages =
    Parsed.ok (
      stages
      ++ (record { base = base; name = none; index = length stages; instructions = [] } ∷ []))
start_stage number (base ∷ word ∷ []) stages = Parsed.err (ParseError.malformed_from number)
start_stage number (base ∷ word ∷ name ∷ more) stages =
    if text_eq (upper word) as_name
    then Parsed.ok (
        stages
        ++ (record { base = base; name = some name; index = length stages; instructions = [] }
            ∷ []))
    else Parsed.err (ParseError.malformed_from number)

-- stages[-1].instructions.append
unfoldable pub add_instruction : Instruction → List Stage → List Stage
add_instruction i [] = []
add_instruction i (s ∷ []) = record s { instructions = s.instructions ++ (i ∷ []) } ∷ []
add_instruction i (s ∷ t ∷ ss) = s ∷ add_instruction i (t ∷ ss)

unfoldable pub parse_other : Instruction → List Stage → Parsed
unfolding text_eq is_one_of known add_instruction
parse_other i [] =
    if text_eq i.op arg_name then Parsed.ok [] else Parsed.err (ParseError.before_from i.line)
parse_other i (s ∷ ss) =
    if is_one_of i.op known
    then Parsed.ok (add_instruction i (s ∷ ss))
    else Parsed.err (ParseError.unsupported i.line)

unfoldable pub parse_line : ℕ → Text → List Stage → Parsed
unfolding partition upper split_flags split start_stage parse_other strip
parse_line number line stages =
    let (word, rest) = partition line in
    let (flags, args) = split_flags (strip rest) in
    if text_eq (upper word) from_name
    then start_stage number (split args) stages
    else parse_other (record { op = upper word; args = args; flags = flags; line = number }) stages

unfoldable pub then_parse : Parsed → (List Stage → Parsed) → Parsed
then_parse (Parsed.ok stages) f = f stages
then_parse (Parsed.err e) f = Parsed.err e

unfoldable pub parse_lines : List (ℕ × Text) → List Stage → Parsed
unfolding parse_line then_parse
parse_lines [] stages = Parsed.ok stages
parse_lines ((number, line) ∷ lines) stages =
    then_parse (parse_line number line stages) (λ next. parse_lines lines next)

unfoldable pub some_stage : List Stage → Parsed
some_stage [] = Parsed.err ParseError.no_from
some_stage (s ∷ ss) = Parsed.ok (s ∷ ss)

unfoldable pub parse : List Text → Parsed
unfolding parse_lines some_stage logical_lines
parse source = then_parse (parse_lines (logical_lines source) []) some_stage
