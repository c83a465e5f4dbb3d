-- ===== src/Dockerfile/Examples.antt =====
-- A short Dockerfile.
use container_platform.Prelude.{◌≡◌, ◌≢◌, refl, some, List, [], ◌∷◌}
use container_platform.Dockerfile.{
  Text, is_space, strip_left, add_left, strip_right, strip, is_empty, is_comment, continued,
  join_two, join_parts, end_line, take_line, read_line, read_lines, flush, logical_lines,
}
use container_platform.Dockerfile.Comments.{texts, logical_lines_comment}
use container_platform.Dockerfile.Stages.{
  text_eq, upper_char, upper, known, is_one_of, emit, scan_words, split, join_words, partition,
  is_flag_char, scan_flag, flag_parts, flag_of, set_flag, take_flags, split_flags, Stage,
  ParseError, Parsed, start_stage, add_instruction, parse_other, parse_line, then_parse,
  parse_lines, some_stage, parse,
}
use container_platform.Dockerfile.Stages.Indexed.{AreIndexed, parse-AreIndexed}

abbrev from_line : Text
from_line = b'f' ∷ b'r' ∷ b'o' ∷ b'm' ∷ b' ' ∷ b'a' ∷ b' ' ∷ b'A' ∷ b'S' ∷ b' ' ∷ b'b' ∷ []

abbrev run_line : Text
run_line =
    b'R' ∷ b'U' ∷ b'N' ∷ b' ' ∷ b'-' ∷ b'-' ∷ b'x' ∷ b'=' ∷ b'1' ∷ b' ' ∷ b'y' ∷ b' ' ∷ 0x5c ∷ []

abbrev comment_line : Text
comment_line = b' ' ∷ b'#' ∷ b' ' ∷ b'z' ∷ []

abbrev last_line : Text
last_line = b' ' ∷ b' ' ∷ b'w' ∷ []

abbrev run_op : Text
run_op = b'R' ∷ b'U' ∷ b'N' ∷ []

program : Unit {0}
unfolding is_space strip_left add_left strip_right strip is_empty is_comment continued join_two
    join_parts end_line take_line read_line read_lines flush logical_lines text_eq upper_char upper
    known is_one_of emit scan_words split join_words partition is_flag_char scan_flag flag_parts
    flag_of set_flag take_flags split_flags start_stage add_instruction parse_other parse_line
    then_parse parse_lines some_stage parse
program = tt

abbrev stages : List Stage
stages =
    record {
      base = b'a' ∷ [];
      name = some (b'b' ∷ []);
      index = 0;
      instructions =
          record {
            op = run_op;
            args = b'y' ∷ b' ' ∷ b'w' ∷ [];
            flags = (b'x' ∷ [], b'1' ∷ []) ∷ [];
            line = 2;
          }
          ∷ [];
    }
    ∷ []

parsed : parse (from_line ∷ run_line ∷ comment_line ∷ last_line ∷ []) ≡ Parsed.ok stages
unfolding program
parsed = refl

-- An empty line ends a continued instruction.
blank_line :
    parse (from_line ∷ run_line ∷ [] ∷ last_line ∷ []) ≡ Parsed.err (ParseError.unsupported 4)
unfolding program
blank_line = refl

parse-AreIndexed_example : (stages ≢ []) × AreIndexed 0 stages
unfolding program
parse-AreIndexed_example =
    parse-AreIndexed (from_line ∷ run_line ∷ comment_line ∷ last_line ∷ []) stages refl

logical_lines_comment_example :
    texts (logical_lines (from_line ∷ run_line ∷ comment_line ∷ last_line ∷ []))
    ≡ texts (logical_lines (from_line ∷ run_line ∷ last_line ∷ []))
unfolding program
logical_lines_comment_example =
    logical_lines_comment (from_line ∷ run_line ∷ []) (last_line ∷ []) comment_line refl
