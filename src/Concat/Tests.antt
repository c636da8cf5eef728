-- ===== src/Concat/Tests.antt =====
-- Runs of the concatenation parsers of pkg/crawl/jsreplay.go, and their theorems at concrete inputs.
use vespasian.Prelude.{◌≤◌, length, true, List, [], ◌∷◌, some, codes, str_eq, ◌≡◌, refl, arith}
use vespasian.Prelude.Search.{includes}
use vespasian.Prelude.Parts.{contains}
use vespasian.Concat.Scan.{
  template_end, find_template_literal_end, quoted_end, scan_string_literal, bracket, operand_end,
  scan_identifier_operand, skip_plus_chain_whitespace, arg_list_end,
}
use vespasian.Concat.Chain.{
  string_literal_value, read_chain_operand, chain_loop, parse_plus_chain, find_concat_arg_list_end,
  split_loop, split_concat_args, parse_concat_args,
}
use vespasian.Concat.Bounds.{IsByteAt, scanners_bounds}
use vespasian.Concat.Chain.Operands.{literal, other}
use vespasian.Concat.Chain.Written.{Piece, written, chain_value, parse_plus_chain-written}
use vespasian.Concat.Clean.{
  replace_double, collapse_loop, collapse_slashes, trim_slashes, scan_escaped_bytes,
  clean_concat_path,
}
use vespasian.Concat.Clean.Squeezed.{squeeze, collapse_slashes-squeeze}
use vespasian.Concat.Extract.{
  Patterns, emit, extract_concat_paths, service_prefix_plus_paths, extract_static_concat_paths,
}
use vespasian.Concat.Kept.{Paths, extract_static_concat_paths-Paths}

parser : Unit {0}
unfolding template_end find_template_literal_end quoted_end scan_string_literal bracket operand_end
    scan_identifier_operand skip_plus_chain_whitespace arg_list_end string_literal_value
    read_chain_operand chain_loop parse_plus_chain find_concat_arg_list_end split_loop
    split_concat_args parse_concat_args includes str_eq
parser = tt

call_in_chain : parse_plus_chain (codes "f(a, \"+\") + '/posts'; x") ≡ codes "0/posts"
unfolding parser
call_in_chain = refl

nested_template : find_template_literal_end (codes "a${`}`}b`c") ≡ some 8
unfolding parser
nested_template = refl

call_arguments : parse_concat_args (λ s. s) (codes "id,\"/comment\",g(1,2)") ≡ codes "0/comment0"
unfolding parser
call_arguments = refl

cleaner : Unit {0}
unfolding replace_double collapse_loop collapse_slashes trim_slashes scan_escaped_bytes
    clean_concat_path includes str_eq
cleaner = tt

cleaned : clean_concat_path (λ p. true) (codes "/api///posts//?u=a//b") ≡ codes "/api/posts?u=a//b"
unfolding cleaner
cleaned = refl

override_dropped : clean_concat_path (λ p. true) (codes "/api/x%E2%80%AEy") ≡ []
unfolding cleaner
override_dropped = refl

abbrev pieces : List Piece
pieces =
    record { before = codes " "; operand = other (codes "id"); after = codes " " }
    ∷ record { before = codes " "; operand = literal 0x22 (codes "/posts"); after = [] }
    ∷ []

parse_plus_chain-written_example :
    parse_plus_chain (written pieces (codes "; next()")) ≡ chain_value pieces
parse_plus_chain-written_example =
    parse_plus_chain-written pieces (codes "; next()") (λ e. cc) (omega arith) (omega arith)
      (
        (
          (refl, tt),
          ((λ e. cc), ((refl, refl, refl, refl), ((refl, refl, refl, refl), tt))),
          (refl, tt),
        ),
        (((refl, tt), (refl, omega arith), tt), tt),
      )
      (refl, refl, omega arith)

-- One match of each pattern; the source stands for itself.
abbrev patterns : Patterns
patterns = record {
  method_matches = λ js. (codes "/api/posts/", codes "id,\"/comment\")") ∷ [];
  plus_matches = λ js. (codes "/api/users/", codes " id + '/posts'") ∷ [];
  service_matches = λ js. (codes "identity/", codes " \"api/login\"") ∷ [];
  has_api_indicator = λ p. true;
  trim_space = λ s. s;
}

extract_static_concat_paths-Paths_example :
    Paths patterns 512 (extract_static_concat_paths patterns (codes "f()"))
extract_static_concat_paths-Paths_example = extract_static_concat_paths-Paths patterns (codes "f()")

extracted :
    extract_static_concat_paths patterns (codes "f()")
    ≡ codes "/api/posts/0/comment" ∷ codes "/api/users/0/posts" ∷ codes "identity/api/login" ∷ []
unfolding parser cleaner emit extract_concat_paths service_prefix_plus_paths
    extract_static_concat_paths contains
extracted = refl

collapse_slashes-squeeze_example : collapse_slashes (codes "//a////b") ≡ squeeze (codes "//a////b")
collapse_slashes-squeeze_example = collapse_slashes-squeeze (codes "//a////b")

scanners_bounds_example :
    IsByteAt 0x22 (codes "\"a\\\"b\" + c") (scan_string_literal (codes "\"a\\\"b\" + c"))
    × IsByteAt b'`' (codes "a\\\"b\" + c") (find_template_literal_end (codes "a\\\"b\" + c"))
    × IsByteAt b')' (codes "a\\\"b\" + c") (find_concat_arg_list_end (codes "a\\\"b\" + c"))
    × (scan_identifier_operand (codes "a\\\"b\" + c") ≤ length (codes "a\\\"b\" + c"))
scanners_bounds_example = scanners_bounds 0x22 (codes "a\\\"b\" + c")
