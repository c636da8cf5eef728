-- ===== src/Packages/Samples.antt =====
-- ASCII stand-ins for the parameters, for the runs of the modules of tests.
use vespasian.Prelude.{
  ℕ, ◌+◌, ◌-◌, ◌&&◌, [], ◌∷◌, none, some, Bytes, codes, length, drop, any, leb, str_eq,
  if◌then◌else◌, ◌==◌,
}
use vespasian.Prelude.Search.{before_byte}
use vespasian.Packages.{ParsedUrl, string, Packages}

abbrev lower_byte : ℕ → ℕ
lower_byte c = if leb 0x41 c && leb c 0x5a then c + 32 else c

abbrev upper_byte : ℕ → ℕ
upper_byte c = if leb 0x61 c && leb c 0x7a then c - 32 else c

abbrev ascii_lower : Bytes → Bytes
ascii_lower [] = []
ascii_lower (c ∷ s) = lower_byte c ∷ ascii_lower s

abbrev ascii_upper : Bytes → Bytes
ascii_upper [] = []
ascii_upper (c ∷ s) = upper_byte c ∷ ascii_upper s

abbrev without_spaces : Bytes → Bytes
without_spaces [] = []
without_spaces (c ∷ s) = let rest = without_spaces s in if c == 0x20 then rest else c ∷ rest

-- `scheme://host:port/path?query`; a URL with a space does not parse.
abbrev sample_url : Bytes → ParsedUrl
sample_url raw =
    let scheme = before_byte 0x3a raw in
    let rest = drop (length scheme + 3) raw in
    let host = before_byte 0x2f rest in
    let hostname = before_byte 0x3a host in
    let after = drop (length host) rest in
    let path = before_byte 0x3f after in
    record {
      scheme = scheme;
      host = host;
      hostname = hostname;
      port = drop (length hostname + 1) host;
      has_user = any (λ c. c == 0x40) host;
      text = raw;
      path = path;
      raw_query = drop (length path + 1) after;
    }

abbrev pub samples : Packages
samples = record {
  parse_url = λ raw. if any (λ c. c == 0x20) raw then none else some (sample_url raw);
  to_lower = ascii_lower;
  to_upper = ascii_upper;
  trim_space = without_spaces;
  equal_fold = λ a b. str_eq (ascii_lower a) (ascii_lower b);
  unmarshal = λ body. some ((codes "query", string (codes "{ me }")) ∷ []);
  form_boundary = λ ct. none;
  body_hash = λ body. body;
}
