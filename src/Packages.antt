-- ===== src/Packages.antt =====
-- What the classifiers and the pipeline call of packages that the repository does not contain, and
-- of `net/url`, `encoding/json`, `mime` and `crypto/sha256`: parameters of the model.
pub mod Samples
use vespasian.Prelude.{Bool, List, Option, Bytes}

-- What the code reads of a `url.URL`: fields, `Hostname`, `Port`, `User != nil` and `String`.
pub record ParsedUrl : Type 0 where
  pub scheme : Bytes
  pub host : Bytes
  pub hostname : Bytes
  pub port : Bytes
  pub has_user : Bool
  pub text : Bytes
  pub path : Bytes
  pub raw_query : Bytes

-- The value of a key of a JSON object, as far as the code looks.
pub data JsonField : Type 0 where
  string : Bytes → JsonField
  other : JsonField

-- `url.Parse`; `ToLower`, `ToUpper`, `TrimSpace` and `EqualFold` of `strings`, which go by Unicode;
-- `json.Unmarshal` into a map; the boundary that `mime.ParseMediaType` finds in a content type of
-- multipart/form-data; and the first eight bytes of a SHA-256 sum, in hex.
pub record Packages : Type 0 where
  pub parse_url : Bytes → Option ParsedUrl
  pub to_lower : Bytes → Bytes
  pub to_upper : Bytes → Bytes
  pub trim_space : Bytes → Bytes
  pub equal_fold : Bytes → Bytes → Bool
  pub unmarshal : Bytes → Option (List (Bytes × JsonField))
  pub form_boundary : Bytes → Option Bytes
  pub body_hash : Bytes → Bytes
