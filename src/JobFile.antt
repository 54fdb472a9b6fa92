-- ===== src/JobFile.antt =====
-- parseJobFile.go: a job from a file, with the two parsers of nomad as parameters.
use nomad_ondemand_scaler.Prelude.{String, Option, none, some}

-- The error is of the opening or of the second parser.
pub data Parsed (J : Type 0) : Type 0 where
  unreadable : Parsed J
  unparsed : Parsed J
  job : J → Parsed J

module _ {F J : Type 0} (open_file : String → Option F) (parse : F → Option J)
    (parse_again : String → F → Option J) (canonicalize : J → J) where
  abbrev pub or_unparsed : Option J → Parsed J
  or_unparsed none = unparsed
  or_unparsed (some j) = job (canonicalize j)

  -- The file is read again from its beginning.
  unfoldable pub parse_job_file : String → Parsed J
  parse_job_file path = elim (open_file path) [
    | none ↦ unreadable
    | some f ↦ elim (parse f) [
      | none ↦ or_unparsed (parse_again path f)
      | some j ↦ job (canonicalize j)
    ]
  ]
