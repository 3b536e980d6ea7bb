-- ===== src/Naming.antt =====
-- internal/naming/naming.go: the names that an endpoint may have.
pub mod Grammar
use mockingo_agent.Base.{
  ℕ, Bool, true, false, ◌||◌, ◌&&◌, not, Option, none, some, List, [], ◌∷◌, Bytes, codes, length,
  is_lower, is_digit, ltb, ◌==◌, if◌then◌else◌,
}
use mockingo_agent.Capture.Headers.{one_of}

pub data NameError : Type 0 where
  bad_length bad_character bad_hyphen reserved : NameError

abbrev pub reserved_names : List Bytes
reserved_names =
    codes "api"
    ∷ codes "www"
    ∷ codes "app"
    ∷ codes "gateway"
    ∷ codes "admin"
    ∷ codes "auth"
    ∷ codes "status"
    ∷ codes "health"
    ∷ codes "docs"
    ∷ codes "support"
    ∷ codes "mail"
    ∷ codes "smtp"
    ∷ codes "ftp"
    ∷ codes "localhost"
    ∷ []

abbrev pub is_name_byte : ℕ → Bool
is_name_byte c = is_lower c || is_digit c || (c == b'-')

abbrev is_last : Bytes → Bool
is_last [] = true
is_last (c ∷ s) = false

-- The loop over the characters. `edge` tells that the character stands first or follows a hyphen.
unfoldable pub check_characters : Bool → Bytes → Option NameError
check_characters edge [] = none
check_characters edge (c ∷ rest) = elim (is_name_byte c) [
  | false ↦ some bad_character
  | true ↦ elim ((c == b'-') && (edge || is_last rest)) [
    | true ↦ some bad_hyphen
    | false ↦ check_characters (c == b'-') rest
  ]
]

abbrev check_reserved : Bytes → Option NameError → Option NameError
check_reserved name (some e) = some e
check_reserved name none = if one_of reserved_names name then some reserved else none

unfoldable pub validate : Bytes → Option NameError
validate name =
    if ltb (length name) 3 || ltb 40 (length name)
    then some bad_length
    else check_reserved name (check_characters true name)
