-- ===== src/Secval.antt =====
-- secval/secval.go: the scan of parsed JSON, file names and SQL identifiers. Texts are lists of code points; the
-- fields of an object stand in the order in which the loop over the map meets them.
pub mod Scan
pub mod Names
pub mod Tests
use chassis_go.Prelude.{
  ℕ, zero, suc, ◌-◌, length, ◌+◌, Bool, true, false, ◌==◌, ◌&&◌, ◌||◌, not, ltb, leb,
  nat_comparable, text_comparable, text, Option, none, some, List, [], ◌∷◌, if◌then◌else◌,
}

-- What `json.Unmarshal` gives for an `any`.
mutual
  pub data Json : Type 0 where
    scalar : Json
    object : Fields → Json
    array : Items → Json

  pub data Fields : Type 0 where
    no_fields : Fields
    field : List ℕ → Json → Fields → Fields

  pub data Items : Type 0 where
    no_items : Items
    item : Json → Items → Items

pub data ScanError : Type 0 where
  dangerous_key nesting_depth : ScanError

abbrev pub max_nesting_depth : ℕ
max_nesting_depth = 20

-- The ASCII characters that print.
clean : List ℕ → List ℕ
clean [] = []
clean (c ∷ s) = let rest = clean s in if leb 32 c && leb c 126 then c ∷ rest else rest

-- `strings.ReplaceAll(s, "-", "_")`, then `strings.ToLower`, on ASCII.
fold_char : ℕ → ℕ
fold_char c = if c == b'-' then b'_' else if leb b'A' c && leb c b'Z' then c + 32 else c

fold_text : List ℕ → List ℕ
unfolding fold_char
fold_text [] = []
fold_text (c ∷ s) = fold_char c ∷ fold_text s

-- Whether the normalised key is among `dangerousKeys`.
pub is_dangerous : List ℕ → Bool
unfolding clean fold_text
is_dangerous key =
    let normalised = fold_text (clean key) in
    normalised == text "__proto__"
    || normalised == text "constructor"
    || normalised == text "prototype"

-- `validateValue`: its error, if any.
mutual
  unfolding is_dangerous

  pub validate_value : Json → ℕ → Option ScanError
  validate_value scalar depth = none
  validate_value (object fields) depth =
      let rest = validate_fields fields (depth + 1) in
      if leb max_nesting_depth depth then some nesting_depth else rest
  validate_value (array items) depth =
      let rest = validate_items items (depth + 1) in
      if leb max_nesting_depth depth then some nesting_depth else rest

  pub validate_fields : Fields → ℕ → Option ScanError
  validate_fields no_fields depth = none
  validate_fields (field key value fields) depth =
      let rest = validate_fields fields depth in
      if is_dangerous key
      then some dangerous_key
      else elim (validate_value value depth) [ some e ↦ some e | none ↦ rest ]

  pub validate_items : Items → ℕ → Option ScanError
  validate_items no_items depth = none
  validate_items (item value items) depth =
      let rest = validate_items items depth in
      elim (validate_value value depth) [ some e ↦ some e | none ↦ rest ]

-- The function of `strings.Map`, which drops control characters, the characters that the replacer
-- leaves, and those of the pattern `[a-zA-Z0-9\-_. ]`.
is_uncontrolled : ℕ → Bool
is_uncontrolled c = leb 32 c && not (c == 127)

is_unseparating : ℕ → Bool
is_unseparating c = not (c == b'/') && not (c == 92)

pub is_safe : ℕ → Bool
is_safe c =
    (leb b'a' c && leb c b'z')
    || (leb b'A' c && leb c b'Z')
    || (leb b'0' c && leb c b'9')
    || c == b'-'
    || c == b'_'
    || c == b'.'
    || c == 32

keep_if : (ℕ → Bool) → List ℕ → List ℕ
keep_if p [] = []
keep_if p (c ∷ s) = let rest = keep_if p s in if p c then c ∷ rest else rest

-- `strings.Trim(s, ". ")`.
is_edge : ℕ → Bool
is_edge c = c == b'.' || c == 32

trim_front : List ℕ → List ℕ
unfolding is_edge
trim_front [] = []
trim_front (c ∷ s) = let rest = trim_front s in if is_edge c then rest else c ∷ s

trim_back : List ℕ → List ℕ
unfolding is_edge
trim_back [] = []
trim_back (c ∷ s) = let rest = trim_back s in if is_edge c && rest == [] then [] else c ∷ rest

-- `\s+` by one space: of what is kept, only the space is white.
collapse : List ℕ → List ℕ
collapse [] = []
collapse (c ∷ []) = c ∷ []
collapse (c ∷ d ∷ s) = let rest = collapse (d ∷ s) in if c == 32 && d == 32 then rest else c ∷ rest

or_unnamed : List ℕ → List ℕ
or_unnamed [] = text "unnamed"
or_unnamed (c ∷ s) = c ∷ s

-- `SafeFilename`.
pub safe_filename : List ℕ → List ℕ
unfolding keep_if is_uncontrolled is_unseparating is_safe trim_front trim_back collapse or_unnamed
safe_filename s =
    let cleaned = keep_if is_safe (keep_if is_unseparating (keep_if is_uncontrolled s)) in
    or_unnamed (collapse (trim_back (trim_front cleaned)))

-- The characters of `[a-z0-9\-.]`.
is_url_safe : ℕ → Bool
is_url_safe c = (leb b'a' c && leb c b'z') || (leb b'0' c && leb c b'9') || c == b'-' || c == b'.'

-- `strings.ToLower`, and then `strings.ReplaceAll(cleaned, " ", "-")`, on ASCII.
fold_url : List ℕ → List ℕ
fold_url [] = []
fold_url (c ∷ s) =
    (if leb b'A' c && leb c b'Z' then c + 32 else if c == 32 then b'-' else c) ∷ fold_url s

-- `strings.Trim(cleaned, "-.")`.
is_url_edge : ℕ → Bool
is_url_edge c = c == b'-' || c == b'.'

url_front : List ℕ → List ℕ
unfolding is_url_edge
url_front [] = []
url_front (c ∷ s) = let rest = url_front s in if is_url_edge c then rest else c ∷ s

url_back : List ℕ → List ℕ
unfolding is_url_edge
url_back [] = []
url_back (c ∷ s) = let rest = url_back s in if is_url_edge c && rest == [] then [] else c ∷ rest

-- `SafeFilenameURL`.
pub safe_filename_url : List ℕ → List ℕ
unfolding keep_if is_url_safe fold_url url_front url_back or_unnamed
safe_filename_url s =
    or_unnamed (url_back (url_front (keep_if is_url_safe (fold_url (safe_filename s)))))

-- What is wrong with an identifier: it does not match the pattern, or it is a reserved word.
pub data IdentifierError : Type 0 where
  no_match reserved_word : IdentifierError

-- The letters and the underscore, and with them the digits.
starts_word : ℕ → Bool
starts_word c = (leb b'a' c && leb c b'z') || (leb b'A' c && leb c b'Z') || c == b'_'

all_word : List ℕ → Bool
unfolding starts_word
all_word [] = true
all_word (c ∷ s) = (starts_word c || (leb b'0' c && leb c b'9')) && all_word s

-- `identifierPattern`.
matches_identifier : List ℕ → Bool
unfolding starts_word all_word
matches_identifier [] = false
matches_identifier (c ∷ s) = starts_word c && all_word s && leb (length s) 63

-- `strings.ToUpper`, on ASCII.
upper : List ℕ → List ℕ
upper [] = []
upper (c ∷ s) = (if leb b'a' c && leb c b'z' then c - 32 else c) ∷ upper s

-- `sqlReserved`.
abbrev sql_reserved : List (List ℕ)
sql_reserved =
    text "SELECT"
    ∷ text "DROP"
    ∷ text "DELETE"
    ∷ text "INSERT"
    ∷ text "UPDATE"
    ∷ text "ALTER"
    ∷ text "EXEC"
    ∷ text "UNION"
    ∷ text "CREATE"
    ∷ text "GRANT"
    ∷ text "REVOKE"
    ∷ text "TRUNCATE"
    ∷ text "MERGE"
    ∷ text "REPLACE"
    ∷ text "CALL"
    ∷ text "EXECUTE"
    ∷ text "BEGIN"
    ∷ text "COMMIT"
    ∷ text "ROLLBACK"
    ∷ text "SAVEPOINT"
    ∷ []

among_words : List ℕ → List (List ℕ) → Bool
among_words s [] = false
among_words s (w ∷ words) = s == w || among_words s words

-- `ValidateIdentifier`.
pub validate_identifier : List ℕ → Option IdentifierError
unfolding matches_identifier upper among_words
validate_identifier s =
    if matches_identifier s
    then (if among_words (upper s) sql_reserved then some reserved_word else none)
    else some no_match
