-- ===== src/Security/Injection.antt =====
-- internal/core/security/anti_injection.go. The six regular expressions are lists of alternatives, and a
-- text is the list of its runes; `(?i)` folds the case as Go does, by Unicode's simple folding. gin's
-- BindJSON is a parameter.
pub mod Patterns
pub mod Found
pub mod Filter
mod Tests
use mini_gateway.Common.{
  ℕ, ◌+◌, String, Bool, true, false, not, ◌&&◌, ◌||◌, List, [], ◌∷◌, ◌++◌, map, Option, none, some,
  any, codes, leb, ◌==◌, str_eq, if◌then◌else◌,
}
use mini_gateway.Security.{Handled, next, abort}

-- `letters` is `[a-z]+`, `maybe_space` is ` ?`, and `boundary` is `\b`.
pub data Item : Type 0 where
  lit : ℕ → Item
  boundary letters maybe_space : Item

abbrev pub Pattern : Type 0
Pattern = List (List Item)

-- The lower-case letter of a rune: U+017F folds to s and U+212A to k.
unfoldable pub fold : ℕ → ℕ
fold x =
    if leb b'A' x && leb x b'Z'
    then x + 32
    else if x == 0x17F
    then b's'
    else if x == 0x212A
    then b'k'
    else x

unfoldable pub is_letter : ℕ → Bool
is_letter x = leb b'a' x && leb x b'z'

unfoldable pub is_word : ℕ → Bool
unfolding is_letter
is_word x = is_letter x || (leb b'A' x && leb x b'Z') || (leb b'0' x && leb x b'9') || x == b'_'

abbrev pub word_before : Option ℕ → Bool
unfolding is_word
word_before none = false
word_before (some x) = is_word x

abbrev pub word_after : List ℕ → Bool
unfolding is_word
word_after [] = false
word_after (x ∷ s) = is_word x

abbrev differ : Bool → Bool → Bool
differ true b = not b
differ false b = b

-- Whether the items match at the start of the text, after the rune `prev`.
unfoldable pub match_items : Option ℕ → List Item → List ℕ → Bool
unfolding fold is_letter word_before word_after
match_items prev [] s = true
match_items prev (lit c ∷ items) [] = false
match_items prev (lit c ∷ items) (x ∷ s) = fold x == c && match_items (some x) items s
match_items prev (boundary ∷ items) s =
    differ (word_before prev) (word_after s) && match_items prev items s
match_items prev (letters ∷ items) [] = false
match_items prev (letters ∷ items) (x ∷ s) =
    is_letter (fold x) && (match_items (some x) items s || match_items (some x) (letters ∷ items) s)
match_items prev (maybe_space ∷ items) [] = match_items prev items []
match_items prev (maybe_space ∷ items) (x ∷ s) =
    x == b' ' && match_items (some x) items s || match_items prev items (x ∷ s)

-- `MatchString`: some alternative matches somewhere.
unfoldable pub match_from : Option ℕ → Pattern → List ℕ → Bool
unfolding match_items
match_from prev pattern [] = any (λ items. match_items prev items []) pattern
match_from prev pattern (x ∷ s) =
    any (λ items. match_items prev items (x ∷ s)) pattern || match_from (some x) pattern s

abbrev pub literal : String → List Item
literal text = map lit (codes text)

-- `\b` on both sides.
abbrev pub word : String → List Item
word text = boundary ∷ literal text ++ boundary ∷ []

abbrev pub sql_commands : Pattern
sql_commands =
    word "union"
    ∷ word "select"
    ∷ word "insert"
    ∷ word "update"
    ∷ word "delete"
    ∷ word "drop"
    ∷ word "alter"
    ∷ word "create"
    ∷ word "truncate"
    ∷ word "exec"
    ∷ word "execute"
    ∷ []

abbrev pub sql_clauses : Pattern
sql_clauses = word "from" ∷ word "into" ∷ word "where" ∷ word "having" ∷ word "join" ∷ []

abbrev pub xss_tags : Pattern
xss_tags =
    literal "<script"
    ∷ literal "<iframe"
    ∷ literal "<object"
    ∷ literal "<embed"
    ∷ literal "<svg"
    ∷ literal "<img"
    ∷ (literal "on" ++ letters ∷ maybe_space ∷ literal "=")
    ∷ []

abbrev pub xss_schemes : Pattern
xss_schemes = literal "javascript:" ∷ literal "data:" ∷ literal "vbscript:" ∷ []

abbrev pub shell_commands : Pattern
shell_commands =
    word "exec"
    ∷ word "system"
    ∷ word "eval"
    ∷ word "bash"
    ∷ word "sh"
    ∷ word "cmd"
    ∷ word "powershell"
    ∷ []

-- The third alternative is a backslash and a slash.
abbrev pub file_paths : Pattern
file_paths =
    literal "../" ∷ literal "../../" ∷ (lit 92 ∷ lit b'/' ∷ []) ∷ word "etc" ∷ word "passwd" ∷ []

abbrev pub injection_patterns : List Pattern
injection_patterns =
    sql_commands ∷ sql_clauses ∷ xss_tags ∷ xss_schemes ∷ shell_commands ∷ file_paths ∷ []

-- The patterns stay a variable here, so that proofs do not compute with them.
unfoldable pub any_match : List Pattern → List ℕ → Bool
unfolding match_from
any_match patterns s = any (λ pattern. match_from none pattern s) patterns

unfoldable pub is_injection_detected : List ℕ → Bool
unfolding any_match
is_injection_detected s = any_match injection_patterns s

-- The test of `DetectInjection`; its second result is not used.
unfoldable pub detect_injection : String → String → Bool
unfolding is_injection_detected
detect_injection key value =
    is_injection_detected (codes key) || is_injection_detected (codes value)

-- The values of a key of a query, a form or a header.
unfoldable pub detect_values : List (String × List String) → Bool
unfolding detect_injection
detect_values entries = any (λ entry. any (detect_injection entry.0) entry.1) entries

unfoldable pub detect_fields : List (String × String) → Bool
unfolding detect_injection
detect_fields fields = any (λ field. detect_injection field.0 field.1) fields

-- `form` is none if the form does not parse, and `body` is none if it cannot be read.
pub record Request : Type 0 where
  pub method : String
  pub query : List (String × List String)
  pub form : Option (List (String × List String))
  pub body : Option String
  pub header : List (String × List String)

abbrev form_entries : Option (List (String × List String)) → List (String × List String)
form_entries none = []
form_entries (some entries) = entries

-- What BindJSON does with a body: the status with which it aborts the request, if it does, and the
-- fields with their values printed, if the body is a JSON object.
abbrev pub Binder : Type 0
Binder = String → Option ℕ × Option (List (String × String))

abbrev fields_of : Option (List (String × String)) → List (String × String)
fields_of none = []
fields_of (some fields) = fields

-- `c.Next()` of a request that may be aborted already.
abbrev finish : Option ℕ → Handled
finish none = next none
finish (some status) = abort status

unfoldable pub check_header : Option ℕ → Request → Handled
unfolding detect_values
check_header aborted r = if detect_values r.header then abort 400 else finish aborted

unfoldable pub check_body : Binder → Option String → Request → Handled
unfolding detect_fields check_header
check_body bind none r = next none
check_body bind (some body) r =
    if detect_fields (fields_of (bind body).1) then abort 400 else check_header (bind body).0 r

unfoldable pub anti_injection : Binder → Request → Handled
unfolding detect_values check_body check_header
anti_injection bind r =
    if detect_values r.query
    then abort 400
    else if detect_values (form_entries r.form)
    then abort 400
    else if str_eq r.method "POST" || str_eq r.method "PUT"
    then check_body bind r.body r
    else check_header none r
