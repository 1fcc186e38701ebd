-- ===== src/State/Scan.antt =====
-- The regular expressions of system/core/state/state_manager.py, as scanners.
use Prim.Native.Char.{Char, code}
use Prim.Native.String
use capability_os.Base.{
  ℕ, zero, suc, ◌-◌, String, Bool, true, false, ◌&&◌, ◌||◌, Option, none, some, List, [], ◌∷◌, ◌==◌,
  not, is_digit, if◌then◌else◌, eqb, leb, ◌⋯◌, strip_prefix, break_at,
}

-- A template is its plain parts and its tokens, `{{inner}}`.
pub data Piece : Type 0 where
  plain : String → Piece
  token : String → Piece

unfoldable pub braced : String → String
braced inner = "{{" ⋯ inner ⋯ "}}"

-- How far a match of `\{\{([^{}]+)\}\}` has come: nothing of it, one brace, two braces and the
-- text since, and one closing brace more.
pub data Progress : Type 0 where
  outside : Progress
  one_brace : Progress
  inside : String → Progress
  closing : String → Progress

abbrev snoc : String → Char → String
snoc s c = s ⋯ String.◌∷◌ c String.[]

-- One character further: the progress after it, the plain text that it ends, and the token.
advance : Progress → Char → Progress × String × Option String
advance outside c = if eqb (code c) b'{' then (one_brace, "", none) else (outside, snoc "" c, none)
advance one_brace c =
    if eqb (code c) b'{' then (inside "", "", none) else (outside, snoc "{" c, none)
advance (inside acc) c =
    if eqb (code c) b'{'
    then (if acc == "" then (inside "", "{", none) else (one_brace, "{{" ⋯ acc, none))
    else if eqb (code c) b'}'
    then (if acc == "" then (outside, "{{}", none) else (closing acc, "", none))
    else (inside (snoc acc c), "", none)
advance (closing acc) c =
    if eqb (code c) b'{'
    then (one_brace, "{{" ⋯ acc ⋯ "}", none)
    else if eqb (code c) b'}'
    then (outside, "", some acc)
    else (outside, "{{" ⋯ acc ⋯ snoc "}" c, none)

-- What a match that the text's end cuts short leaves as plain text.
pending : Progress → String
pending outside = ""
pending one_brace = "{"
pending (inside acc) = "{{" ⋯ acc
pending (closing acc) = "{{" ⋯ acc ⋯ "}"

-- Plain text in front of the pieces, joined to plain text that they begin with.
pub emit : String → List Piece → List Piece
emit s (plain t ∷ ps) = plain (s ⋯ t) ∷ ps
emit s ps = if s == "" then ps else plain s ∷ ps

emit_token : Option String → List Piece → List Piece
emit_token none ps = ps
emit_token (some inner) ps = token inner ∷ ps

unfoldable pub scan_from : Progress → String → List Piece
unfolding advance pending emit emit_token
scan_from p String.[] = emit (pending p) []
scan_from p (String.◌∷◌ c s) =
    let (p', read, found) = advance p c in emit read (emit_token found (scan_from p' s))

-- `_TOKEN_PATTERN.finditer`, with the text between the matches.
unfoldable pub scan : String → List Piece
unfolding scan_from
scan = scan_from outside

replace_from : String → String → ℕ → String → String
unfolding strip_prefix
replace_from old new n String.[] = ""
replace_from old new (suc k) (String.◌∷◌ c s) = replace_from old new k s
replace_from old new zero (String.◌∷◌ c s) = elim (strip_prefix old (String.◌∷◌ c s)) [
  | some _ ↦ new ⋯ replace_from old new (String.count old - 1) s
  | none ↦ String.◌∷◌ c (replace_from old new 0 s)
]

-- s.replace(old, new), for an `old` that is not empty.
unfoldable pub replace : String → String → String → String
unfolding replace_from
replace old new s = replace_from old new 0 s

unfoldable pub is_lower : ℕ → Bool
is_lower c = leb b'a' c && leb c b'z'

-- How far a text has come in `[a-z]+(?:_[a-z0-9]+)*`: before its first letter, in the first word,
-- behind an underscore, in a later word, or past any match.
pub data Word : Type 0 where
  start first under later failed : Word

abbrev pub word_step : Word → ℕ → Word
unfolding is_lower is_digit
word_step start c = if is_lower c then first else failed
word_step first c = if is_lower c then first else if eqb c b'_' then under else failed
word_step under c = if is_lower c || is_digit c then later else failed
word_step later c = if is_lower c || is_digit c then later else if eqb c b'_' then under else failed
word_step failed c = failed

unfoldable pub words : Word → String → Word
unfolding is_lower is_digit
words w String.[] = w
words w (String.◌∷◌ c s) = words (word_step w (code c)) s

abbrev pub accepts : Word → Bool
accepts first = true
accepts later = true
accepts _ = false

-- The whole text matches `[a-z]+(?:_[a-z0-9]+)*`.
unfoldable pub is_snake : String → Bool
unfolding words
is_snake s = accepts (words start s)

-- `$` matches also in front of a newline that ends the text.
unfoldable pub chop_newline : String → String
chop_newline String.[] = ""
chop_newline (String.◌∷◌ c String.[]) = if eqb (code c) 10 then "" else String.◌∷◌ c ""
chop_newline (String.◌∷◌ c s) = String.◌∷◌ c (chop_newline s)

-- `.+` takes any character but a newline, and at least one.
abbrev pub one_line : String → Bool
one_line String.[] = true
one_line (String.◌∷◌ c s) = not (eqb (code c) 10) && one_line s

unfoldable pub outputs_path : String → String → Option (String × String)
unfolding strip_prefix
outputs_path step_id rest =
    if rest == "outputs" then some (step_id, "") else elim (strip_prefix "outputs." rest) [
      | none ↦ none
      | some path ↦ if not (path == "") && one_line path then some (step_id, path) else none
    ]

-- `_STEP_PATTERN`: the step's id and the remainder, empty where that group is absent.
unfoldable pub step_reference : String → Option (String × String)
unfolding chop_newline break_at outputs_path is_snake strip_prefix
step_reference expression = elim (strip_prefix "steps." (chop_newline expression)) [
  | none ↦ none
  | some rest ↦
      let (step_id, after) = break_at b'.' rest in
      if is_snake step_id
      then (elim after [ none ↦ none | some tail ↦ outputs_path step_id tail ])
      else none
]
