-- ===== src/Base/Texts.antt =====
-- The methods of Python's `str` that the program uses, and the decimal form of an integer.
use Prim.Native.Nat.{ℕ, zero, suc, ◌+◌, ◌-◌, ◌*◌, ◌/◌, ◌%◌, Ordering}
use Prim.Native.Char.{Char, code}
use Prim.Native.String
use Prim.Native.String.{String}
use mathlib.Core.Bool.{Bool, true, false, ◌&&◌, ◌||◌}
use mathlib.Core.Option.{Option, none, some}
use mathlib.Core.List.{List, [], ◌∷◌}
use text.Mathlib.Text.{◌==◌}
use capability_os.Base.Tests.{leb, eqb, if◌then◌else◌}
use capability_os.Base.Ints.{ℤ, pos, negsuc}

infixr 65 ◌⋯◌
-- s + t, on texts.
abbrev pub ◌⋯◌ : String → String → String
s ⋯ t = String.◌++◌ s t

-- The characters that `str.strip` and `str.isspace` take for white space.
unfoldable pub is_space : ℕ → Bool
is_space c =
    leb 9 c && leb c 13
    || leb 28 c && leb c 32
    || eqb c 133
    || eqb c 160
    || eqb c 5760
    || leb 8192 c && leb c 8202
    || eqb c 8232
    || eqb c 8233
    || eqb c 8239
    || eqb c 8287
    || eqb c 12288

-- s.lstrip()
unfoldable pub lstrip : String → String
unfolding is_space
lstrip String.[] = String.[]
lstrip (String.◌∷◌ c s) = if is_space (code c) then lstrip s else String.◌∷◌ c s

-- A character in front of a text that is already stripped on the right.
abbrev pub strip_cons : Char → String → String
strip_cons c String.[] = if is_space (code c) then String.[] else String.◌∷◌ c String.[]
strip_cons c (String.◌∷◌ d s) = String.◌∷◌ c (String.◌∷◌ d s)

-- s.rstrip()
unfoldable pub rstrip : String → String
unfolding is_space
rstrip String.[] = String.[]
rstrip (String.◌∷◌ c s) = strip_cons c (rstrip s)

-- s.strip()
unfoldable pub strip : String → String
unfolding lstrip rstrip
strip s = rstrip (lstrip s)

-- What follows a prefix, where the text begins with it.
unfoldable pub strip_prefix : String → String → Option String
strip_prefix String.[] s = some s
strip_prefix (String.◌∷◌ d p) String.[] = none
strip_prefix (String.◌∷◌ d p) (String.◌∷◌ c s) =
    if eqb (code d) (code c) then strip_prefix p s else none

-- A character in front of the first piece.
abbrev cons_piece : Char → List String → List String
cons_piece c [] = String.◌∷◌ c String.[] ∷ []
cons_piece c (p ∷ ps) = String.◌∷◌ c p ∷ ps

-- s.split(sep), for a separator of one character.
unfoldable pub split : ℕ → String → List String
split sep String.[] = String.[] ∷ []
split sep (String.◌∷◌ c s) =
    let rest = split sep s in if eqb (code c) sep then String.[] ∷ rest else cons_piece c rest

-- The text before the first separator, and what follows it, if there is one.
unfoldable pub break_at : ℕ → String → String × Option String
break_at sep String.[] = (String.[], none)
break_at sep (String.◌∷◌ c s) =
    let (before, after) = break_at sep s in
    if eqb (code c) sep then (String.[], some s) else (String.◌∷◌ c before, after)

-- s[:-n], where the text ends with a suffix of n characters.
unfoldable pub strip_suffix : String → String → Option String
strip_suffix suffix String.[] = if String.[] == suffix then some String.[] else none
strip_suffix suffix (String.◌∷◌ c s) =
    let rest = strip_suffix suffix s in
    if String.◌∷◌ c s == suffix
    then some String.[]
    else elim rest [ none ↦ none | some r ↦ some (String.◌∷◌ c r) ]

unfoldable pub to_lower : ℕ → ℕ
to_lower c = if leb b'A' c && leb c b'Z' then c + 32 else c

unfoldable pub is_digit : ℕ → Bool
is_digit c = leb b'0' c && leb c b'9'

abbrev all_digits : String → Bool
all_digits String.[] = true
all_digits (String.◌∷◌ c s) = is_digit (code c) && all_digits s

-- s.isdigit(), on ASCII texts.
unfoldable pub isdigit : String → Bool
unfolding is_digit
isdigit String.[] = false
isdigit (String.◌∷◌ c s) = is_digit (code c) && all_digits s

abbrev decimal_from : ℕ → String → ℕ
decimal_from n String.[] = n
decimal_from n (String.◌∷◌ c s) = decimal_from (n * 10 + (code c - 48)) s

-- int(s), of a text of digits.
unfoldable pub decimal : String → ℕ
decimal s = decimal_from 0 s

-- The character of a digit.
abbrev digit : ℕ → String
digit zero = "0"
digit (suc zero) = "1"
digit (suc (suc zero)) = "2"
digit (suc (suc (suc zero))) = "3"
digit (suc (suc (suc (suc zero)))) = "4"
digit (suc (suc (suc (suc (suc zero))))) = "5"
digit (suc (suc (suc (suc (suc (suc zero)))))) = "6"
digit (suc (suc (suc (suc (suc (suc (suc zero))))))) = "7"
digit (suc (suc (suc (suc (suc (suc (suc (suc zero)))))))) = "8"
digit _ = "9"

-- The digits of a number; the fuel is the number itself, and each round divides by ten.
digits : ℕ → ℕ → String
digits zero n = digit (n % 10)
digits (suc f) n =
    let rest = digits f (n / 10) ⋯ digit (n % 10) in if leb n 9 then digit n else rest

-- str(n)
unfoldable pub show_int : ℤ → String
unfolding digits
show_int (pos n) = digits n n
show_int (negsuc n) = "-" ⋯ digits (suc n) (suc n)

-- Before or equal, in the order of Python's texts.
abbrev pub text_leb : String → String → Bool
text_leb s t = elim (String.compare s t) [ Ordering.gt ↦ false | _ ↦ true ]

abbrev insert_text : String → List String → List String
insert_text s [] = s ∷ []
insert_text s (t ∷ ts) =
    let rest = insert_text s ts in if text_leb s t then s ∷ t ∷ ts else t ∷ rest

-- sorted(texts)
unfoldable pub sorted : List String → List String
sorted [] = []
sorted (s ∷ ss) = insert_text s (sorted ss)

-- ", ".join(texts)
unfoldable pub join_comma : List String → String
join_comma [] = ""
join_comma (s ∷ []) = s
join_comma (s ∷ ss) = s ⋯ ", " ⋯ join_comma ss

-- The code points of a text.
unfoldable pub codes : String → List ℕ
codes String.[] = []
codes (String.◌∷◌ c s) = code c ∷ codes s
