-- ===== src/Common/Text.antt =====
-- Python's methods of a text that the program calls.
use Prim.Native.Nat.{◌/◌, ◌%◌}
use Prim.Native.Char.{Char, code}
use Prim.Native.String.{◌++◌ as append}
use kafka_a2a.Common.{
  ◌≡◌, refl, ℕ, zero, suc, String, Bool, true, false, List, [], ◌∷◌, ◌==◌, ◌&&◌, ◌||◌, ◌+◌, leb,
  nat_eq, if◌then◌else◌,
}

-- `c.isspace()`
is_space : ℕ → Bool
is_space c =
    (leb 9 c && leb c 13)
    || (leb 28 c && leb c 32)
    || nat_eq c 133
    || nat_eq c 160
    || nat_eq c 5760
    || (leb 8192 c && leb c 8202)
    || nat_eq c 8232
    || nat_eq c 8233
    || nat_eq c 8239
    || nat_eq c 8287
    || nat_eq c 12288

unfoldable pub lstrip : String → String
unfolding is_space
lstrip String.[] = ""
lstrip (String.◌∷◌ c s) = let rest = lstrip s in if is_space (code c) then rest else String.◌∷◌ c s

unfoldable pub rstrip : String → String
unfolding is_space
rstrip String.[] = ""
rstrip (String.◌∷◌ c s) =
    let rest = rstrip s in if is_space (code c) && rest == "" then "" else String.◌∷◌ c rest

unfoldable pub strip : String → String
unfolding lstrip rstrip
strip s = lstrip (rstrip s)

-- the first `n` characters
unfoldable pub take_chars : ℕ → String → String
take_chars zero s = ""
take_chars (suc n) String.[] = ""
take_chars (suc n) (String.◌∷◌ c s) = String.◌∷◌ c (take_chars n s)

unfoldable pub join : String → List String → String
join sep [] = ""
join sep (s ∷ []) = s
join sep (s ∷ t ∷ rest) = append s (append sep (join sep (t ∷ rest)))

strip_spaces : strip "  a b\n" ≡ "a b"
unfolding strip
strip_spaces = refl

-- `len(s)`
unfoldable pub chars : String → ℕ
chars String.[] = 0
chars (String.◌∷◌ c s) = suc (chars s)

unfoldable pub digit : ℕ → Char
digit n =
    if nat_eq n 0
    then "0"
    else if nat_eq n 1
    then "1"
    else if nat_eq n 2
    then "2"
    else if nat_eq n 3
    then "3"
    else if nat_eq n 4
    then "4"
    else if nat_eq n 5
    then "5"
    else if nat_eq n 6
    then "6"
    else if nat_eq n 7
    then "7"
    else if nat_eq n 8
    then "8"
    else "9"

-- the decimal text of a number below 10 ^ fuel, before `rest`
unfoldable pub decimal_from : ℕ → ℕ → String → String
unfolding digit
decimal_from zero n rest = rest
decimal_from (suc f) n rest =
    let text = String.◌∷◌ (digit (n % 10)) rest in
    let more = decimal_from f (n / 10) text in if leb n 9 then text else more

-- `str(n)`; a number has at most as many digits as itself plus one
unfoldable pub decimal : ℕ → String
unfolding decimal_from
decimal n = decimal_from (suc n) n ""

decimal_runs : decimal 8192 ≡ "8192"
unfolding decimal
decimal_runs = refl

-- the code of the small letter of an ASCII capital, and any other code as it is
abbrev lower_code : ℕ → ℕ
lower_code c = if leb b'A' c && leb c b'Z' then c + 32 else c

-- `s.lower()` of an ASCII text, as codes
unfoldable pub lower_codes : String → List ℕ
lower_codes String.[] = []
lower_codes (String.◌∷◌ c s) = lower_code (code c) ∷ lower_codes s

begins_with : List ℕ → List ℕ → Bool
begins_with [] s = true
begins_with (c ∷ cs) [] = false
begins_with (c ∷ cs) (d ∷ ds) = let rest = begins_with cs ds in if nat_eq c d then rest else false

-- `needle in s`, on codes
unfoldable pub occurs_in : List ℕ → List ℕ → Bool
unfolding begins_with
occurs_in needle [] = begins_with needle []
occurs_in needle (c ∷ s) = begins_with needle (c ∷ s) || occurs_in needle s

-- a character more on the first of the words
abbrev onto_first : Char → List String → List String
onto_first c [] = String.◌∷◌ c "" ∷ []
onto_first c (w ∷ ws) = String.◌∷◌ c w ∷ ws

-- `s.split(",")`
unfoldable pub split_commas : String → List String
split_commas String.[] = "" ∷ []
split_commas (String.◌∷◌ c s) =
    let words = split_commas s in if nat_eq (code c) b',' then "" ∷ words else onto_first c words

-- `{w.strip() for w in words if w.strip()}`, in the order of the words
unfoldable pub stripped : List String → List String
unfolding strip
stripped [] = []
stripped (w ∷ ws) = let rest = stripped ws in if strip w == "" then rest else strip w ∷ rest
