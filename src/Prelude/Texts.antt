-- ===== src/Prelude/Texts.antt =====
-- Python's `in` on texts without regard to the case of ASCII letters, and `or` on an optional text.
use Prim.Native.Char.{code}
use Prim.Native.String.{slice}
use eve_station_trader.Prelude.{
  ℕ, zero, suc, ◌+◌, ◌/◌, ◌%◌, ltb, concat, ◌≡◌, refl, Bool, true, false, Option, none, some, List,
  not, [], ◌∷◌, String, ◌==◌, ◌&&◌, ◌||◌, leb, str_eq, if◌then◌else◌,
}

codes : String → List ℕ
codes String.[] = []
codes (String.◌∷◌ c s) = code c ∷ codes s

-- `str.lower` on one character; no other character has a letter of ASCII as its lower case here.
lower : ℕ → ℕ
lower c = if leb b'A' c && leb c b'Z' then c + 32 else c

starts_lower : List ℕ → List ℕ → Bool
unfolding lower
starts_lower text [] = true
starts_lower [] (p ∷ ps) = false
starts_lower (c ∷ text) (p ∷ ps) = lower c == p && starts_lower text ps

occurs_lower : List ℕ → List ℕ → Bool
unfolding starts_lower
occurs_lower [] part = starts_lower [] part
occurs_lower (c ∷ text) part = starts_lower (c ∷ text) part || occurs_lower text part

-- part in text.lower()
unfoldable pub in_lower : String → String → Bool
unfolding occurs_lower codes
in_lower part text = occurs_lower (codes text) (codes part)

-- text or default: an empty text is false too.
unfoldable pub text_or : Option String → String → String
text_or none d = d
text_or (some s) d = if str_eq s "" then d else s

finds_stale : in_lower "stale" "Force-cleared STALE job" ≡ true
unfolding in_lower
finds_stale = refl

finds_no_stale : in_lower "stale" "Cancelled stal job" ≡ false
unfolding in_lower
finds_no_stale = refl

-- str(n): one digit for each unit of fuel, and `n + 1` digits are enough.
digits_text : ℕ → ℕ → String → String
digits_text zero n rest = rest
digits_text (suc fuel) n rest =
    let text = concat (slice "0123456789" (n % 10) (n % 10 + 1)) rest in
    let more = digits_text fuel (n / 10) text in if ltb n 10 then text else more

unfoldable pub decimal : ℕ → String
unfolding digits_text
decimal n = digits_text (n + 1) n ""

shows_number : decimal 4070 ≡ "4070"
unfolding decimal
shows_number = refl

-- The characters that `str.isspace` knows.
is_space : ℕ → Bool
is_space c =
    leb 9 c && leb c 13
    || leb 28 c && leb c 32
    || c == 133
    || c == 160
    || c == 5760
    || leb 8192 c && leb c 8202
    || c == 8232
    || c == 8233
    || c == 8239
    || c == 8287
    || c == 12288

lstrip : String → String
unfolding is_space
lstrip String.[] = ""
lstrip (String.◌∷◌ c s) = let rest = lstrip s in if is_space (code c) then rest else String.◌∷◌ c s

-- A space goes if nothing but spaces follows.
rstrip : String → String
unfolding is_space
rstrip String.[] = ""
rstrip (String.◌∷◌ c s) =
    let rest = rstrip s in if is_space (code c) && str_eq rest "" then "" else String.◌∷◌ c rest

-- text.strip()
unfoldable pub strip : String → String
unfolding lstrip rstrip
strip s = rstrip (lstrip s)

any_suffix : (List ℕ → Bool) → List ℕ → Bool
any_suffix test [] = test []
any_suffix test (c ∷ cs) = test (c ∷ cs) || any_suffix test cs

same_letter : ℕ → List ℕ → (List ℕ → Bool) → Bool
unfolding lower
same_letter p [] rest = false
same_letter p (c ∷ cs) rest = lower p == lower c && rest cs

any_letter : List ℕ → (List ℕ → Bool) → Bool
any_letter [] rest = false
any_letter (c ∷ cs) rest = rest cs

-- SQL's ILIKE on the letters of ASCII: % stands for any text, _ for any character, and a backslash
-- takes the next character as it is.
matches : Bool → List ℕ → List ℕ → Bool
unfolding any_suffix same_letter any_letter
matches escaped [] [] = not escaped
matches escaped [] (c ∷ cs) = false
matches escaped (p ∷ ps) cs =
    if escaped
    then same_letter p cs (matches false ps)
    else if p == b'%'
    then any_suffix (matches false ps) cs
    else if p == b'_'
    then any_letter cs (matches false ps)
    else if p == 92
    then matches true ps cs
    else same_letter p cs (matches false ps)

-- text.ilike(f"%{part}%")
unfoldable pub ilike_part : String → String → Bool
unfolding codes matches
ilike_part text part = matches false (codes (concat "%" (concat part "%"))) (codes text)

strips : strip "  a b\t " ≡ "a b"
unfolding strip
strips = refl

finds_part : ilike_part "Large Skill Injector" "skill_inj" ≡ true
unfolding ilike_part
finds_part = refl

finds_no_part : ilike_part "Large Skill Injector" "small" ≡ false
unfolding ilike_part
finds_no_part = refl
