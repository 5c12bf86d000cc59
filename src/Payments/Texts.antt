-- ===== src/Payments/Texts.antt =====
-- The standard library's text and dictionary operations that the payment service uses on provider
-- payloads. Case and white space are those of ASCII, in which the provider writes its fields.
use Prim.Native.String.{[], ◌∷◌, char_at}
use Prim.Native.Char.{Char, code}
use scope_guard.Base.{
  ℕ, String, Bool, true, false, not, ◌&&◌, ◌||◌, Option, none, some, leb, ◌-◌, ◌==◌, str_eq,
  if◌then◌else◌, Json, null, bool, num, other, str, arr, obj, nil, cons, Fields, end, field,
}

unfoldable pub is_space : Char → Bool
is_space c = code c == 32 || leb 9 (code c) && leb (code c) 13

abbrev pub is_empty : String → Bool
is_empty [] = true
is_empty (c ∷ s) = false

unfoldable pub strip_left : String → String
strip_left [] = []
strip_left (c ∷ s) = let rest = strip_left s in if is_space c then rest else c ∷ s

unfoldable pub strip_right : String → String
strip_right [] = []
strip_right (c ∷ s) =
    let rest = strip_right s in if is_empty rest && is_space c then [] else c ∷ rest

-- `s.strip()`
unfoldable pub strip : String → String
strip s = strip_left (strip_right s)

unfoldable pub lower_char : Char → Char
lower_char c =
    if leb 65 (code c) && leb (code c) 90
    then char_at "abcdefghijklmnopqrstuvwxyz" (code c - 65)
    else c

unfoldable pub upper_char : Char → Char
upper_char c =
    if leb 97 (code c) && leb (code c) 122
    then char_at "ABCDEFGHIJKLMNOPQRSTUVWXYZ" (code c - 97)
    else c

-- `s.lower()` and `s.upper()`
unfoldable pub lower : String → String
lower [] = []
lower (c ∷ s) = lower_char c ∷ lower s

unfoldable pub upper : String → String
upper [] = []
upper (c ∷ s) = upper_char c ∷ upper s

-- `s or None`
abbrev pub non_empty : String → Option String
non_empty [] = none
non_empty (c ∷ s) = some (c ∷ s)

-- `a or b` where `a` is text
abbrev pub text_or : String → String → String
text_or [] b = b
text_or (c ∷ s) b = c ∷ s

abbrev pub zero? : ℕ → Bool
zero? n = n == 0

-- Python's truth of a value that may be missing
unfoldable pub truthy : Option Json → Bool
truthy none = false
truthy (some null) = false
truthy (some (bool b)) = b
truthy (some (num n)) = not (zero? n)
truthy (some other) = true
truthy (some (str s)) = not (is_empty s)
truthy (some (arr nil)) = false
truthy (some (arr (cons v vs))) = true
truthy (some (obj end)) = false
truthy (some (obj (field k v rest))) = true

-- `a or b`
unfoldable pub either : Option Json → Option Json → Option Json
either a b = if truthy a then a else b

-- `d.get(name, b)`: a key that is there wins, whatever its value
abbrev pub get_or : Option Json → Option Json → Option Json
get_or none b = b
get_or (some a) b = some a

-- `isinstance(v, Mapping)`, with its fields
abbrev pub fields_of : Option Json → Fields
fields_of (some (obj fs)) = fs
fields_of _ = end

-- `isinstance(v, int) and not isinstance(v, bool)`
abbrev pub int_of : Option Json → Option ℕ
int_of (some (num n)) = some n
int_of _ = none

-- A nullable text column against a text.
unfoldable pub opt_eq : Option String → String → Bool
opt_eq none t = false
opt_eq (some s) t = str_eq s t

unfoldable pub opt_ℕ_eq : Option ℕ → ℕ → Bool
opt_ℕ_eq none n = false
opt_ℕ_eq (some m) n = m == n

-- Library functions whose results are only stored and compared: `str()` of a value that is not text,
-- SHA-256 of canonical and of plain JSON, and of a request's identity with an attempt number.
pub record Host : Type 0 where
  pub repr : Json → String
  pub canonical_sha256 : Json → ℕ
  pub canonical_hex : Json → String
  pub payload_hex : Json → String
  pub reference_hex : ℕ → ℕ → String

-- `str(v or "")`
unfoldable pub text_in : Host → Option Json → String
text_in host (some (str s)) = s
text_in host v = if truthy v then elim v [ some j ↦ host.repr j | none ↦ "" ] else ""
