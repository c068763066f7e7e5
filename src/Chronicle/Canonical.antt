-- ===== src/Chronicle/Canonical.antt =====
-- `_canon`, `canonical_bytes` and `state_hash` of chronicle/core.py. The result of
-- `canonical_bytes` is the text whose UTF-8 encoding the program hashes; SHA-256 is a parameter.
pub mod Form
pub mod Idempotent
pub mod Insertion
pub mod Lookup
use Prim.Native.Char.{code}
use Prim.Native.String.{◌++◌ as join, compare as compare_text}
use dentatus.Prelude.{
  ℕ, zero, suc, ◌+◌, ◌-◌, ◌/◌, ◌%◌, String, true, false, ◌&&◌, ltb, leb, ◌==◌, if◌then◌else◌,
  Ordering,
}
use dentatus.Prelude.Int.{ℤ, pos, negsuc}
use dentatus.Chronicle.Value.{
  Value, null, bool, int, float, str, list, dict, Values, nil, cons, Fields, end, field,
}

infixr 66 ◌^^◌
abbrev pub ◌^^◌ : String → String → String
◌^^◌ = join

digit : ℕ → String
digit d =
    if d == 0
    then "0"
    else if d == 1
    then "1"
    else if d == 2
    then "2"
    else if d == 3
    then "3"
    else if d == 4
    then "4"
    else if d == 5
    then "5"
    else if d == 6
    then "6"
    else if d == 7
    then "7"
    else if d == 8
    then "8"
    else if d == 9
    then "9"
    else if d == 10
    then "a"
    else if d == 11
    then "b"
    else if d == 12
    then "c"
    else if d == 13
    then "d"
    else if d == 14
    then "e"
    else "f"

-- the decimal digits of `n`, before `rest`; each round divides, so `n` rounds are enough
digits_from : ℕ → ℕ → String → String
digits_from zero n rest = rest
digits_from (suc f) n rest =
    let text = digits_from f (n / 10) (digit (n % 10) ^^ rest) in
    if ltb n 10 then digit n ^^ rest else text

unfoldable pub show_nat : ℕ → String
unfolding digits_from digit
show_nat n = digits_from (suc n) n ""

unfoldable pub show_int : ℤ → String
unfolding show_nat
show_int (pos n) = show_nat n
show_int (negsuc n) = "-" ^^ show_nat (suc n)

hex4 : ℕ → String
unfolding digit
hex4 n = digit (n / 4096 % 16) ^^ digit (n / 256 % 16) ^^ digit (n / 16 % 16) ^^ digit (n % 16)

-- the escapes of `json.dumps` with `ensure_ascii`
escape_code : ℕ → String → String
unfolding hex4
escape_code c plain =
    if c == 34
    then "\\\""
    else if c == 92
    then "\\\\"
    else if c == 10
    then "\\n"
    else if c == 13
    then "\\r"
    else if c == 9
    then "\\t"
    else if c == 8
    then "\\b"
    else if c == 12
    then "\\f"
    else if leb 32 c && leb c 126
    then plain
    else if ltb c 65536
    then "\\u" ^^ hex4 c
    else "\\u" ^^ hex4 (55296 + (c - 65536) / 1024) ^^ "\\u" ^^ hex4 (56320 + (c - 65536) % 1024)

escape : String → String
unfolding escape_code
escape String.[] = ""
escape (String.◌∷◌ c s) = escape_code (code c) (String.◌∷◌ c String.[]) ^^ escape s

quote : String → String
unfolding escape
quote s = "\"" ^^ escape s ^^ "\""

-- insertion by key; a dict's keys differ, so the order of equal keys does not arise
unfoldable pub insert_key : String → Value → Fields → Fields
insert_key k v end = field k v end
insert_key k v (field j w fs) = elim (compare_text k j) [
  | Ordering.gt ↦ field j w (insert_key k v fs)
  | _ ↦ field k v (field j w fs)
]

unfoldable mutual
  pub canon : Value → Value
  canon null = null
  canon (bool b) = bool b
  canon (int n) = int n
  canon (float text finite) = str text
  canon (str s) = str s
  canon (list xs) = list (canon_items xs)
  canon (dict fs) = dict (canon_fields fs)

  pub canon_items : Values → Values
  canon_items nil = nil
  canon_items (cons x xs) = cons (canon x) (canon_items xs)

  pub canon_fields : Fields → Fields
  canon_fields end = end
  canon_fields (field k v fs) = insert_key k (canon v) (canon_fields fs)

-- `json.dumps` with the separators "," and ":", on an object whose keys are already sorted
mutual
  unfolding quote show_int

  dumps : Value → String
  dumps null = "null"
  dumps (bool true) = "true"
  dumps (bool false) = "false"
  dumps (int n) = show_int n
  dumps (float text finite) = text
  dumps (str s) = quote s
  dumps (list nil) = "[]"
  dumps (list (cons x xs)) = "[" ^^ dumps x ^^ dumps_items xs
  dumps (dict end) = "{}"
  dumps (dict (field k v fs)) = "{" ^^ quote k ^^ ":" ^^ dumps v ^^ dumps_fields fs

  dumps_items : Values → String
  dumps_items nil = "]"
  dumps_items (cons x xs) = "," ^^ dumps x ^^ dumps_items xs

  dumps_fields : Fields → String
  dumps_fields end = "}"
  dumps_fields (field k v fs) = "," ^^ quote k ^^ ":" ^^ dumps v ^^ dumps_fields fs

unfoldable pub canonical_bytes : Value → String
unfolding dumps canon insert_key
canonical_bytes v = dumps (canon v)

module _ (sha256 : String → String) where
  unfoldable pub state_hash : Value → String
  unfolding canonical_bytes
  state_hash v = sha256 (canonical_bytes v)

  -- `sha256("%s|%s" % (a, b))`, the link of every hash chain of the program
  unfoldable pub hash_pair : String → String → String
  hash_pair a b = sha256 (a ^^ "|" ^^ b)

-- `"0" * 64`, the predecessor of the first record of every chain
abbrev pub genesis : String
genesis = "0000000000000000000000000000000000000000000000000000000000000000"
