-- ===== src/Chronicle/Value.antt =====
-- The Python objects that reach a canonical serialisation. A float carries the text that
-- `format(x, ".12g")` gives for it and whether it is finite; the key of a dict is a `str`.
use dentatus.Prelude.{
  ℕ, ◌≡◌, refl, inl, inr, Bool-cases, String, Bool, true, false, not, Option, none, some,
  if◌then◌else◌,
}
use dentatus.Prelude.Eq.{◌≟◌, string_eq}
use dentatus.Prelude.Int.{ℤ, pos, eqb_ℤ}

mutual
  pub data Value : Type 0 where
    null : Value
    bool : Bool → Value
    int : ℤ → Value
    float : String → Bool → Value
    str : String → Value
    list : Values → Value
    dict : Fields → Value

  pub data Values : Type 0 where
    nil : Values
    cons : Value → Values → Values

  pub data Fields : Type 0 where
    end : Fields
    field : String → Value → Fields → Fields

abbrev pub nat : ℕ → Value
nat n = int (pos n)

-- `None`, or the text
abbrev pub opt_str : Option String → Value
opt_str none = null
opt_str (some s) = str s

unfoldable pub find : String → Fields → Option Value
find k end = none
find k (field j v fs) = if j ≟ k then some v else find k fs

-- `obj.get(key)` of a dict
unfoldable pub get : String → Value → Option Value
unfolding find
get k (dict fs) = find k fs
get k _ = none

-- `fs[k] = v`
unfoldable pub put_field : String → Value → Fields → Fields
put_field k v end = field k v end
put_field k v (field j w fs) = if j ≟ k then field j v fs else field j w (put_field k v fs)

-- Python's truth of a value; a float is taken for one that is not zero
unfoldable pub truthy : Value → Bool
truthy null = false
truthy (bool b) = b
truthy (int n) = not (eqb_ℤ n (pos 0))
truthy (float text finite) = true
truthy (str s) = not (s ≟ "")
truthy (list nil) = false
truthy (list xs) = true
truthy (dict end) = false
truthy (dict fs) = true

-- `v or {}`
unfoldable pub or_empty : Option Value → Value
or_empty none = dict end
or_empty (some v) = if truthy v then v else dict end

-- `v or None`
unfoldable pub or_none : Value → Option Value
or_none v = if truthy v then some v else none

pub or_empty-or_empty : (v : Option Value) → or_empty (some (or_empty v)) ≡ or_empty v
unfolding or_empty truthy
or_empty-or_empty none = refl
or_empty-or_empty (some v) = elim (Bool-cases (truthy v)) [
  | inl yes_ ↦ rw yes_ (rw yes_ refl)
  | inr no_ ↦ rw no_ refl
]
