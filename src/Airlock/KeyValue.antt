-- ===== src/Airlock/KeyValue.antt =====
-- airlock/adapters_kv.py: the membrane over a key-value store (config and repository state). Its
-- operations read a transition that is a dict; the values of the store are canonical, and so are the
-- constraints and claims, so that none of them is a float.
pub mod Frozen
use text.Mathlib.Text.{find?}
use dentatus.Prelude.{
  ℕ, ◌+◌, String, Bool, true, false, not, Option, none, some, List, [], ◌∷◌, ◌++◌, if◌then◌else◌,
  length, Outcome, ok, err, ◌>>=◌,
}
use dentatus.Prelude.Int.{ℤ, pos, ◌+ℤ◌, ◌-ℤ◌, abs, ltb_ℤ}
use dentatus.Prelude.Eq.{◌≟◌, string_eq}
use dentatus.Prelude.Dict.{Dict, lookup, lookup_or, insert, erase, contains}
use dentatus.Prelude.Sorting.{sorted}
use dentatus.Chronicle.Value.{
  Value, Values, nil, cons, null, bool, int, str, nat, list, dict, Fields, field, end, find, get,
  truthy,
}
use dentatus.Chronicle.Canonical.{◌^^◌, show_nat, show_int, canonical_bytes, state_hash}
use dentatus.Airlock.Adapter.{Applied, applied, refused, raised, Adapter}
use dentatus.Airlock.Membrane.{as_limit, exceeds, limit_text, has_text, is_found}

pub record World : Type 0 where
  pub kv : Dict String Value
  pub frozen : List String
  pub epoch : ℕ

abbrev pub empty_world : World
empty_world = record { kv = []; frozen = []; epoch = 0 }

-- `x in xs`
unfoldable pub mem : String → List String → Bool
mem s [] = false
mem s (t ∷ ts) = if t ≟ s then true else mem s ts

abbrev pub allowed_ops : List String
allowed_ops = "set" ∷ "delete" ∷ "bump" ∷ "freeze" ∷ []

-- the transition's key: a text that is not empty
unfoldable pub key_of : Option Value → Option String
key_of (some (str k)) = if k ≟ "" then none else some k
key_of _ = none

abbrev pub next_epoch : World → World
next_epoch w = record w { epoch = w.epoch + 1 }

-- `%r` of a text that needs no escape
abbrev quoted : String → String
quoted s = "'" ^^ s ^^ "'"

unfoldable pub set_value : String → Option Value → World → Applied World
set_value key none w = raised "'value'"
set_value key (some v) w = applied (next_epoch (record w { kv = insert key v w.kv }))

unfoldable pub delete_key : String → World → Applied World
delete_key key w =
    if contains key w.kv
    then applied (next_epoch (record w { kv = erase key w.kv }))
    else refused ("no key " ^^ quoted key)

-- `cur + by`, both integers that are no bools
unfoldable pub bump_value : String → Option Value → Option Value → World → Applied World
bump_value key (some (int cur)) (some (int by)) w =
    applied (next_epoch (record w { kv = insert key (int (cur +ℤ by)) w.kv }))
bump_value key _ _ w = refused "bump requires integer key and `by`"

-- `d.get(k, default)` of an integer default
abbrev pub or_int : ℤ → Option Value → Option Value
or_int n none = some (int n)
or_int n (some v) = some v

unfoldable pub freeze_key : String → World → World
freeze_key key w =
    if mem key w.frozen then w else record w { frozen = sorted (w.frozen ++ key ∷ []) }

unfoldable pub apply_op : String → String → Value → World → Applied World
apply_op op key txn w =
    if op ≟ "freeze"
    then applied (next_epoch (freeze_key key w))
    else if mem key w.frozen
    then refused ("key " ^^ quoted key ^^ " is frozen")
    else if op ≟ "set"
    then set_value key (get "value" txn) w
    else if op ≟ "delete"
    then delete_key key w
    else bump_value key (or_int (pos 0) (lookup key w.kv)) (or_int (pos 1) (get "by" txn)) w

unfoldable pub apply_key : String → Option String → Value → World → Applied World
apply_key op none txn w = refused "key must be a non-empty string"
apply_key op (some key) txn w = apply_op op key txn w

-- the op of a transition that reaches `apply` is a text, since the membrane tested it
unfoldable pub apply_named : Option Value → World → Value → Applied World
apply_named (some (str op)) w txn =
    if mem op allowed_ops
    then apply_key op (key_of (get "key" txn)) txn w
    else refused ("unknown op " ^^ quoted op)
apply_named _ w txn = refused "unknown op"

unfoldable pub apply : World → Value → Applied World
apply w txn = apply_named (get "op" txn) w txn

-- a bool equals the integer that it stands for
mutual
  numeric : Value → Value
  numeric (bool true) = int (pos 1)
  numeric (bool false) = int (pos 0)
  numeric (list xs) = list (numeric_items xs)
  numeric (dict fs) = dict (numeric_fields fs)
  numeric v = v

  numeric_items : Values → Values
  numeric_items nil = nil
  numeric_items (cons x xs) = cons (numeric x) (numeric_items xs)

  numeric_fields : Fields → Fields
  numeric_fields end = end
  numeric_fields (field k v fs) = field k (numeric v) (numeric_fields fs)

-- Python's `==` of canonical values, by their texts
unfoldable pub equal : Value → Value → Bool
unfolding numeric canonical_bytes
equal a b = canonical_bytes (numeric a) ≟ canonical_bytes (numeric b)

-- what one key contributes to the magnitude: `d.get(k)` of a missing key is `None`
unfoldable pub key_delta : Value → Value → ℕ
key_delta (int a) (int b) = if equal (int a) (int b) then 0 else abs (b -ℤ a)
key_delta a b = if equal a b then 0 else 1

abbrev pub or_null : Option Value → Value
or_null none = null
or_null (some v) = v

-- `set(a)`, and `set(b)` without it
unfoldable pub new_keys : Dict String Value → Dict String Value → List String
new_keys a [] = []
new_keys a ((k, v) ∷ b) = let rest = new_keys a b in if contains k a then rest else k ∷ rest

unfoldable pub keys : Dict String Value → List String
keys [] = []
keys ((k, v) ∷ d) = k ∷ keys d

unfoldable pub sum_deltas : List String → Dict String Value → Dict String Value → ℕ
sum_deltas [] a b = 0
sum_deltas (k ∷ ks) a b =
    key_delta (or_null (lookup k a)) (or_null (lookup k b)) + sum_deltas ks a b

unfoldable pub delta_norm : World → World → ℕ
unfolding sum_deltas keys new_keys
delta_norm w w2 = sum_deltas (keys w.kv ++ new_keys w.kv w2.kv) w.kv w2.kv

abbrev kv_fields : Dict String Value → Fields
kv_fields [] = end
kv_fields ((k, v) ∷ d) = field k v (kv_fields d)

abbrev texts : List String → Values
texts [] = nil
texts (s ∷ ss) = cons (str s) (texts ss)

-- the first required key that the store lacks; what cannot be hashed raises
unfoldable pub missing : Values → Dict String Value → Outcome (Option String)
missing nil kv = ok none
missing (cons (str k) ks) kv = if contains k kv then missing ks kv else ok (some (quoted k))
missing (cons (int n) ks) kv = ok (some (show_int n))
missing (cons (bool b) ks) kv = ok (some (if b then "True" else "False"))
missing (cons null ks) kv = ok (some "None")
missing (cons (Value.float text finite) ks) kv = ok (some text)
missing (cons (list xs) ks) kv = err "unhashable type: 'list'"
missing (cons (dict fs) ks) kv = err "unhashable type: 'dict'"

abbrev field_names : Fields → Values
field_names end = nil
field_names (field k v fs) = cons (str k) (field_names fs)

abbrev characters : String → Values
characters String.[] = nil
characters (String.◌∷◌ c s) = cons (str (String.◌∷◌ c String.[])) (characters s)

-- what a loop over the value goes through
abbrev pub items : Option Value → Outcome Values
items none = ok nil
items (some (list xs)) = ok xs
items (some (dict fs)) = ok (field_names fs)
items (some (str s)) = ok (characters s)
items (some _) = err "object is not iterable"

abbrev judge_missing : Option String → Bool × String
judge_missing (some k) = (false, "required key " ^^ k ^^ " absent")
judge_missing none = (true, "ok")

abbrev pub judge_keys : Fields → World → Option ℤ → Outcome (Bool × String)
judge_keys fs w limit =
    let rest =
      items (find "require_keys" fs) >>= λ ks. missing ks w.kv >>= λ m. ok (judge_missing m) in
    if exceeds (pos (length w.kv)) limit
    then ok (false, "key count " ^^ show_nat (length w.kv) ^^ " > max_keys " ^^ limit_text limit)
    else rest

-- constraints that are no dict have no `get`
unfoldable pub validate : World → Value → Outcome (Bool × String)
unfolding missing
validate w (dict fs) = as_limit (find "max_keys" fs) >>= λ limit. judge_keys fs w limit
validate w _ = err "'get'"

unfoldable pub forbidden : String → Dict String Value → Option String
forbidden bad [] = none
forbidden bad ((k, v) ∷ kv) = elim (find? k bad) [ none ↦ forbidden bad kv | some _ ↦ some k ]

abbrev judge_policy : String → Option String → Bool × String
judge_policy bad (some k) =
    (false, "key " ^^ quoted k ^^ " matches forbidden policy " ^^ quoted bad)
judge_policy bad none = (true, "policy-clean")

-- a policy that is no text is compared with no key of an empty store, and raises on another
abbrev pub run_policy : Value → Dict String Value → Outcome (Bool × String)
run_policy (str bad) kv = ok (judge_policy bad (forbidden bad kv))
run_policy other [] = ok (true, "policy-clean")
run_policy other (kv ∷ kvs) = err "'in <string>' requires string as left operand"

abbrev pub apply_policy : Option Value → Dict String Value → Outcome (Bool × String)
apply_policy none kv = ok (true, "no policy")
apply_policy (some bad) kv = if truthy bad then run_policy bad kv else ok (true, "no policy")

unfoldable pub validate_strict : World → Value → Outcome (Bool × String)
unfolding forbidden
validate_strict w (dict fs) = apply_policy (find "forbid_substr" fs) w.kv
validate_strict w _ = err "'get'"

unfoldable pub wrong_values : Fields → Dict String Value → ℕ
wrong_values end kv = 0
wrong_values (field k v fs) kv =
    let rest = wrong_values fs kv in if equal (or_null (lookup k kv)) v then rest else rest + 1

-- `int(x)`, where the number in a text is read by an argument
abbrev pub as_int : (String → Option ℤ) → Value → Outcome ℤ
as_int read (int n) = ok n
as_int read (bool b) = ok (if b then pos 1 else pos 0)
as_int read (str s) = elim (read s) [ some n ↦ ok n | none ↦ err "invalid literal for int()" ]
as_int read _ = err "int() argument must be a string or a number"

abbrev count_error : (String → Option ℤ) → ℕ → Option Value → Outcome ℕ
count_error read n none = ok 0
count_error read n (some v) = as_int read v >>= λ m. ok (abs (pos n -ℤ m))

abbrev value_error : Option Value → Dict String Value → Outcome ℕ
value_error none kv = ok 0
value_error (some (dict fs)) kv = ok (wrong_values fs kv)
value_error (some _) kv = err "'items'"

-- claims that are a list or a text without the names declare nothing
abbrev pub undeclared : Bool → Bool → Outcome (Option ℕ)
undeclared false false = ok (some 0)
undeclared _ _ = err "indices must be integers"

-- claims that are true
abbrev pub declared : (String → Option ℤ) → World → Value → Outcome (Option ℕ)
declared read w (dict fs) = count_error read (length w.kv) (find "expect_key_count" fs) >>= λ a.
    value_error (find "expect_value" fs) w.kv >>= λ b. ok (some (a + b))
declared read w (list xs) = undeclared (has_text "expect_key_count" xs) (has_text "expect_value" xs)
declared read w (str s) =
    undeclared (is_found (find? s "expect_key_count")) (is_found (find? s "expect_value"))
declared read w _ = err "argument is not iterable"

unfoldable pub residual : (String → Option ℤ) → World → Value → Outcome (Option ℕ)
unfolding wrong_values
residual read w claims = if truthy claims then declared read w claims else ok none

module _ (sha256 : String → String) where
  unfoldable pub world_hash : World → String
  world_hash w = state_hash sha256 (
      dict (
        field "kv" (dict (kv_fields w.kv))
          (field "frozen" (list (texts (sorted w.frozen))) (field "epoch" (nat w.epoch) end))))

  -- `read` is what `int` reads of a text
  abbrev pub adapter : (String → Option ℤ) → Adapter
  adapter read = record {
    World = World;
    allowed_ops = allowed_ops;
    cost = λ txn. ok (pos 1);
    apply = apply;
    delta_norm = λ w w2. ok (delta_norm w w2);
    state_hash = world_hash;
    validate = validate;
    residual = residual read;
    validate_strict = some validate_strict;
  }
