-- ===== src/Chronicle/Canonical/Idempotent.antt =====
-- `_canon` of chronicle/core.py leaves its own results as they are.
use Prim.Native.Nat.{Ordering}
use Prim.Native.String.{compare as compare_text}
use dentatus.Prelude.{String, ◌≡◌, refl, ap, ◌∙◌, ◌⊎◌, inl, inr}
use dentatus.Chronicle.Value.{
  Value, null, bool, int, float, str, list, dict, Values, nil, cons, Fields, end, field,
}
use dentatus.Chronicle.Canonical.{canon, canon_items, canon_fields, insert_key}
use dentatus.Chronicle.Canonical.Insertion.{
  swap, compare_text-swap, insert_key_past, insert_key_front, Ordering-cases,
}

-- the key is not greater
abbrev pub IsAtMost : String → String → Type 0
IsAtMost k j = (compare_text k j ≡ Ordering.eq) ⊎ (compare_text k j ≡ Ordering.lt)

-- the key may stand before the fields
abbrev pub IsFront : String → Fields → Type 0
IsFront k end = Unit
IsFront k (field j v fs) = IsAtMost k j

abbrev pub IsSorted : Fields → Type 0
IsSorted end = Unit
IsSorted (field k v fs) = IsFront k fs × IsSorted fs

-- every value is in canonical form
abbrev AreKept : Fields → Type 0
AreKept end = Unit
AreKept (field k v fs) = (canon v ≡ v) × AreKept fs

greater-IsAtMost : (k j : String) → compare_text k j ≡ Ordering.gt → IsAtMost j k
greater-IsAtMost k j g = inr (compare_text-swap j k ∙ ap swap g)

insert_key-IsFront :
    (j k : String) (v : Value) (fs : Fields)
    → IsAtMost j k
    → IsFront j fs
    → IsFront j (insert_key k v fs)
insert_key-IsFront j k v end le f = unfold insert_key in le
insert_key-IsFront j k v (field i w fs) le f = elim (Ordering-cases k i) [
  | inl g ↦ rw (insert_key_past k i v w fs g) f
  | inr front ↦ rw (insert_key_front k i v w fs front) le
]

insert_key-IsSorted :
    (k : String) (v : Value) (fs : Fields) → IsSorted fs → IsSorted (insert_key k v fs)
insert_key-IsSorted k v end s = unfold insert_key in (tt, tt)
insert_key-IsSorted k v (field i w fs) (f, s) = elim (Ordering-cases k i) [
  | inl g ↦
      rw (insert_key_past k i v w fs g)
        (insert_key-IsFront i k v fs (greater-IsAtMost k i g) f, insert_key-IsSorted k v fs s)
  | inr front ↦ rw (insert_key_front k i v w fs front) (front, (f, s))
]

pub canon_fields-IsSorted : (fs : Fields) → IsSorted (canon_fields fs)
unfolding canon_fields
canon_fields-IsSorted end = tt
canon_fields-IsSorted (field k v fs) =
    insert_key-IsSorted k (canon v) (canon_fields fs) (canon_fields-IsSorted fs)

insert_key-AreKept :
    (k : String) (v : Value) (fs : Fields) → canon v ≡ v → AreKept fs → AreKept (insert_key k v fs)
insert_key-AreKept k v end c a = unfold insert_key in (c, tt)
insert_key-AreKept k v (field i w fs) c (d, a) = elim (Ordering-cases k i) [
  | inl g ↦ rw (insert_key_past k i v w fs g) (d, insert_key-AreKept k v fs c a)
  | inr front ↦ rw (insert_key_front k i v w fs front) (c, (d, a))
]

insert_key-IsFront_lem :
    (k : String) (v : Value) (fs : Fields) → IsFront k fs → insert_key k v fs ≡ field k v fs
insert_key-IsFront_lem k v end f = unfold insert_key in refl
insert_key-IsFront_lem k v (field j w fs) f = insert_key_front k j v w fs f

canon_fields-AreKept : (fs : Fields) → IsSorted fs → AreKept fs → canon_fields fs ≡ fs
unfolding canon_fields
canon_fields-AreKept end s a = refl
canon_fields-AreKept (field k v fs) (f, s) (c, a) =
    rw (c, canon_fields-AreKept fs s a) (insert_key-IsFront_lem k v fs f)

mutual
  unfolding canon

  kept : (v : Value) → canon (canon v) ≡ canon v
  kept null = refl
  kept (bool b) = refl
  kept (int n) = refl
  kept (float text finite) = refl
  kept (str s) = refl
  kept (list xs) = ap list (items_kept xs)
  kept (dict fs) =
      ap dict (canon_fields-AreKept (canon_fields fs) (canon_fields-IsSorted fs) (fields_kept fs))

  items_kept : (xs : Values) → canon_items (canon_items xs) ≡ canon_items xs
  items_kept nil = refl
  items_kept (cons x xs) = rw (kept x, items_kept xs) refl

  fields_kept : (fs : Fields) → AreKept (canon_fields fs)
  fields_kept end = tt
  fields_kept (field k v fs) =
      insert_key-AreKept k (canon v) (canon_fields fs) (kept v) (fields_kept fs)

-- The canonical form of a value is its own canonical form.
pub canon-canon : (v : Value) → canon (canon v) ≡ canon v
canon-canon v = kept v
