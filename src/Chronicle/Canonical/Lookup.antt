-- ===== src/Chronicle/Canonical/Lookup.antt =====
-- A dict and its form by `_canon` of chronicle/core.py have the same keys, with the canonical values.
use dentatus.Prelude.{String, ◌≡◌, refl, inl, inr, false, Bool-cases, Option, none, some}
use dentatus.Prelude.Eq.{◌≟◌, string_eq, beq_refl}
use dentatus.Chronicle.Value.{Value, Fields, end, field, find, put_field}
use dentatus.Chronicle.Canonical.{canon, canon_fields, insert_key}
use dentatus.Chronicle.Canonical.Insertion.{
  greater_apart, insert_key_past, insert_key_front, Ordering-cases,
}

abbrev pub canon_option : Option Value → Option Value
canon_option none = none
canon_option (some v) = some (canon v)

pub find-put_field_self :
    (k : String) (v : Value) (fs : Fields) → find k (put_field k v fs) ≡ some v
unfolding find put_field
find-put_field_self k v end = rw (beq_refl k) refl
find-put_field_self k v (field j w fs) = elim (Bool-cases (j ≟ k)) [
  | inl same ↦ rw same (rw same refl)
  | inr other ↦ rw other (rw other (find-put_field_self k v fs))
]

pub find-put_field_other :
    (k j : String) (v : Value) (fs : Fields)
    → (j ≟ k) ≡ false
    → find k (put_field j v fs) ≡ find k fs
unfolding find put_field
find-put_field_other k j v end apart = rw apart refl
find-put_field_other k j v (field i w fs) apart = elim (Bool-cases (i ≟ j)) [
  | inl same ↦ let eq : i ≡ j = (string_eq.decides i j).0 same in rw same (rw eq (rw apart refl))
  | inr other ↦ elim (Bool-cases (i ≟ k)) [
    | inl here_ ↦ rw other (rw here_ refl)
    | inr there_ ↦ rw other (rw there_ (find-put_field_other k j v fs apart))
  ]
]

find-insert_key_self : (k : String) (v : Value) (fs : Fields) → find k (insert_key k v fs) ≡ some v
unfolding find
find-insert_key_self k v end = unfold insert_key in rw (beq_refl k) refl
find-insert_key_self k v (field j w fs) = elim (Ordering-cases k j) [
  | inl g ↦
      rw (insert_key_past k j v w fs g) (rw (greater_apart k j g) (find-insert_key_self k v fs))
  | inr front ↦ rw (insert_key_front k j v w fs front) (rw (beq_refl k) refl)
]

find-insert_key_other :
    (k j : String) (v : Value) (fs : Fields)
    → (j ≟ k) ≡ false
    → find k (insert_key j v fs) ≡ find k fs
unfolding find
find-insert_key_other k j v end apart = unfold insert_key in rw apart refl
find-insert_key_other k j v (field i w fs) apart = elim (Ordering-cases j i) [
  | inl g ↦ rw (insert_key_past j i v w fs g) (elim (Bool-cases (i ≟ k)) [
    | inl here_ ↦ rw here_ refl
    | inr there_ ↦ rw there_ (find-insert_key_other k j v fs apart)
  ])
  | inr front ↦ rw (insert_key_front j i v w fs front) (rw apart refl)
]

pub find-canon_fields :
    (k : String) (fs : Fields) → find k (canon_fields fs) ≡ canon_option (find k fs)
unfolding find canon_fields
find-canon_fields k end = refl
find-canon_fields k (field j v fs) = elim (Bool-cases (j ≟ k)) [
  | inl same ↦
      let eq : j ≡ k = (string_eq.decides j k).0 same in
      rw same (rw eq (find-insert_key_self k (canon v) (canon_fields fs)))
  | inr other ↦
      rw (find-insert_key_other k j (canon v) (canon_fields fs) other)
        (rw other (find-canon_fields k fs))
]
