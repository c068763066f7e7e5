-- ===== src/Chronicle/Canonical/Form.antt =====
-- What `_canon` of chronicle/core.py makes of a value.
use dentatus.Prelude.{String, ◌≡◌, refl, ◌⊎◌, inl, inr}
use dentatus.Chronicle.Value.{
  Value, null, bool, int, float, str, list, dict, Values, nil, cons, Fields, end, field,
}
use dentatus.Chronicle.Canonical.{canon, canon_items, canon_fields, insert_key}
use dentatus.Chronicle.Canonical.Insertion.{insert_key_past, insert_key_front, Ordering-cases}
use dentatus.Chronicle.Canonical.Idempotent.{IsSorted, canon_fields-IsSorted, canon-canon}

-- the fields `gs` are the fields `fs` with one more put among them
abbrev pub Inserted : String → Value → Fields → Fields → Type 0
Inserted k v fs end = ⊥
Inserted k v fs (field j w gs) =
    ((j ≡ k) × (w ≡ v) × (fs ≡ gs)) ⊎ ((hs : Fields) × (fs ≡ field j w hs) × Inserted k v hs gs)

mutual
  -- The second value is the first, with its floats as their texts and the fields of its dicts in some
  -- order.
  pub Shows : Value → Value → Type 0
  Shows null null = Unit
  Shows null _ = ⊥
  Shows (bool b) (bool c) = b ≡ c
  Shows (bool b) _ = ⊥
  Shows (int m) (int n) = m ≡ n
  Shows (int m) _ = ⊥
  Shows (float text finite) (str s) = text ≡ s
  Shows (float text finite) _ = ⊥
  Shows (str s) (str t) = s ≡ t
  Shows (str s) _ = ⊥
  Shows (list xs) (list ys) = ShowItems xs ys
  Shows (list xs) _ = ⊥
  Shows (dict fs) (dict gs) = ShowFields fs gs
  Shows (dict fs) _ = ⊥

  pub ShowItems : Values → Values → Type 0
  ShowItems nil nil = Unit
  ShowItems nil (cons y ys) = ⊥
  ShowItems (cons x xs) nil = ⊥
  ShowItems (cons x xs) (cons y ys) = Shows x y × ShowItems xs ys

  pub ShowFields : Fields → Fields → Type 0
  ShowFields end gs = gs ≡ end
  ShowFields (field k v fs) gs =
      (w : Value) × (hs : Fields) × Shows v w × ShowFields fs hs × Inserted k w hs gs

mutual
  -- At every depth there is no float, and the keys of a dict are in order.
  pub IsCanonical : Value → Type 0
  IsCanonical null = Unit
  IsCanonical (bool b) = Unit
  IsCanonical (int n) = Unit
  IsCanonical (float text finite) = ⊥
  IsCanonical (str s) = Unit
  IsCanonical (list xs) = AreCanonical xs
  IsCanonical (dict fs) = IsSorted fs × HaveCanonical fs

  pub AreCanonical : Values → Type 0
  AreCanonical nil = Unit
  AreCanonical (cons x xs) = IsCanonical x × AreCanonical xs

  pub HaveCanonical : Fields → Type 0
  HaveCanonical end = Unit
  HaveCanonical (field k v fs) = IsCanonical v × HaveCanonical fs

insert_key-Inserted : (k : String) (v : Value) (fs : Fields) → Inserted k v fs (insert_key k v fs)
insert_key-Inserted k v end = unfold insert_key in inl (refl, refl, refl)
insert_key-Inserted k v (field j w fs) = elim (Ordering-cases k j) [
  | inl g ↦ rw (insert_key_past k j v w fs g) (inr (fs, refl, insert_key-Inserted k v fs))
  | inr front ↦ rw (insert_key_front k j v w fs front) (inl (refl, refl, refl))
]

insert_key-HaveCanonical :
    (k : String) (v : Value) (fs : Fields)
    → IsCanonical v
    → HaveCanonical fs
    → HaveCanonical (insert_key k v fs)
unfolding IsCanonical
insert_key-HaveCanonical k v end c a = unfold insert_key in (c, tt)
insert_key-HaveCanonical k v (field j w fs) c (d, a) = elim (Ordering-cases k j) [
  | inl g ↦ rw (insert_key_past k j v w fs g) (d, insert_key-HaveCanonical k v fs c a)
  | inr front ↦ rw (insert_key_front k j v w fs front) (c, (d, a))
]

mutual
  unfolding canon Shows IsCanonical

  shown : (v : Value) → Shows v (canon v)
  shown null = tt
  shown (bool b) = refl
  shown (int n) = refl
  shown (float text finite) = refl
  shown (str s) = refl
  shown (list xs) = items_shown xs
  shown (dict fs) = fields_shown fs

  items_shown : (xs : Values) → ShowItems xs (canon_items xs)
  items_shown nil = tt
  items_shown (cons x xs) = (shown x, items_shown xs)

  fields_shown : (fs : Fields) → ShowFields fs (canon_fields fs)
  fields_shown end = refl
  fields_shown (field k v fs) = (
    canon v,
    canon_fields fs,
    shown v,
    fields_shown fs,
    insert_key-Inserted k (canon v) (canon_fields fs),
  )

mutual
  unfolding canon IsCanonical

  canonical : (v : Value) → IsCanonical (canon v)
  canonical null = tt
  canonical (bool b) = tt
  canonical (int n) = tt
  canonical (float text finite) = tt
  canonical (str s) = tt
  canonical (list xs) = items_canonical xs
  canonical (dict fs) = (canon_fields-IsSorted fs, fields_canonical fs)

  items_canonical : (xs : Values) → AreCanonical (canon_items xs)
  items_canonical nil = tt
  items_canonical (cons x xs) = (canonical x, items_canonical xs)

  fields_canonical : (fs : Fields) → HaveCanonical (canon_fields fs)
  fields_canonical end = tt
  fields_canonical (field k v fs) =
      insert_key-HaveCanonical k (canon v) (canon_fields fs) (canonical v) (fields_canonical fs)

-- The canonical form of a value is that value with its floats as their texts and the fields of its dicts in
-- another order; at every depth it has no float and the keys of a dict are in order; and it is its own
-- canonical form.
pub canon-IsCanonical :
    (v : Value) → Shows v (canon v) × IsCanonical (canon v) × (canon (canon v) ≡ canon v)
canon-IsCanonical v = (shown v, canonical v, canon-canon v)
