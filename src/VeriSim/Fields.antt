-- ===== src/VeriSim/Fields.antt =====
-- The field assignments of VeriSim/scenarios.py on a canonical dict that has the field.
use dentatus.Prelude.{String, ◌≡◌, refl, sym, ap, ◌∙◌, ◌⊎◌, inl, inr, true, false, Bool-cases, some}
use dentatus.Prelude.Eq.{◌≟◌, string_eq, beq_refl}
use dentatus.Chronicle.Value.{Value, Fields, end, field, int, bool, dict, find, get, put_field}
use dentatus.Chronicle.Canonical.{canon, canon_fields, insert_key}
use dentatus.Chronicle.Canonical.Insertion.{
  greater_apart, insert_key_past, insert_key_front, Ordering-cases,
}
use dentatus.VeriSim.Scenarios.{put}

-- The key stands among the fields.
abbrev pub Has : String → Fields → Type 0
Has k end = ⊥
Has k (field j v fs) = ((j ≟ k) ≡ true) ⊎ Has k fs

find-Has : (k : String) (fs : Fields) {x : Value} → find k fs ≡ some x → Has k fs
unfolding find
find-Has k end e = cc
find-Has k (field j v fs) e = elim (Bool-cases (j ≟ k)) [
  | inl same ↦ inl same
  | inr other ↦ inr (find-Has k fs (rw other at e))
]

Has-later :
    (k i : String) (x : Value) (gs : Fields) → (i ≟ k) ≡ false → Has k (field i x gs) → Has k gs
Has-later k i x gs other (inl same) = absurd (cc)
Has-later k i x gs other (inr later) = later

put_field-insert_key_self :
    (k : String) (v w : Value) (gs : Fields) → put_field k v (insert_key k w gs) ≡ insert_key k v gs
unfolding put_field
put_field-insert_key_self k v w end = unfold insert_key in rw (beq_refl k) refl
put_field-insert_key_self k v w (field j x gs) = elim (Ordering-cases k j) [
  | inl g ↦
      rw (insert_key_past k j w x gs g, insert_key_past k j v x gs g)
        (rw (greater_apart k j g) (ap (field j x) (put_field-insert_key_self k v w gs)))
  | inr front ↦
      rw (insert_key_front k j w x gs front, insert_key_front k j v x gs front)
        (rw (beq_refl k) refl)
]

put_field-insert_key :
    (k j : String) (v w : Value) (gs : Fields)
    → (j ≟ k) ≡ false
    → Has k gs
    → put_field k v (insert_key j w gs) ≡ insert_key j w (put_field k v gs)
unfolding put_field
put_field-insert_key k j v w end apart h = absurd h
put_field-insert_key k j v w (field i x gs) apart h = elim (Bool-cases (i ≟ k)) [
  | inl same ↦ elim (Ordering-cases j i) [
    | inl g ↦ rw (insert_key_past j i w x gs g) (rw same (rw (insert_key_past j i w v gs g) refl))
    | inr front ↦
        rw (insert_key_front j i w x gs front)
          (rw apart (rw same (rw (insert_key_front j i w v gs front) refl)))
  ]
  | inr other ↦ elim (Ordering-cases j i) [
    | inl g ↦ rw (insert_key_past j i w x gs g) (
        rw other (
          rw (insert_key_past j i w x (put_field k v gs) g)
            (ap (field i x) (put_field-insert_key k j v w gs apart (Has-later k i x gs other h)))))
    | inr front ↦
        rw (insert_key_front j i w x gs front)
          (rw apart (rw other (rw (insert_key_front j i w x (put_field k v gs) front) refl)))
  ]
]

Has-insert_key :
    (k j : String) (w : Value) (gs : Fields)
    → ((j ≟ k) ≡ true) ⊎ Has k gs
    → Has k (insert_key j w gs)
Has-insert_key k j w end h = unfold insert_key in h
Has-insert_key k j w (field i x gs) h = elim (Ordering-cases j i) [
  | inl g ↦ rw (insert_key_past j i w x gs g) (deeper (Has-insert_key k j w gs) h)
  | inr front ↦ rw (insert_key_front j i w x gs front) h
]
  where
    deeper :
        (((j ≟ k) ≡ true) ⊎ Has k gs → Has k (insert_key j w gs))
        → ((j ≟ k) ≡ true) ⊎ (((i ≟ k) ≡ true) ⊎ Has k gs)
        → ((i ≟ k) ≡ true) ⊎ Has k (insert_key j w gs)
    deeper ih (inl same) = inr (ih (inl same))
    deeper ih (inr (inl here_)) = inl here_
    deeper ih (inr (inr later)) = inr (ih (inr later))

Has-canon_fields : (k : String) (fs : Fields) → Has k fs → Has k (canon_fields fs)
unfolding canon_fields
Has-canon_fields k end h = h
Has-canon_fields k (field j v fs) (inl same) =
    Has-insert_key k j (canon v) (canon_fields fs) (inl same)
Has-canon_fields k (field j v fs) (inr later) =
    Has-insert_key k j (canon v) (canon_fields fs) (inr (Has-canon_fields k fs later))

canon_fields-put_field :
    (k : String) (v : Value) (fs : Fields)
    → Has k fs
    → canon_fields (put_field k v fs) ≡ put_field k (canon v) (canon_fields fs)
unfolding canon_fields put_field
canon_fields-put_field k v end h = absurd h
canon_fields-put_field k v (field j w fs) h = elim (Bool-cases (j ≟ k)) [
  | inl same ↦
      let eq : j ≡ k = (string_eq.decides j k).0 same in
      rw same (rw eq (sym (put_field-insert_key_self k (canon v) (canon w) (canon_fields fs))))
  | inr other ↦
      let later = Has-later k j w fs other h in
      rw other (
        rw (canon_fields-put_field k v fs later) (
          sym (
            put_field-insert_key k j (canon v) (canon w) (canon_fields fs) other
              (Has-canon_fields k fs later))))
]

Has-put_field : (j k : String) (v : Value) (fs : Fields) → Has j fs → Has j (put_field k v fs)
unfolding put_field
Has-put_field j k v end h = absurd h
Has-put_field j k v (field i x fs) h = elim (Bool-cases (i ≟ k)) [
  | inl same ↦ rw same h
  | inr other ↦ rw other (further h (Has-put_field j k v fs))
]
  where
    further :
        ((i ≟ j) ≡ true) ⊎ Has j fs
        → (Has j fs → Has j (put_field k v fs))
        → ((i ≟ j) ≡ true) ⊎ Has j (put_field k v fs)
    further (inl here_) ih = inl here_
    further (inr later) ih = inr (ih later)

-- The state is a dict with the key.
abbrev pub HasKey : String → Value → Type 0
HasKey k (dict fs) = Has k fs
HasKey k _ = ⊥

pub get-HasKey : (k : String) (state : Value) {x : Value} → get k state ≡ some x → HasKey k state
unfolding get
get-HasKey k (dict fs) e = find-Has k fs e
get-HasKey k Value.null e = cc
get-HasKey k (bool b) e = cc
get-HasKey k (int n) e = cc
get-HasKey k (Value.float t b) e = cc
get-HasKey k (Value.str t) e = cc
get-HasKey k (Value.list xs) e = cc

pub HasKey-put : (j k : String) (v state : Value) → HasKey j state → HasKey j (put k v state)
HasKey-put j k v (dict fs) h = Has-put_field j k v fs h
HasKey-put j k v Value.null h = h
HasKey-put j k v (bool b) h = h
HasKey-put j k v (int n) h = h
HasKey-put j k v (Value.float t b) h = h
HasKey-put j k v (Value.str t) h = h
HasKey-put j k v (Value.list xs) h = h

pub canon-put :
    (k : String) (v state : Value)
    → HasKey k state
    → canon v ≡ v
    → canon state ≡ state
    → canon (put k v state) ≡ put k v state
unfolding canon
canon-put k v (dict fs) h cv cs =
    let same : canon_fields fs ≡ fs = cc in
    ap dict (canon_fields-put_field k v fs h ∙ rw (cv, same) refl)
canon-put k v Value.null h cv cs = absurd h
canon-put k v (bool b) h cv cs = absurd h
canon-put k v (int n) h cv cs = absurd h
canon-put k v (Value.float t b) h cv cs = absurd h
canon-put k v (Value.str t) h cv cs = absurd h
canon-put k v (Value.list xs) h cv cs = absurd h
