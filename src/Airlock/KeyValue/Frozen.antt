-- ===== src/Airlock/KeyValue/Frozen.antt =====
-- A frozen key of airlock/adapters_kv.py is immutable, for good.
use mathlib.Core.Path.{subst}
use dentatus.Prelude.{
  ◌+◌, String, ◌≡◌, refl, ap, ◌∙◌, inl, inr, Bool, true, false, Bool-cases, Option, none, some,
  List, [], ◌∷◌, ◌++◌, arith, if◌then◌else◌,
}
use dentatus.Prelude.Int.{pos}
use dentatus.Prelude.Eq.{◌≟◌, string_eq}
use dentatus.Prelude.Dict.{lookup, insert, contains, lookup-insert, lookup-erase}
use dentatus.Prelude.Sorting.{insert_sorted, sorted}
use dentatus.Chronicle.Value.{Value, int, str, get}
use dentatus.Airlock.Adapter.{Applied, applied, refused, raised}
use dentatus.Airlock.KeyValue.{
  World, mem, key_of, set_value, delete_key, bump_value, or_int, freeze_key, apply_op, apply_key,
  apply_named, apply, next_epoch, allowed_ops,
}

-- The step keeps a frozen key, its value, and the count of the steps.
pub record Keeps (k : String) (w w' : World) : Type 0 where
  pub same_value : lookup k w'.kv ≡ lookup k w.kv
  pub still_frozen : mem k w'.frozen ≡ true
  pub one_epoch : w'.epoch ≡ w.epoch + 1

abbrev KeepsIf : String → World → Applied World → Type 0
KeepsIf k w (applied w') = Keeps k w w'
KeepsIf k w (refused e) = Unit
KeepsIf k w (raised e) = Unit

mem-insert_sorted : (k s : String) (ts : List String) → mem k (insert_sorted s ts) ≡ mem k (s ∷ ts)
unfolding insert_sorted mem
mem-insert_sorted k s [] = refl
mem-insert_sorted k s (t ∷ ts) = ground (arith, mem-insert_sorted k s ts)

mem-sorted : (k : String) (ts : List String) → mem k (sorted ts) ≡ mem k ts
unfolding sorted mem
mem-sorted k [] = refl
mem-sorted k (t ∷ ts) =
    mem-insert_sorted k t (sorted ts) ∙ ap (λ b. if t ≟ k then true else b) (mem-sorted k ts)

mem-append : (k s : String) (ts : List String) → mem k ts ≡ true → mem k (ts ++ s ∷ []) ≡ true
unfolding mem
mem-append k s [] m = cc
mem-append k s (t ∷ ts) m = ground (arith, mem-append k s ts)

module _ (k key : String) (w : World) (frozen : mem k w.frozen ≡ true) where
  differs : mem key w.frozen ≡ false → (key ≟ k) ≡ false
  differs open_ = ground (arith, string_eq.decides key k)

  insert-Keeps :
      (v : Value)
      → mem key w.frozen ≡ false
      → Keeps k w (next_epoch (record w { kv = insert key v w.kv }))
  insert-Keeps v open_ = record {
    same_value = rw lookup-insert (rw (differs open_));
    still_frozen = frozen;
    one_epoch = refl;
  }

  set_value-Keeps : (o : Option Value) → mem key w.frozen ≡ false → KeepsIf k w (set_value key o w)
  unfolding set_value
  set_value-Keeps none open_ = tt
  set_value-Keeps (some v) open_ = insert-Keeps v open_

  delete_key-Keeps : mem key w.frozen ≡ false → KeepsIf k w (delete_key key w)
  unfolding delete_key
  delete_key-Keeps open_ = elim (Bool-cases (contains key w.kv)) [
    | inl there ↦ rw there (record {
      same_value = rw lookup-erase (rw (differs open_));
      still_frozen = frozen;
      one_epoch = refl;
    })
    | inr absent ↦ rw absent tt
  ]

  bump_value-Keeps :
      (cur by : Option Value) → mem key w.frozen ≡ false → KeepsIf k w (bump_value key cur by w)
  unfolding bump_value
  bump_value-Keeps (some (int a)) (some (int b)) open_ = insert-Keeps _ open_
  bump_value-Keeps _ _ open_ = tt

  freeze_key-Keeps : Keeps k w (next_epoch (freeze_key key w))
  unfolding freeze_key
  freeze_key-Keeps = elim (Bool-cases (mem key w.frozen)) [
    | inl old ↦ rw old (record { same_value = refl; still_frozen = frozen; one_epoch = refl })
    | inr new ↦ rw new (record {
      same_value = refl;
      still_frozen = mem-sorted k (w.frozen ++ key ∷ []) ∙ mem-append k key w.frozen frozen;
      one_epoch = refl;
    })
  ]

  unless_frozen :
      (b : Bool) (m : String) (next : Applied World)
      → (b ≡ false → KeepsIf k w next)
      → KeepsIf k w (if b then refused m else next)
  unless_frozen true m next f = tt
  unless_frozen false m next f = f refl

  either :
      (b : Bool) (x y : Applied World)
      → KeepsIf k w x
      → KeepsIf k w y
      → KeepsIf k w (if b then x else y)
  either true x y p q = p
  either false x y p q = q

  apply_op-Keeps : (op : String) (txn : Value) → KeepsIf k w (apply_op op key txn w)
  unfolding apply_op
  apply_op-Keeps op txn = either (op ≟ "freeze") _ _ freeze_key-Keeps (
      unless_frozen (mem key w.frozen) _ _ (λ o.
        either (op ≟ "set") _ _ (set_value-Keeps (get "value" txn) o) (
          either (op ≟ "delete") _ _ (delete_key-Keeps o) (
            bump_value-Keeps (or_int (pos 0) (lookup key w.kv)) (or_int (pos 1) (get "by" txn))
              o))))

module _ (k : String) (w : World) (frozen : mem k w.frozen ≡ true) where
  apply_key-Keeps :
      (op : String) (key : Option String) (txn : Value) → KeepsIf k w (apply_key op key txn w)
  unfolding apply_key
  apply_key-Keeps op none txn = tt
  apply_key-Keeps op (some key) txn = apply_op-Keeps k key w frozen op txn

  otherwise_refused :
      (b : Bool) (x : Applied World) (m : String)
      → KeepsIf k w x
      → KeepsIf k w (if b then x else refused m)
  otherwise_refused true x m p = p
  otherwise_refused false x m p = tt

  apply_named-Keeps : (o : Option Value) (txn : Value) → KeepsIf k w (apply_named o w txn)
  unfolding apply_named
  apply_named-Keeps (some (str op)) txn =
      otherwise_refused (mem op allowed_ops) _ _ (apply_key-Keeps op (key_of (get "key" txn)) txn)
  apply_named-Keeps _ txn = tt

-- A transition that the store applies leaves every frozen key frozen, with the value that it had, and
-- counts one epoch.
pub apply-Keeps :
    (k : String) (w : World) (txn : Value) {w' : World}
    → mem k w.frozen ≡ true
    → apply w txn ≡ applied w'
    → Keeps k w w'
unfolding apply
apply-Keeps k w txn m e = subst (KeepsIf k w) e (apply_named-Keeps k w m (get "op" txn) txn)
