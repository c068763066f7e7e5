-- ===== src/Consequence/Cache/Eviction.antt =====
-- What the cache of consequence/cache.py keeps when it is full.
use mathlib.Core.List.{Perm}
use mathlib.Core.List.Perm
use dentatus.Prelude.{
  ℕ, zero, suc, ◌≤◌, ◌≡◌, refl, ap, ◌⊎◌, inl, inr, true, false, Bool-cases, List, [], ◌∷◌, ◌++◌,
  length, take, drop, take-append-drop, length-take, ltb, ltb→lt, tests, arith,
}
use dentatus.Prelude.Int.{◌≤ℤ◌}
use dentatus.Consequence.Cache.{Token, Cache, ahead, insert_token, order, store, evict, put}

abbrev pub All : (Token → Type 0) → List Token → Type 0
All P [] = Unit
All P (t ∷ ts) = P t × All P ts

abbrev pub AtMost : Token → Token → Type 0
AtMost x y = y.score ≤ℤ x.score

-- Each token scores at least as much as the ones behind it.
abbrev IsRanked : List Token → Type 0
IsRanked [] = Unit
IsRanked (t ∷ ts) = All (AtMost t) ts × IsRanked ts

All-mono :
    (P Q : Token → Type 0) (ts : List Token) → ((t : Token) → P t → Q t) → All P ts → All Q ts
All-mono P Q [] f a = tt
All-mono P Q (t ∷ ts) f a = (f t a.0, All-mono P Q ts f a.1)

All-insert_token :
    (P : Token → Type 0) (t : Token) (us : List Token) → P t → All P us → All P (insert_token t us)
unfolding insert_token
All-insert_token P t [] p a = (p, tt)
All-insert_token P t (u ∷ us) p a = elim (Bool-cases (ahead t u)) [
  | inl yes_ ↦ rw yes_ (p, a)
  | inr no_ ↦ rw no_ (a.0, All-insert_token P t us p a.1)
]

ahead-AtMost : (t u : Token) → ahead t u ≡ true → AtMost t u
ahead-AtMost t u e = ground arith

behind-AtMost : (t u : Token) → ahead t u ≡ false → AtMost u t
behind-AtMost t u e = ground arith

insert_token-IsRanked : (t : Token) (us : List Token) → IsRanked us → IsRanked (insert_token t us)
unfolding insert_token
insert_token-IsRanked t [] r = (tt, tt)
insert_token-IsRanked t (u ∷ us) r = elim (Bool-cases (ahead t u)) [
  | inl yes_ ↦
      let le = ahead-AtMost t u yes_ in
      rw yes_ ((le, All-mono (AtMost u) (AtMost t) us (λ y l. omega (arith, le)) r.0), r)
  | inr no_ ↦
      rw no_ (
        All-insert_token (AtMost u) t us (behind-AtMost t u no_) r.0,
        insert_token-IsRanked t us r.1,
      )
]

order-IsRanked : (ts : List Token) → IsRanked (order ts)
unfolding order
order-IsRanked [] = tt
order-IsRanked (t ∷ ts) = insert_token-IsRanked t (order ts) (order-IsRanked ts)

insert_token-perm : (t : Token) (us : List Token) → Perm (insert_token t us) (t ∷ us)
unfolding insert_token
insert_token-perm t [] = Perm.rfl
insert_token-perm t (u ∷ us) = elim (Bool-cases (ahead t u)) [
  | inl yes_ ↦ rw yes_ Perm.rfl
  | inr no_ ↦ rw no_ (Perm.trans (Perm.cons u (insert_token-perm t us)) (Perm.swap t u us))
]

order-perm : (ts : List Token) → Perm (order ts) ts
unfolding order
order-perm [] = Perm.rfl
order-perm (t ∷ ts) = Perm.trans (insert_token-perm t (order ts)) (Perm.cons t (order-perm ts))

All-drop : (P : Token → Type 0) (n : ℕ) (ts : List Token) → All P ts → All P (drop n ts)
All-drop P zero ts a = a
All-drop P (suc n) [] a = tt
All-drop P (suc n) (t ∷ ts) a = All-drop P n ts a.1

length-insert_token : (t : Token) (us : List Token) → length (insert_token t us) ≡ suc (length us)
unfolding insert_token
length-insert_token t [] = refl
length-insert_token t (u ∷ us) = ground (arith, length-insert_token t us)

length-order : (ts : List Token) → length (order ts) ≡ length ts
unfolding order
length-order [] = refl
length-order (t ∷ ts) = omega (arith, length-insert_token t (order ts), length-order ts)

-- No token that is kept scores less than one that is not.
abbrev pub Best : List Token → List Token → Type 0
Best kept evicted = All (λ x. All (AtMost x) evicted) kept

take-Best : (n : ℕ) (ts : List Token) → IsRanked ts → Best (take n ts) (drop n ts)
take-Best zero ts r = tt
take-Best (suc n) [] r = tt
take-Best (suc n) (t ∷ ts) r = (All-drop (AtMost t) n ts r.0, take-Best n ts r.1)

none_evicted : (ts : List Token) → Best ts []
none_evicted [] = tt
none_evicted (t ∷ ts) = (tt, none_evicted ts)

pub record Evicts (capacity : ℕ) (stored kept : List Token) : Type 0 where
  pub evicted : List Token
  pub all_there : Perm (kept ++ evicted) stored
  pub bounded : length kept ≤ capacity
  pub best : Best kept evicted
  pub needed : (evicted ≡ []) ⊎ (length kept ≡ capacity)

append_nil : (ts : List Token) → ts ++ [] ≡ ts
append_nil [] = refl
append_nil (t ∷ ts) = ap (λ (us : List Token). t ∷ us) (append_nil ts)

-- After `put` the cache holds at most its capacity. What it dropped, with what it kept, is what it had
-- with the new token in it; no dropped token scores more than a kept one, and tokens are dropped only
-- where the cache is left full.
pub put-Evicts :
    (cache : Cache) (token : Token)
    → Evicts cache.capacity (store token cache.tokens) (put cache token).tokens
unfolding put evict
put-Evicts cache token =
    let stored = store token cache.tokens in
    elim (Bool-cases (ltb cache.capacity (length stored))) [
      | inl full ↦ rw full (record {
        evicted = drop cache.capacity (order stored);
        all_there = rw (take-append-drop cache.capacity (order stored)) (order-perm stored);
        bounded = omega (arith, length-take cache.capacity (order stored));
        best = take-Best cache.capacity (order stored) (order-IsRanked stored);
        needed = inr (
            omega (
              tests,
              length-take cache.capacity (order stored),
              length-order stored,
              ltb→lt cache.capacity (length stored) full,
            ));
      })
      | inr room ↦ rw room (record {
        evicted = [];
        all_there = rw (append_nil stored) Perm.rfl;
        bounded = ground arith;
        best = none_evicted stored;
        needed = inl refl;
      })
    ]
