-- ===== src/Crucible/Known.antt =====
-- What generation in crucible/forest.py knows of its seeds, and that it ends.
use dentatus.Prelude.{
  ℕ, zero, suc, ◌+◌, ◌*◌, ◌/◌, ◌%◌, ◌-◌, ◌≤◌, ◌<◌, max, ◌≡◌, refl, Bool, true, false, Option, none,
  some, List, [], ◌∷◌, ◌++◌, ok, arith, ltb, leb, ◌==◌, if◌then◌else◌, length, length-append,
}
use dentatus.Syracuse.{next, walk, largest}
use dentatus.Crucible.{
  Seed, odd_preimage, preimages, child, children, Emitted, stopped, going, emit, emit_first,
  prepend, resume, grow, root, finish, generate,
}

-- What is true of a number in the forest: its forward walk is of the recorded length and height.
pub record Known (s : Seed) : Type 0 where
  pub positive : 1 ≤ s.n
  pub path : List ℕ
  pub walks : (left : ℕ) → s.stopping_time ≤ left → walk left s.n true ≡ some path
  pub steps : length path ≡ s.stopping_time
  pub height : max s.n (largest path) ≡ s.peak

-- seeds that are known, and no deeper than generation goes
abbrev pub AllKnown : ℕ → List Seed → Type 0
AllKnown d [] = Unit
AllKnown d (s ∷ ss) = (Known s × (s.stopping_time ≤ d)) × AllKnown d ss

-- a number that the map takes to `m`
abbrev Precedes : ℕ → ℕ → Type 0
Precedes m c = (2 ≤ c) × (next c true ≡ m)

abbrev AllPrecede : ℕ → List ℕ → Type 0
AllPrecede m [] = Unit
AllPrecede m (c ∷ cs) = Precedes m c × AllPrecede m cs

double-Precedes : (m : ℕ) → 1 ≤ m → Precedes m (2 * m)
unfolding next
double-Precedes m p = (omega arith, ground arith)

odd_if : (b : Bool) (m n : ℕ) → (b ≡ true → Precedes m n) → AllPrecede m (if b then n ∷ [] else [])
odd_if true m n h = (h refl, tt)
odd_if false m n h = tt

odd-Precedes :
    (m : ℕ)
    → 1 ≤ m
    → (2 * m - 1) % 3 ≡ 0
    → 1 < (2 * m - 1) / 3
    → (2 * m - 1) / 3 % 2 ≡ 1
    → Precedes m ((2 * m - 1) / 3)
unfolding next
odd-Precedes m p third big odd = (omega arith, ground arith)

odd_preimage-AllPrecede : (m : ℕ) → 1 ≤ m → AllPrecede m (odd_preimage m)
unfolding odd_preimage
odd_preimage-AllPrecede m p =
    odd_if _ m ((2 * m - 1) / 3)
      (λ h. odd-Precedes m p (ground arith) (ground arith) (ground arith))

preimages-AllPrecede : (m : ℕ) → 1 ≤ m → AllPrecede m (preimages m)
unfolding preimages
preimages-AllPrecede m p = (double-Precedes m p, odd_preimage-AllPrecede m p)

walk_one : (left : ℕ) → walk left 1 true ≡ some []
unfolding walk
walk_one zero = refl
walk_one (suc left) = refl

walk_step :
    (left c m : ℕ) {path : List ℕ}
    → 2 ≤ c
    → next c true ≡ m
    → walk left m true ≡ some path
    → walk (suc left) c true ≡ some (m ∷ path)
unfolding walk
walk_step left c m two back e =
    let other : (c == 1) ≡ false = ground arith in rw (other, back, e) refl

child-walks :
    (c : ℕ) (node : Seed) (k : Known node)
    → Precedes node.n c
    → (left : ℕ) → node.stopping_time + 1 ≤ left
    → walk left c true ≡ some (node.n ∷ k.path)
child-walks c node k (two, back) zero h = absurd (omega arith)
child-walks c node k (two, back) (suc left) h =
    walk_step left c node.n two back (k.walks left (omega arith))

root-Known : Known root
unfolding largest
root-Known = record {
  positive = omega arith;
  path = [];
  walks = λ left h. walk_one left;
  steps = refl;
  height = refl;
}

child-Known : (node : Seed) (c : ℕ) → Known node → Precedes node.n c → Known (child node c)
unfolding child largest
child-Known node c k before = record {
  positive = omega (arith, before.0);
  path = node.n ∷ k.path;
  walks = child-walks c node k before;
  steps = omega (arith, k.steps);
  height = omega (arith, k.height);
}

children-AllKnown :
    (d ceiling : ℕ) (node : Seed) (cs : List ℕ)
    → Known node
    → node.stopping_time < d
    → AllPrecede node.n cs
    → AllKnown d (children ceiling node cs)
unfolding children
children-AllKnown d ceiling node [] k deep all_of_them = tt
children-AllKnown d ceiling node (c ∷ cs) k deep (before, more) =
    keep_if d (ltb ceiling c) (child node c) (children ceiling node cs)
      (child-Known node c k before, omega (arith, deep))
      (children-AllKnown d ceiling node cs k deep more)
  where
    keep_if :
        (d : ℕ) (b : Bool) (x : Seed) (xs : List Seed)
        → Known x × (x.stopping_time ≤ d)
        → AllKnown d xs
        → AllKnown d (if b then xs else x ∷ xs)
    keep_if d true x xs a more = more
    keep_if d false x xs a more = (a, more)

AllKnown-append :
    (d : ℕ) (xs ys : List Seed) → AllKnown d xs → AllKnown d ys → AllKnown d (xs ++ ys)
AllKnown-append d [] ys a b = b
AllKnown-append d (x ∷ xs) ys (k, a) b = (k, AllKnown-append d xs ys a b)

module _ (d : ℕ) where
  -- what an emission gives: known seeds, and as many emissions fewer when it goes on
  abbrev Emits : ℕ → Emitted → Type 0
  Emits left (stopped seeds) = AllKnown d seeds
  Emits left (going seeds rest) = AllKnown d seeds × (length seeds + rest ≡ left)

  emit_if :
      (b : Bool) (left : ℕ) (s : Seed) (rest : Emitted)
      → Known s × (s.stopping_time ≤ d)
      → b ≡ leb left 1
      → Emits (left - 1) rest
      → Emits left (if b then stopped (s ∷ []) else emit_first s rest)
  emit_if true left s rest k e m = (k, tt)
  emit_if false left s (stopped seeds) k e m = (k, m)
  emit_if false left s (going seeds n) k e (m, c) = ((k, m), ground arith)

  emit-Emits : (ss : List Seed) (left : ℕ) → AllKnown d ss → Emits left (emit ss left)
  unfolding emit
  emit-Emits [] left a = (tt, omega arith)
  emit-Emits (s ∷ ss) left (k, a) =
      emit_if (leb left 1) left s (emit ss (left - 1)) k refl (emit-Emits ss (left - 1) a)

  -- generation that ends with known seeds
  abbrev Grown : Option (List Seed) → Type 0
  Grown none = ⊥
  Grown (some seeds) = AllKnown d seeds

  prepend-Grown :
      (seeds : List Seed) (o : Option (List Seed))
      → AllKnown d seeds
      → Grown o
      → Grown (prepend seeds o)
  prepend-Grown seeds none a g = g
  prepend-Grown seeds (some more) a g = AllKnown-append d seeds more a g

  grow_if :
      (b : Bool) (x y : Option (List Seed))
      → Grown x
      → (b ≡ false → Grown y)
      → Grown (if b then x else y)
  grow_if true x y p q = p
  grow_if false x y p q = q refl

  resume-Grown :
      (e : Emitted) (left : ℕ) (k : List Seed → ℕ → Option (List Seed))
      → Emits left e
      → ((seeds : List Seed) (rest : ℕ)
          → AllKnown d seeds
          → length seeds + rest ≡ left
          → Grown (k seeds rest))
      → Grown (resume e k)
  resume-Grown (stopped seeds) left k m h = m
  resume-Grown (going seeds rest) left k (a, c) h =
      prepend-Grown seeds (k seeds rest) a (h seeds rest a c)

  grow-Grown :
      (fuel ceiling left : ℕ) (queue : List Seed)
      → AllKnown d queue
      → length queue + left ≤ fuel
      → Grown (grow fuel d ceiling left queue)
  unfolding grow
  grow-Grown zero ceiling left [] a h = tt
  grow-Grown (suc fuel) ceiling left [] a h = tt
  grow-Grown zero ceiling left (node ∷ queue) a h = absurd (omega arith)
  grow-Grown (suc fuel) ceiling left (node ∷ queue) (k, a) h =
      grow_if (leb d node.stopping_time) _ _ (grow-Grown fuel ceiling left queue a (omega arith))
        (λ shallow.
          resume-Grown (emit (children ceiling node (preimages node.n)) left) left _
            (emit-Emits (children ceiling node (preimages node.n)) left (
              children-AllKnown d ceiling node (preimages node.n) k.0 (ground arith)
                (preimages-AllPrecede node.n k.0.positive)))
            (λ seeds rest b c.
              grow-Grown fuel ceiling rest (queue ++ seeds) (AllKnown-append d queue seeds a b)
                (omega (arith, length-append queue seeds, c))))

finished :
    (d : ℕ) (o : Option (List Seed))
    → Grown d o
    → (seeds : List Seed) × (finish o ≡ ok seeds) × AllKnown d seeds
finished d none g = elim g [ ]
finished d (some seeds) g = (seeds, refl, g)

-- Generation with a depth of one or more returns a forest, each of whose seeds is no deeper than that and
-- has the recorded length and height of its forward walk.
pub generate-Known :
    (d ceiling max_nodes : ℕ)
    → 1 ≤ d
    → (seeds : List Seed) × (generate d ceiling max_nodes ≡ ok seeds) × AllKnown d seeds
unfolding generate
generate-Known d ceiling max_nodes h =
    let deep : (d == 0) ≡ false = ground arith in
    rw deep (
      finished d _ (
        grow-Grown d (max_nodes + 1) ceiling max_nodes (root ∷ []) ((root-Known, omega arith), tt)
          (omega arith)))
