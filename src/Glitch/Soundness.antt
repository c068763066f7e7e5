-- ===== src/Glitch/Soundness.antt =====
-- The search ends, and what it reports is a path to a violation.
use dentatus.Prelude.{
  ℕ, zero, suc, ◌+◌, ◌-◌, ◌≤◌, ◌<◌, max, String, ◌≡◌, refl, ap, ◌∙◌, Bool, true, false, not, Option,
  none, some, List, [], ◌∷◌, ◌++◌, arith, if◌then◌else◌, length, length-append, leb,
}
use dentatus.Glitch.{
  Result, Node, Scan, violated, scanned, scan, queued, seen_before, after_scan, search, explore,
  replay_path, nodes, times,
}

module _ {S E : Type 0} (hash : S → String) (step_fn : S → E → S) (invariant_fn : S → Bool)
    (initial : S) (events : List E) (max_depth : ℕ) where
  -- the path of a queued node leads to its state
  abbrev Reached : List (Node hash step_fn invariant_fn) → Type 0
  Reached [] = Unit
  Reached ((s, path) ∷ ns) =
      ((replay_path hash step_fn invariant_fn initial path ≡ s) × (length path ≤ max_depth))
      × Reached ns

  Reached-append :
      (xs ys : List (Node hash step_fn invariant_fn)) → Reached xs → Reached ys → Reached (xs ++ ys)
  Reached-append [] ys a b = b
  Reached-append ((s, p) ∷ xs) ys (h, a) b = (h, Reached-append xs ys a b)

  -- the nodes that the search below a queue visits at most
  abbrev weight : List (Node hash step_fn invariant_fn) → ℕ
  weight [] = 0
  weight ((s, path) ∷ ns) = nodes (length events) (max_depth - length path) + weight ns

  weight-append :
      (xs ys : List (Node hash step_fn invariant_fn)) → weight (xs ++ ys) ≡ weight xs + weight ys
  weight-append [] ys = omega arith
  weight-append ((s, p) ∷ xs) ys = omega (arith, weight-append xs ys)

  -- A path of at most `max_depth` events that leads to a state which breaks the invariant.
  pub record Counterexample (path : List E) : Type 0 where
    pub broken : invariant_fn (replay_path hash step_fn invariant_fn initial path) ≡ false
    pub bounded : length path ≤ max_depth

  replay_path-snoc :
      (s : S) (path : List E) (ev : E)
      → replay_path hash step_fn invariant_fn s (path ++ ev ∷ [])
        ≡ step_fn (replay_path hash step_fn invariant_fn s path) ev
  unfolding replay_path
  replay_path-snoc s [] ev = refl
  replay_path-snoc s (e ∷ path) ev = replay_path-snoc (step_fn s e) path ev

  -- what a scan of a node below the limit gives
  abbrev Scans : ℕ → ℕ → Scan hash step_fn invariant_fn → Type 0
  Scans n w (violated path explored distinct) = Counterexample path
  Scans n w (scanned ns explored seen) = Reached ns × (weight ns ≤ times n w)

  queued-Scans :
      (s : S) (path : List E) (n w : ℕ) (sc : Scan hash step_fn invariant_fn)
      → (replay_path hash step_fn invariant_fn initial path ≡ s) × (length path ≤ max_depth)
      → nodes (length events) (max_depth - length path) ≤ w
      → Scans n w sc
      → Scans (suc n) w (queued hash step_fn invariant_fn (s, path) sc)
  unfolding times
  queued-Scans s path n w (violated p e d) h l c = c
  queued-Scans s path n w (scanned ns e d) h l (r, b) = ((h, r), omega (arith, l, b))

  skip-Scans : (n w : ℕ) (sc : Scan hash step_fn invariant_fn) → Scans n w sc → Scans (suc n) w sc
  unfolding times
  skip-Scans n w (violated p e d) c = c
  skip-Scans n w (scanned ns e d) (r, b) = (r, omega (arith, b))

  scan_if :
      (b c : Bool) (n w : ℕ) (v skip push : Scan hash step_fn invariant_fn)
      → (b ≡ false → Scans n w v)
      → Scans n w skip
      → Scans n w push
      → Scans n w (if not b then v else if c then skip else push)
  scan_if false c n w v skip push h p q = h refl
  scan_if true true n w v skip push h p q = p
  scan_if true false n w v skip push h p q = q

  scan-Scans :
      (s : S) (path : List E) (evs : List E) (explored : ℕ) (seen : List String)
      → replay_path hash step_fn invariant_fn initial path ≡ s
      → length path < max_depth
      → Scans
          (length evs)
          (nodes (length events) (max_depth - length path - 1))
          (scan hash step_fn invariant_fn (s, path) evs explored seen)
  unfolding scan
  scan-Scans s path [] explored seen r h = (tt, unfold times in omega arith)
  scan-Scans s path (ev ∷ evs) explored seen r h =
      let w = nodes (length events) (max_depth - length path - 1) in
      let s' = step_fn s ev in
      let path' = path ++ ev ∷ [] in
      let long : length path' ≡ length path + 1 = length-append path (ev ∷ []) in
      let there : replay_path hash step_fn invariant_fn initial path' ≡ s' =
        replay_path-snoc initial path ev ∙ ap (λ x. step_fn x ev) r in
      let same : max_depth - length path' ≡ max_depth - length path - 1 = omega (arith, long) in
      let weighs : nodes (length events) (max_depth - length path') ≤ w = rw same (omega arith) in
      scan_if (invariant_fn s') (seen_before (hash s') seen) (suc (length evs)) w _ _ _
        (λ bad. record { broken = ap invariant_fn there ∙ bad; bounded = omega (arith, long) })
        (skip-Scans (length evs) w _ (scan-Scans s path evs (explored + 1) seen r h))
        (queued-Scans s' path' (length evs) w _ (there, omega (arith, long)) weighs
          (scan-Scans s path evs (explored + 1) (seen ++ hash s' ∷ []) r h))

  -- the report is a counterexample, or none was found
  pub data Reports : Result E → Type 0 where
    counterexample :
        (r : Result E) (path : List E)
        → r.found ≡ true
        → r.path ≡ some path
        → Counterexample path
        → Reports r
    nothing : (r : Result E) → r.found ≡ false → r.path ≡ none → Reports r

  abbrev Ends : Option (Result E) → Type 0
  Ends none = ⊥
  Ends (some r) = Reports r

  Ends-if :
      (b : Bool) (x y : Option (Result E))
      → Ends x
      → (b ≡ false → Ends y)
      → Ends (if b then x else y)
  Ends-if true x y p q = p
  Ends-if false x y p q = q refl

  after_scan-Ends :
      (n w : ℕ) (sc : Scan hash step_fn invariant_fn)
      (k : List (Node hash step_fn invariant_fn) → ℕ → List String → Option (Result E))
      → Scans n w sc
      → ((ns : List (Node hash step_fn invariant_fn)) (e : ℕ) (seen : List String)
          → Reached ns
          → weight ns ≤ times n w
          → Ends (k ns e seen))
      → Ends (after_scan hash step_fn invariant_fn sc k)
  after_scan-Ends n w (violated path e d) k c h = counterexample _ path refl refl c
  after_scan-Ends n w (scanned ns e seen) k (r, b) h = h ns e seen r b

  nodes_suc : (k d l : ℕ) → l < d → nodes k (d - l) ≡ 1 + times k (nodes k (d - l - 1))
  nodes_suc k d l h =
      let back : d - l ≡ suc (d - l - 1) = omega arith in ap (nodes k) back ∙ unfold nodes in refl

  nodes_pos : (k r : ℕ) → 1 ≤ nodes k r
  unfolding nodes
  nodes_pos k zero = omega arith
  nodes_pos k (suc r) = omega arith

  search-Ends :
      (fuel : ℕ) (queue : List (Node hash step_fn invariant_fn)) (explored depth : ℕ)
      (seen : List String)
      → Reached queue
      → weight queue ≤ fuel
      → Ends (search hash step_fn invariant_fn fuel events max_depth queue explored depth seen)
  unfolding search
  search-Ends zero [] explored depth seen r h = nothing _ refl refl
  search-Ends (suc fuel) [] explored depth seen r h = nothing _ refl refl
  search-Ends zero ((s, path) ∷ queue) explored depth seen (r, rs) h =
      absurd (omega (arith, nodes_pos (length events) (max_depth - length path)))
  search-Ends (suc fuel) ((s, path) ∷ queue) explored depth seen (r, rs) h =
      Ends-if (leb max_depth (length path)) _ _
        (search-Ends fuel queue explored (max depth (length path)) seen rs
          (omega (arith, nodes_pos (length events) (max_depth - length path))))
        (λ shallow.
          let below : length path < max_depth = ground arith in
          after_scan-Ends (length events) (nodes (length events) (max_depth - length path - 1)) _ _
            (scan-Scans s path events explored seen r.0 below)
            (λ ns e seen' rn wn.
              search-Ends fuel (queue ++ ns) e (max depth (length path)) seen'
                (Reached-append queue ns rs rn)
                (omega (
                  arith,
                  weight-append queue ns,
                  wn,
                  nodes_suc (length events) max_depth (length path) below,
                ))))

  -- The search ends: it reports a path of at most `max_depth` events to a state that breaks the
  -- invariant, or that it found none.
  pub explore-Reports :
      (r : Result E) × (explore hash step_fn invariant_fn initial events max_depth ≡ some r)
      × Reports r
  unfolding explore
  explore-Reports = ended _ (
      search-Ends (nodes (length events) max_depth) ((initial, []) ∷ []) 0 0 (hash initial ∷ [])
        ((unfold replay_path in refl, omega arith), tt) start)
    where
      ended : (o : Option (Result E)) → Ends o → (r : Result E) × (o ≡ some r) × Reports r
      ended none e = elim e [ ]
      ended (some r) e = (r, refl, e)

      start : nodes (length events) (max_depth - 0) + 0 ≤ nodes (length events) max_depth
      start = let same : max_depth - 0 ≡ max_depth = omega arith in rw same (omega arith)
