-- ===== src/Quorum/Tally/Equivocation.antt =====
-- A witness that signed two hashes for a round is excluded from the count, and is named.
use dentatus.Prelude.{
  ℕ, ◌<◌, String, ◌≡◌, ◌≢◌, refl, ap, ◌∙◌, ◌⊎◌, inl, inr, true, Bool-cases, none, List, [], ◌∷◌,
  arith, if◌then◌else◌, length,
}
use dentatus.Prelude.Eq.{◌≟◌, string_eq, beq_refl}
use dentatus.Prelude.Dict.{Dict, lookup, lookup_or, insert, lookup-insert, lookup_or-insert}
use dentatus.Prelude.Sorting.{insert_sorted, sorted}
use dentatus.Chronicle.Value.{Value}
use dentatus.Quorum.Votes.{Vote, Registry, authentic_votes}
use dentatus.Quorum.Tally.{
  mem, add_to_set, hashes_by_witness, equivocating, count_votes, counted_votes, certificate,
}

-- Some vote of the list is by `w`, for `h`.
abbrev pub Signed : String → String → List Vote → Type 0
Signed w h [] = ⊥
Signed w h (v ∷ vs) = (v.witness ≡ w) × (v.state_hash ≡ h) ⊎ Signed w h vs

mem-add_to_set :
    (h g : String) (hs : List String) → mem h hs ≡ true → mem h (add_to_set g hs) ≡ true
unfolding mem add_to_set
mem-add_to_set h g hs m = ground arith

mem-add_to_set_self : (h : String) (hs : List String) → mem h (add_to_set h hs) ≡ true
unfolding mem add_to_set
mem-add_to_set_self h hs = ground (arith, beq_refl h)

abbrev hashes_of : String → Dict String (List String) → List String
hashes_of w by_w = lookup_or w [] by_w

insert_vote : Vote → Dict String (List String) → Dict String (List String)
insert_vote v by_w = insert v.witness (add_to_set v.state_hash (hashes_of v.witness by_w)) by_w

mem-insert_vote :
    (w h : String) (v : Vote) (by_w : Dict String (List String))
    → mem h (hashes_of w by_w) ≡ true
    → mem h (hashes_of w (insert_vote v by_w)) ≡ true
unfolding insert_vote
mem-insert_vote w h v by_w m = rw lookup_or-insert (elim (Bool-cases (v.witness ≟ w)) [
  | inl same ↦
      let e : v.witness ≡ w = (string_eq.decides v.witness w).0 same in
      rw same (mem-add_to_set h v.state_hash (hashes_of v.witness by_w) (rw e m))
  | inr other ↦ rw other m
])

mem-insert_vote_self :
    (v : Vote) (by_w : Dict String (List String))
    → mem v.state_hash (hashes_of v.witness (insert_vote v by_w)) ≡ true
unfolding insert_vote
mem-insert_vote_self v by_w =
    rw (lookup_or-insert, beq_refl v.witness)
      (mem-add_to_set_self v.state_hash (hashes_of v.witness by_w))

hashes-kept :
    (w h : String) (vs : List Vote) (by_w : Dict String (List String))
    → mem h (hashes_of w by_w) ≡ true
    → mem h (hashes_of w (hashes_by_witness vs by_w)) ≡ true
unfolding hashes_by_witness insert_vote
hashes-kept w h [] by_w m = m
hashes-kept w h (v ∷ vs) by_w m =
    hashes-kept w h vs (insert_vote v by_w) (mem-insert_vote w h v by_w m)

hashes-Signed :
    (w h : String) (vs : List Vote) (by_w : Dict String (List String))
    → Signed w h vs
    → mem h (hashes_of w (hashes_by_witness vs by_w)) ≡ true
unfolding hashes_by_witness insert_vote
hashes-Signed w h [] by_w s = absurd s
hashes-Signed w h (v ∷ vs) by_w (inl (ew, eh)) =
    hashes-kept w h vs (insert_vote v by_w) (rw (← ew, ← eh) (mem-insert_vote_self v by_w))
hashes-Signed w h (v ∷ vs) by_w (inr s) = hashes-Signed w h vs (insert_vote v by_w) s

mem_pos : (h : String) (hs : List String) → mem h hs ≡ true → 0 < length hs
unfolding mem
mem_pos h [] m = cc
mem_pos h (g ∷ hs) m = omega arith

two_members :
    (h g : String) (hs : List String) → h ≢ g → mem h hs ≡ true → mem g hs ≡ true → 1 < length hs
unfolding mem
two_members h g [] ne m k = cc
two_members h g (x ∷ hs) ne m k =
    ground (arith, string_eq.decides x h, string_eq.decides x g, mem_pos h hs, mem_pos g hs)

mem-equivocating :
    (w : String) (by_w : Dict String (List String))
    → 1 < length (hashes_of w by_w)
    → mem w (equivocating by_w) ≡ true
unfolding equivocating mem lookup_or lookup
mem-equivocating w [] two = absurd (omega arith)
mem-equivocating w ((v, hs) ∷ by_w) two =
    ground (arith, string_eq.decides v w, mem-equivocating w by_w)

mem-insert_sorted : (w s : String) (ts : List String) → mem w (insert_sorted s ts) ≡ mem w (s ∷ ts)
unfolding insert_sorted mem
mem-insert_sorted w s [] = refl
mem-insert_sorted w s (t ∷ ts) = ground (arith, mem-insert_sorted w s ts)

mem-sorted : (w : String) (ts : List String) → mem w (sorted ts) ≡ mem w ts
unfolding sorted mem
mem-sorted w [] = refl
mem-sorted w (t ∷ ts) =
    mem-insert_sorted w t (sorted ts) ∙ ap (λ b. if t ≟ w then true else b) (mem-sorted w ts)

count_votes-excluded :
    (w : String) (out : List String) (vs : List Vote) (counted : Dict String String)
    → mem w out ≡ true
    → lookup w (count_votes out vs counted) ≡ lookup w counted
unfolding count_votes
count_votes-excluded w out [] counted m = refl
count_votes-excluded w out (v ∷ vs) counted m = elim (Bool-cases (mem v.witness out)) [
  | inl skipped ↦ rw skipped (count_votes-excluded w out vs counted m)
  | inr taken ↦ rw taken (
      count_votes-excluded w out vs (insert v.witness v.state_hash counted) m
      ∙ (rw lookup-insert (ground (arith, string_eq.decides v.witness w))))
]

-- A witness with authentic votes for two different hashes is named among the equivocators, and none
-- of its votes is counted.
pub equivocator_excluded :
    (sha256 : String → String) (votes : List Vote) (k : ℕ) (registry : Registry) (round_id : Value)
    (w h g : String)
    → h ≢ g
    → Signed w h (authentic_votes registry votes)
    → Signed w g (authentic_votes registry votes)
    → (mem w (certificate sha256 votes k registry round_id).equivocators ≡ true)
      × (lookup w (counted_votes (authentic_votes registry votes)) ≡ none)
unfolding certificate counted_votes lookup
equivocator_excluded sha256 votes k registry round_id w h g ne sh sg =
    let valid = authentic_votes registry votes in
    let by_w = hashes_by_witness valid [] in
    let named : mem w (sorted (equivocating by_w)) ≡ true =
      mem-sorted w (equivocating by_w)
      ∙ mem-equivocating w by_w (
          two_members h g (hashes_of w by_w) ne (hashes-Signed w h valid [] sh)
            (hashes-Signed w g valid [] sg)) in
    (named, count_votes-excluded w (sorted (equivocating by_w)) valid [] named)
