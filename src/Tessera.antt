-- ===== src/Tessera.antt =====
-- tessera/shard.py: a shard of a computation's history, and its replay. The hash of the rule reads Python
-- source, so it is an argument, with the rule and its end test; so are an Ed25519 key's public material
-- and the verifier that is made of it.
pub mod RoundTrip
use dentatus.Prelude.{
  ℕ, zero, suc, ◌+◌, String, Bool, true, false, not, Option, none, some, List, [], ◌∷◌, Outcome, ok,
  err, ◌>>=◌, ◌==◌, if◌then◌else◌,
}
use dentatus.Prelude.Eq.{◌≟◌, string_eq}
use dentatus.Chronicle.Value.{Value, str, nat, dict, field, end, or_empty}
use dentatus.Chronicle.Canonical.{
  ◌^^◌, show_nat, canon, canonical_bytes, state_hash, hash_pair, genesis,
}
use dentatus.Chronicle.Signing.{Verifier, Signer}
use dentatus.Pact.{start_hash}

pub record Tessera : Type 0 where
  pub ruleset_hash : String
  pub prev : String
  pub seed : Value
  pub steps : ℕ
  pub terminus : Value
  pub path_hash : String
  pub meta : Value
  pub signature : Option String
  pub algo : Option String
  pub public_material : Option String

unfoldable pub body : Tessera → Value
body t = dict (
    field "protocol" (str "tessera/1") (
      field "ruleset_hash" (str t.ruleset_hash) (
        field "prev" (str t.prev) (
          field "seed" t.seed (
            field "steps" (nat t.steps) (
              field "terminus" t.terminus
                (field "path_hash" (str t.path_hash) (field "meta" t.meta end))))))))

-- what `_body` makes of a shard's own fields
abbrev pub rebuilt : Tessera → Tessera
rebuilt t = record t {
  seed = canon t.seed;
  terminus = canon t.terminus;
  meta = or_empty (some t.meta);
}

-- the path hash, the terminus, the number of steps
abbrev pub Rolled : Type 0
Rolled = String × Value × ℕ

abbrev pub sign_with : Option Signer → String → Option String
sign_with none message = none
sign_with (some s) message = some (s.sign message)

abbrev pub algo_of : Option Signer → Option String
algo_of none = none
algo_of (some s) = some s.algo

module _ (sha256 : String → String) (rule_hash : String) (rule_step : Value → Value)
    (done : Value → Bool) (material : Signer → String) (ed25519 : String → Verifier) where
  -- the loop, with the steps that are left; `none` is a `TesseraError`
  unfoldable pub roll_from : ℕ → String → Value → ℕ → Option Rolled
  roll_from zero h state steps = if done state then some (h, state, steps) else none
  roll_from (suc left) h state steps =
      let state' = rule_step state in
      let rest =
        roll_from left (hash_pair sha256 h (state_hash sha256 state')) state' (steps + 1) in
      if done state then some (h, state, steps) else rest

  unfoldable pub roll : Value → ℕ → Option Rolled
  unfolding roll_from
  roll seed max_steps =
      roll_from max_steps
        (state_hash sha256 (dict (field "v" (str "tessera/1") (field "seed" seed end)))) seed 0

  abbrev pub material_of : Option Signer → Option String
  material_of none = none
  material_of (some s) = if s.algo ≟ "ed25519" then some (material s) else none

  abbrev pub signed : Option Signer → Tessera → Tessera
  signed signer t = record t {
    signature = sign_with signer (canonical_bytes (body t));
    algo = algo_of signer;
    public_material = material_of signer;
  }

  abbrev pub unsigned : Value → Option String → Option Value → Rolled → Tessera
  unsigned seed prev meta (h, terminus, steps) = record {
    ruleset_hash = rule_hash;
    prev = start_hash prev;
    seed = canon seed;
    steps = steps;
    terminus = canon terminus;
    path_hash = h;
    meta = or_empty meta;
    signature = none;
    algo = none;
    public_material = none;
  }

  abbrev pub forge :
      Option Signer → Value → Option String → Option Value → Option Rolled → Outcome Tessera
  forge signer seed prev meta none = err "terminus not reached"
  forge signer seed prev meta (some r) = ok (signed signer (unsigned seed prev meta r))

  unfoldable pub mint : Value → ℕ → Option Signer → Option String → Option Value → Outcome Tessera
  unfolding roll body
  mint seed max_steps signer prev meta = forge signer seed prev meta (roll seed max_steps)

  -- the key that the signature is checked with
  unfoldable pub key_for : Tessera → Option Verifier → Option Verifier
  key_for t (some v) = some v
  key_for t none = elim t.algo [
    | some a ↦ elim t.public_material [
      | some m ↦ if a ≟ "ed25519" then (if m ≟ "" then none else some (ed25519 m)) else none
      | none ↦ none
    ]
    | none ↦ none
  ]

  abbrev pub check_key : Tessera → String → Option Verifier → Outcome (Bool × String)
  check_key t sig none =
      ok (false, "SIGNATURE present but no verifier key supplied (authorship unconfirmed)")
  check_key t sig (some v) = v.verify (canonical_bytes (body (rebuilt t))) sig >>= λ valid.
      ok (
        if not valid then (false, "SIGNATURE invalid (forged / wrong key)") else (true, "VERIFIED"))

  abbrev pub check_signature : Tessera → Option Verifier → Option String → Outcome (Bool × String)
  check_signature t verifier none = ok (true, "VERIFIED")
  check_signature t verifier (some sig) = check_key t sig (key_for t verifier)

  unfoldable pub check_replay : Tessera → Option Verifier → Option Rolled → Outcome (Bool × String)
  unfolding key_for
  check_replay t verifier none = ok (
    false,
    "STEPS mismatch (terminus not reached in the claimed " ^^ show_nat t.steps ^^ " steps)",
  )
  check_replay t verifier (some (h, terminus, steps)) =
      if not (steps == t.steps)
      then ok (
        false,
        "STEPS mismatch (claimed " ^^ show_nat t.steps ^^ ", replayed " ^^ show_nat steps ^^ ")",
      )
      else if not (canonical_bytes terminus ≟ canonical_bytes t.terminus)
      then ok (false, "TERMINUS mismatch (replayed end-state differs)")
      else if not (h ≟ t.path_hash)
      then ok (false, "PATH mismatch (bit-flip history differs from the claim)")
      else check_signature t verifier t.signature

  unfoldable pub verify : Tessera → Option Verifier → Outcome (Bool × String)
  unfolding check_replay roll
  verify t verifier =
      if not (rule_hash ≟ t.ruleset_hash)
      then ok (false, "RULESET mismatch (verifier ran a different rule than the shard declares)")
      else check_replay t verifier (roll t.seed t.steps)

  -- the states of the claimed path after one that is right
  unfoldable pub diverges_from : Value → ℕ → List Value → Option ℕ
  diverges_from state i [] = none
  diverges_from state i (v ∷ vs) =
      let state' = rule_step state in
      let rest = diverges_from state' (i + 1) vs in
      if not (canonical_bytes state' ≟ canonical_bytes v) then some i else rest

  unfoldable pub locate_divergence : Tessera → List Value → Option ℕ
  unfolding diverges_from
  locate_divergence t [] = some 0
  locate_divergence t (v ∷ vs) =
      if not (canonical_bytes v ≟ canonical_bytes t.seed) then some 0 else diverges_from t.seed 1 vs

  -- `link`; `seed_from` is the identity where the call gives none
  unfoldable pub link :
      Tessera → ℕ → Option Signer → (Value → Value) → Option Value → Outcome Tessera
  unfolding mint
  link prev_tessera max_steps signer seed_from meta =
      mint (seed_from prev_tessera.terminus) max_steps signer (some prev_tessera.path_hash) meta

  abbrev pub lineage_step :
      ℕ
      → Tessera
      → String
      → Outcome (Option (ℕ × String))
      → Bool × String
      → Outcome (Option (ℕ × String))
  lineage_step i t prev_ph rest (false, detail) = ok (some (i, detail))
  lineage_step i t prev_ph rest (true, detail) =
      if not (t.prev ≟ prev_ph)
      then ok (some (i, "LINEAGE broken (prev != prior path_hash)"))
      else rest

  unfoldable pub verify_lineage_from :
      String → ℕ → List Tessera → Option Verifier → Outcome (Option (ℕ × String))
  unfolding verify
  verify_lineage_from prev_ph i [] verifier = ok none
  verify_lineage_from prev_ph i (t ∷ chain) verifier =
      let rest = verify_lineage_from t.path_hash (i + 1) chain verifier in
      verify t verifier >>= lineage_step i t prev_ph rest

  -- `none` is `(True, None)`, else the link and the reason
  unfoldable pub verify_lineage : List Tessera → Option Verifier → Outcome (Option (ℕ × String))
  unfolding verify_lineage_from
  verify_lineage chain verifier = verify_lineage_from genesis 0 chain verifier
