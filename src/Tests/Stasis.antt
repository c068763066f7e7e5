-- ===== src/Tests/Stasis.antt =====
-- stasis/batch.py and stasis/canon.py on a batch of three leaves; the digest of a text is the text.
use dentatus.Prelude.{String, ◌≡◌, refl, true, false, List, [], ◌∷◌, arith, ok, err}
use dentatus.Chronicle.Value.{float, list, cons, nil, nat}
use dentatus.Stasis.Canon.{canonicalize, is_canonical}
use dentatus.Stasis.Batch.{ProofStep, left, right, merkle_root, inclusion_proof, verify_inclusion}
use dentatus.Stasis.Batch.Inclusion.{verify_inclusion-inclusion_proof}

abbrev same : String → String
same s = s

abbrev leaves : List String
leaves = "a" ∷ "b" ∷ "c" ∷ []

abbrev path_of_c : List ProofStep
path_of_c = record { sib = "c"; side = right } ∷ record { sib = "a|b"; side = left } ∷ []

merkle_root3 : merkle_root same leaves ≡ ok "a|b|c|c"
unfolding merkle_root dentatus.Stasis.Batch.level_up dentatus.Chronicle.Canonical.hash_pair
merkle_root3 = refl

inclusion_proof3 : inclusion_proof same leaves 2 ≡ ok path_of_c
unfolding inclusion_proof dentatus.Stasis.Batch.sibling_path dentatus.Stasis.Batch.sibling_step
    dentatus.Stasis.Batch.level_up dentatus.Chronicle.Canonical.hash_pair
inclusion_proof3 = refl

inclusion_proof_out_of_range : inclusion_proof same leaves 3 ≡ err "index out of range"
unfolding inclusion_proof
inclusion_proof_out_of_range = refl

canonicalize_float :
    canonicalize (list (cons (nat 1) (cons (float "0.5" true) nil))) false
    ≡ err "$[1]: float not allowed in canonical bytes (use integers/fixed-point)"
unfolding canonicalize dentatus.Stasis.Canon.check_float dentatus.Chronicle.Canonical.show_nat
canonicalize_float = refl

verify_inclusion-inclusion_proof_example :
    (proof : List ProofStep) × (root : String) × (inclusion_proof same leaves 2 ≡ ok proof)
    × (merkle_root same leaves ≡ ok root)
    × (verify_inclusion same "c" proof root ≡ true)
verify_inclusion-inclusion_proof_example =
    verify_inclusion-inclusion_proof same leaves 2 (omega arith)
