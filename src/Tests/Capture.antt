-- ===== src/Tests/Capture.antt =====
-- chronicle/capture.py on logic that reads a time and a score.
use dentatus.Prelude.{ℕ, zero, suc, ◌≡◌, refl, true, ok}
use dentatus.Chronicle.Value.{
  Value, dict, list, cons, nil, float, str, nat, field, end, find, put_field,
}
use dentatus.Chronicle.Canonical.{canon}
use dentatus.Chronicle.Canonical.Form.{Shows, IsCanonical, canon-IsCanonical}
use dentatus.Chronicle.Capture.{Capture, new_capture, replay_capture, sealed_inputs, capture_get}
use dentatus.Chronicle.Capture.Replay.{Logic, finish, read, World, run, AreFresh, Gives, run-Gives}

abbrev reads : Logic
reads = read "ts" (λ ts. read "score" (λ score. finish (list (cons ts (cons score nil)))))

abbrev before : World
before zero = ok (float "0.1" true)
before (suc n) = ok (nat n)

abbrev after : World
after n = ok (nat 99)

ran :
    (c : Capture) × (run reads before new_capture
      ≡ ok (list (cons (str "0.1") (cons (nat 0) nil)), c))
unfolding run capture_get canon put_field
ran = (_, refl)

reads-AreFresh : AreFresh reads before end
unfolding find put_field
reads-AreFresh = (refl, λ ts e. (refl, λ score f. tt))

run-Gives_example :
    Gives reads after
      (list (cons (str "0.1") (cons (nat 0) nil)))
      (sealed_inputs ran.0 (field "applicant" (str "a") end))
    × Gives reads after
        (list (cons (str "0.1") (cons (nat 0) nil)))
        (canon (sealed_inputs ran.0 (field "applicant" (str "a") end)))
run-Gives_example =
    run-Gives reads before after (field "applicant" (str "a") end) reads-AreFresh ran.1

-- a label that is read twice is replayed with its last value
abbrev read_twice : Logic
read_twice = read "x" (λ x. read "x" (λ y. finish (list (cons x (cons y nil)))))

ran_twice :
    (c : Capture) × (run read_twice (λ n. ok (nat n)) new_capture
      ≡ ok (list (cons (nat 0) (cons (nat 1) nil)), c))
unfolding run capture_get canon put_field
ran_twice = (_, refl)

replayed_twice :
    Gives read_twice after (list (cons (nat 1) (cons (nat 1) nil))) (sealed_inputs ran_twice.0 end)
unfolding run capture_get canon put_field replay_capture sealed_inputs find ran_twice
replayed_twice = (_, (refl, refl))

-- keys out of order, and a float under them
abbrev mixed : Value
mixed = dict (field "b" (list (cons (float "0.5" true) nil)) (field "a" (nat 1) end))

mixed_form : canon mixed ≡ dict (field "a" (nat 1) (field "b" (list (cons (str "0.5") nil)) end))
unfolding canon dentatus.Chronicle.Canonical.insert_key
mixed_form = refl

canon-IsCanonical_example :
    Shows mixed (canon mixed) × IsCanonical (canon mixed) × (canon (canon mixed) ≡ canon mixed)
canon-IsCanonical_example = canon-IsCanonical mixed

abbrev answers : ℕ → Value
answers n = str "same"
