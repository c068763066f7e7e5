-- ===== src/Chronicle/Capture/Replay.antt =====
-- Logic whose reads go through a handle of chronicle/capture.py is replayed with the recorded values.
use mathlib.Core.Path.{subst}
use dentatus.Prelude.{
  ℕ, suc, String, ◌≡◌, refl, sym, ap, ◌∙◌, Bool-cases, inl, inr, none, some, Outcome, ok, ◌>>=◌,
  >>=-eq-ok,
}
use dentatus.Prelude.Eq.{◌≟◌, string_eq}
use dentatus.Chronicle.Value.{Value, Fields, end, dict, find, put_field}
use dentatus.Chronicle.Canonical.{canon, canon_fields}
use dentatus.Chronicle.Canonical.Lookup.{
  canon_option, find-put_field_self, find-put_field_other, find-canon_fields,
}
use dentatus.Chronicle.Canonical.Idempotent.{canon-canon}
use dentatus.Chronicle.Capture.{
  Capture, recording, replaying, captured_key, new_capture, captured_view, replay_capture,
  capture_get, sealed_inputs,
}

-- logic that reads what is not deterministic only through the handle
pub data Logic : Type 0 where
  finish : Value → Logic
  read : String → (Value → Logic) → Logic

-- what each call of a producer returns
abbrev pub World : Type 0
World = ℕ → Outcome Value

abbrev later : World → World
later world n = world (suc n)

unfoldable pub run : Logic → World → Capture → Outcome (Value × Capture)
run (finish v) world c = ok (v, c)
run (read label next) world c =
    capture_get c label (world 0) >>= λ got. run (next got.0) (later world) got.1

-- no label is read twice
abbrev pub AreFresh : Logic → World → Fields → Type 0
AreFresh (finish v) world taken = Unit
AreFresh (read label next) world taken =
    (find label taken ≡ none)
    × ((v : Value)
        → world 0 ≡ ok v
        → AreFresh (next (canon v)) (later world) (put_field label (canon v) taken))

-- the second dict has what the first has
Extends : Fields → Fields → Type 0
Extends fs gs = (k : String) (v : Value) → find k fs ≡ some v → find k gs ≡ some v

AreCanonical : Fields → Type 0
AreCanonical fs = (k : String) (v : Value) → find k fs ≡ some v → canon v ≡ v

abbrev recorded : Fields → Capture
recorded fs = record { mode = recording; cap = fs }

abbrev replayed : Fields → Capture
replayed fs = record { mode = replaying; cap = fs }

put_field-Extends :
    (label : String) (v : Value) (fs : Fields)
    → find label fs ≡ none
    → Extends fs (put_field label v fs)
unfolding Extends
put_field-Extends label v fs fresh k w e = elim (Bool-cases (label ≟ k)) [
  | inl same ↦
      let eq : label ≡ k = (string_eq.decides label k).0 same in
      let absent : find k fs ≡ none = ap (λ l. find l fs) (sym eq) ∙ fresh in absurd (cc)
  | inr other ↦ find-put_field_other k label v fs other ∙ e
]

put_field-AreCanonical :
    (label : String) (v : Value) (fs : Fields)
    → canon v ≡ v
    → AreCanonical fs
    → AreCanonical (put_field label v fs)
unfolding AreCanonical
put_field-AreCanonical label v fs c a k w e = elim (Bool-cases (label ≟ k)) [
  | inl same ↦
      let eq : label ≡ k = (string_eq.decides label k).0 same in
      let here_ : find k (put_field label v fs) ≡ some v =
        ap (λ l. find l (put_field label v fs)) (sym eq) ∙ find-put_field_self label v fs in
      let v≡w : v ≡ w = cc in cc
  | inr other ↦ a k w (sym (find-put_field_other k label v fs other) ∙ e)
]

-- what a recording leaves in the handle
record Recording (taken : Fields) (c : Capture) : Type 0 where
  extends : Extends taken c.cap
  canonical : AreCanonical c.cap

run-Recording :
    (logic : Logic) (world : World) (taken : Fields) {out : Value} {c : Capture}
    → AreFresh logic world taken
    → AreCanonical taken
    → run logic world (recorded taken) ≡ ok (out, c)
    → Recording taken c
unfolding run capture_get Extends
run-Recording (finish v) world taken {out} {c} fresh a e =
    let same : recorded taken ≡ c = cc in
    subst (Recording taken) same (record { extends = λ k v f. f; canonical = a })
run-Recording (read label next) world taken {out} {c} (absent, fresh) a e =
    let (got, called, ran) = >>=-eq-ok _ _ e in
    let (v, produced, gives) = >>=-eq-ok (world 0) _ called in
    let cap2 = put_field label (canon v) taken in
    let rest : run (next (canon v)) (later world) (recorded cap2) ≡ ok (out, c) = cc in
    let r =
      run-Recording (next (canon v)) (later world) cap2 (fresh v produced)
        (put_field-AreCanonical label (canon v) taken (canon-canon v) a) rest in
    record {
      extends = λ k w f. r.extends k w (put_field-Extends label (canon v) taken absent k w f);
      canonical = r.canonical;
    }

run-again :
    (logic : Logic) (world other : World) (taken gs : Fields) {out : Value} {c : Capture}
    → AreFresh logic world taken
    → AreCanonical taken
    → run logic world (recorded taken) ≡ ok (out, c)
    → Extends c.cap gs
    → run logic other (replayed gs) ≡ ok (out, replayed gs)
unfolding run capture_get Extends
run-again (finish v) world other taken gs {out} {c} fresh a e within =
    let same : v ≡ out = cc in ap (λ x. ok (x, replayed gs)) same
run-again (read label next) world other taken gs {out} {c} (absent, fresh) a e within =
    let (got, called, ran) = >>=-eq-ok _ _ e in
    let (v, produced, gives) = >>=-eq-ok (world 0) _ called in
    let cap2 = put_field label (canon v) taken in
    let rest : run (next (canon v)) (later world) (recorded cap2) ≡ ok (out, c) = cc in
    let a2 = put_field-AreCanonical label (canon v) taken (canon-canon v) a in
    let r = run-Recording (next (canon v)) (later world) cap2 (fresh v produced) a2 rest in
    let held : find label gs ≡ some (canon v) =
      within label (canon v)
        (r.extends label (canon v) (find-put_field_self label (canon v) taken)) in
    rw held (
      run-again (next (canon v)) (later world) (later other) cap2 gs (fresh v produced) a2 rest
        within)

-- The logic, replayed from the inputs in another world, returns the same.
abbrev pub Gives : Logic → World → Value → Value → Type 0
Gives logic other out inputs =
    (c : Capture) × ((replay_capture inputs ≡ ok c) × (run logic other c ≡ ok (out, c)))

replay-Gives :
    (logic : Logic) (world other : World) (inputs : Value) (gs : Fields) {out : Value} {c : Capture}
    → AreFresh logic world end
    → run logic world new_capture ≡ ok (out, c)
    → captured_view inputs ≡ ok gs
    → Extends c.cap gs
    → Gives logic other out inputs
unfolding replay_capture AreCanonical find
replay-Gives logic world other inputs gs fresh e seen within = (
  replayed gs,
  (rw seen refl, run-again logic world other end gs fresh (λ k v absent. cc) e within),
)

-- What logic returned while its reads were recorded, no label twice, it returns again on a replay from the
-- sealed inputs, whatever the world has become: from the sealed inputs as they are, and from their
-- canonical form.
pub run-Gives :
    (logic : Logic) (world other : World) (business : Fields) {out : Value} {c : Capture}
    → AreFresh logic world end
    → run logic world new_capture ≡ ok (out, c)
    → Gives logic other out (sealed_inputs c business)
      × Gives logic other out (canon (sealed_inputs c business))
unfolding sealed_inputs captured_view canon AreCanonical Extends find
run-Gives logic world other business {out} {c} fresh e =
    let sealed = put_field captured_key (dict c.cap) business in
    let held : find captured_key sealed ≡ some (dict c.cap) =
      find-put_field_self captured_key (dict c.cap) business in
    let canonical : AreCanonical c.cap =
      (run-Recording logic world end fresh (λ k v absent. cc) e).canonical in
    let same : (k : String) (v : Value)
        → find k c.cap ≡ some v
        → find k (canon_fields c.cap) ≡ some v =
      λ k v f. find-canon_fields k c.cap ∙ ap canon_option f ∙ ap some (canonical k v f) in
    (
      replay-Gives logic world other (dict sealed) c.cap fresh e (rw held refl) (λ k v f. f),
      replay-Gives logic world other (dict (canon_fields sealed)) (canon_fields c.cap) fresh e
          (rw (find-canon_fields captured_key sealed ∙ ap canon_option held) refl) same,
    )
