-- ===== src/Lockstep/Frames/Between.antt =====
-- What a frame of lockstep/interp.py shows: the state of its tick, or numbers between those of the two ticks
-- around it.
use dentatus.Prelude.{
  ℕ, zero, suc, ◌+◌, ◌*◌, ◌/◌, ◌%◌, ◌<◌, String, ◌≡◌, refl, sym, ap, ◌∙◌, ◌⊎◌, inl, inr, Bool-cases,
  Option, none, some, List, [], ◌∷◌, ◌==◌, ==_iff, get_elem?, Outcome, ok, >>=-eq-ok, arith,
}
use dentatus.Prelude.Int.{ℤ, pos, negsuc}
use dentatus.Prelude.Eq.{◌≟◌, string_eq}
use dentatus.Prelude.Dict.{Dict, insert, lookup, lookup-insert, lookup-insert_self}
use dentatus.Chronicle.Value.{Value, int, get}
use dentatus.Lockstep.{Track}
use dentatus.Lockstep.Frames.Lerp.{Between, Floors, ilerp-Between, ilerp-Floors}
use dentatus.Lockstep.Frames.{
  Frame, drawn, states, frame_to_tick, ilerp, present, number, field_number, lerp_field, collect,
  interpolate, shown, exact_frame, between_frame, place_frame, render_frame,
}

-- one of the fields that are asked for
abbrev pub Listed : String → List String → Type 0
Listed fld [] = ⊥
Listed fld (x ∷ xs) = (x ≡ fld) ⊎ Listed fld xs

module _ (show : String → Outcome Value) where
  collect-keeps :
      (xs : List String) (acc d : Dict String Value) (fld : String) (v : Value)
      → collect show acc xs ≡ ok d
      → show fld ≡ ok v
      → lookup fld acc ≡ some v
      → lookup fld d ≡ some v
  unfolding collect
  collect-keeps [] acc d fld v e at_ kept = let same : acc ≡ d = cc in rw (← same) kept
  collect-keeps (x ∷ xs) acc d fld v e at_ kept =
      let (w, shows, e2) = >>=-eq-ok (show x) _ e in
      collect-keeps xs (insert x w acc) d fld v e2 at_ (elim (Bool-cases (x ≟ fld)) [
        | inl same ↦
            let name : x ≡ fld = (string_eq.decides x fld).0 same in
            let again : show fld ≡ ok w = rw (← name) shows in
            rw (lookup-insert fld x w acc) (rw same (cc))
        | inr other ↦ rw (lookup-insert fld x w acc) (rw other kept)
      ])

  collect-Listed :
      (xs : List String) (acc d : Dict String Value) (fld : String)
      → collect show acc xs ≡ ok d
      → Listed fld xs
      → (v : Value) × (lookup fld d ≡ some v) × (show fld ≡ ok v)
  unfolding collect
  collect-Listed [] acc d fld e l = absurd l
  collect-Listed (x ∷ xs) acc d fld e (inl same) =
      let (w, shows, e2) = >>=-eq-ok (show x) _ e in
      let here_ : show fld ≡ ok w = rw (← same) shows in
      (
        w,
        collect-keeps xs (insert x w acc) d fld w e2 here_ (rw same (lookup-insert_self fld w acc)),
        here_,
      )
  collect-Listed (x ∷ xs) acc d fld e (inr later) =
      let (w, shows, e2) = >>=-eq-ok (show x) _ e in
      collect-Listed xs (insert x w acc) d fld e2 later

-- past the tick: a number between those of the tick's state and of the next one, as far from the first as
-- the part of the tick, rounded down
pub record Interpolated (track : Track) (n rem den : ℕ) (fld : String) (v : Value) : Type 0 where
  pub past : 0 < rem
  pub before : Value
  pub after : Value
  pub a : ℤ
  pub b : ℤ
  pub x : ℤ
  pub held : get_elem? (states track) n ≡ some before
  pub simulated : get_elem? (states track) (n + 1) ≡ some after
  pub from : get fld before ≡ some (int a)
  pub to : get fld after ≡ some (int b)
  pub drawn_at : v ≡ int x
  pub between : Between a b x
  pub part : Floors a b rem den x

-- the field of the tick's own state
abbrev pub Exact : Track → ℕ → String → Value → Type 0
Exact track n fld v =
    (state : Value) × (get_elem? (states track) n ≡ some state) × (get fld state ≡ some v)

pub record Faithful (track : Track) (f : ℕ) (truth_rate render_rate : ℤ) (fields : List String)
    (fr : Frame) : Type 0 where
  pub rate : ℕ
  pub truth : truth_rate ≡ pos rate
  pub render : render_rate ≡ pos fr.alpha_den
  pub time : fr.tick * fr.alpha_den + fr.alpha_num ≡ f * rate
  pub below : fr.alpha_num < fr.alpha_den
  pub values :
      (fld : String)
      → Listed fld fields
      → (v : Value) × (lookup fld fr.pos_of ≡ some v)
        × (((fr.alpha_num ≡ 0) × Exact track fr.tick fld v)
            ⊎ Interpolated track fr.tick fr.alpha_num fr.alpha_den fld v)

present-ok : (o : Option Value) {v : Value} → present o ≡ ok v → o ≡ some v
present-ok none e = absurd (cc)
present-ok (some w) e = cc

number-ok : (v : Value) {n : ℤ} → number v ≡ ok n → v ≡ int n
number-ok (int m) e = cc
number-ok Value.null e = absurd (cc)
number-ok (Value.bool b) e = absurd (cc)
number-ok (Value.float t b) e = absurd (cc)
number-ok (Value.str s) e = absurd (cc)
number-ok (Value.list xs) e = absurd (cc)
number-ok (Value.dict fs) e = absurd (cc)

field_number-ok :
    (fld : String) (state : Value) {n : ℤ}
    → field_number fld state ≡ ok n
    → get fld state ≡ some (int n)
unfolding field_number
field_number-ok fld state e =
    let (v, found, e2) = >>=-eq-ok (present (get fld state)) _ e in
    present-ok _ found ∙ ap some (number-ok v e2)

lerp_field-Between :
    (before after : Value) (rem den : ℕ) (fld : String) {v : Value}
    → rem < den
    → lerp_field before after rem den fld ≡ ok v
    → (a b x : ℤ) × (get fld before ≡ some (int a))
      × (get fld after ≡ some (int b))
      × (v ≡ int x)
      × Between a b x
      × Floors a b rem den x
unfolding lerp_field
lerp_field-Between before after rem den fld {v} h e =
    let (a, from, e2) = >>=-eq-ok (field_number fld before) _ e in
    let (b, to, e3) = >>=-eq-ok (field_number fld after) _ e2 in
    (
      a,
      b,
      ilerp a b rem den,
      field_number-ok fld before from,
      field_number-ok fld after to,
      sym (cc),
      ilerp-Between a b rem den h,
      ilerp-Floors a b rem den (omega (arith, h)),
    )

module _ (track : Track) (f n den : ℕ) (fields : List String) (fr : Frame) where
  abbrev Placed : ℕ → Type 0
  Placed rem =
      ((fr.tick ≡ n) × (fr.alpha_num ≡ rem) × (fr.alpha_den ≡ den))
      × ((fld : String)
          → Listed fld fields
          → (v : Value) × (lookup fld fr.pos_of ≡ some v)
            × (((rem ≡ 0) × Exact track n fld v) ⊎ Interpolated track n rem den fld v))

  exact_frame-Placed :
      (o : Option Value)
      → get_elem? (states track) n ≡ o
      → exact_frame f n den fields o ≡ ok (drawn fr)
      → Placed 0
  exact_frame-Placed none found e = absurd (cc)
  exact_frame-Placed (some state) found e =
      let (d, collected, e2) = >>=-eq-ok (collect (λ fld. present (get fld state)) [] fields) _ e in
      let same : shown f n 0 den d ≡ fr = cc in
      rw (← same) (
        (refl, refl, refl),
        λ fld listed.
            let (v, shows, reads) =
              collect-Listed (λ fld. present (get fld state)) fields [] d fld collected listed in
            (v, shows, inl (refl, (state, found, present-ok _ reads))),
      )

  between_frame-Placed :
      (rem : ℕ) (o o' : Option Value)
      → rem < den
      → 0 < rem
      → get_elem? (states track) n ≡ o
      → get_elem? (states track) (n + 1) ≡ o'
      → between_frame f n rem den fields o o' ≡ ok (drawn fr)
      → Placed rem
  between_frame-Placed rem none o' h past found next e = absurd (cc)
  between_frame-Placed rem (some before) none h past found next e = absurd (cc)
  between_frame-Placed rem (some before) (some after) h past found next e =
      let (d, collected, e2) = >>=-eq-ok (interpolate before after rem den fields) _ e in
      let same : shown f n rem den d ≡ fr = cc in
      rw (← same) (
        (refl, refl, refl),
        λ fld listed.
            let (v, shows, reads) =
              collect-Listed (lerp_field before after rem den) fields [] d fld collected listed in
            let (a, b, x, from, to, at_, between, part) =
              lerp_field-Between before after rem den fld h reads in
            (
              v,
              shows,
              inr (record {
                before = before;
                after = after;
                a = a;
                b = b;
                x = x;
                held = found;
                simulated = next;
                from = from;
                to = to;
                drawn_at = at_;
                between = between;
                past = past;
                part = part;
              }),
            ),
      )

  place_frame-Placed :
      (rem : ℕ)
      → rem < den
      → place_frame track f fields (some (n, rem, den)) ≡ ok (drawn fr)
      → Placed rem
  place_frame-Placed rem h e = elim (Bool-cases (rem == 0)) [
    | inl whole ↦
        let zero_ : rem ≡ 0 = (==_iff rem 0).0 whole in
        rw zero_ (exact_frame-Placed _ refl (rw whole at e))
    | inr part ↦ between_frame-Placed rem _ _ h (ground arith) refl refl (rw part at e)
  ]

-- A frame that is drawn stands at the time of its index, and each field that is asked for shows the
-- value of the tick's own state when the time is a tick. Only past a tick it is a number between the values
-- of the state before and of the state after, both of which the track holds, and its distance from the
-- first is the difference of the two times the part of the tick that has passed, rounded down.
pub render_frame-Faithful :
    (track : Track) (f : ℕ) (truth_rate render_rate : ℤ) (fields : List String) {fr : Frame}
    → render_frame track f truth_rate render_rate fields ≡ ok (drawn fr)
    → Faithful track f truth_rate render_rate fields fr
unfolding render_frame frame_to_tick
render_frame-Faithful track f (pos (suc t)) (pos (suc r)) fields {fr} e =
    let h : f * suc t % suc r < suc r = omega arith in
    let ((at_, num, den), values) =
      place_frame-Placed track f (f * suc t / suc r) (suc r) fields fr (f * suc t % suc r) h e in
    record {
      rate = suc t;
      truth = refl;
      render = ap pos (sym den);
      time = rw at_ (rw num (rw den (grind arith)));
      below = rw num (rw den h);
      values = rw at_ (rw num (rw den values));
    }
render_frame-Faithful track f (pos zero) render_rate fields e = absurd (cc)
render_frame-Faithful track f (negsuc t) render_rate fields e = absurd (cc)
render_frame-Faithful track f (pos (suc t)) (pos zero) fields e = absurd (cc)
render_frame-Faithful track f (pos (suc t)) (negsuc r) fields e = absurd (cc)
