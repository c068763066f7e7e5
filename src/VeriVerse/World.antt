-- ===== src/VeriVerse/World.antt =====
-- VeriVerse/world.py: columns, chunks and their features. `max_steps` is the budget of `syracuse.gates`; a
-- feature whose orbit does not end within it raises, since its stopping time is compared with a number.
use dentatus.Prelude.{
  ℕ, zero, suc, ◌+◌, ◌%◌, String, Bool, true, false, Option, none, some, List, [], ◌∷◌, Outcome, ok,
  err, ◌>>=◌, ◌==◌, leb, if◌then◌else◌, ◌&&◌, not,
}
use dentatus.Prelude.Int.{ℤ, pos, ◌+ℤ◌, ◌-ℤ◌, ◌*ℤ◌, ltb_ℤ}
use dentatus.Chronicle.Value.{Value, Values, int, nat, str, list, dict, nil, cons, field, end}
use dentatus.Chronicle.Canonical.{show_int}
use dentatus.Stasis.Canon.{canon_hash}
use dentatus.Syracuse.{gates}
use dentatus.VeriVerse.Noise.{hash_int, height2d}

abbrev air : ℕ
air = 0

abbrev stone : ℕ
stone = 1

abbrev dirt : ℕ
dirt = 2

abbrev grass : ℕ
grass = 3

abbrev water : ℕ
water = 4

abbrev sea_level : ℤ
sea_level = pos 14

abbrev legendary_stopping_time : ℕ
legendary_stopping_time = 120

-- the block at height y of a column whose ground ends at h
unfoldable pub block : ℤ → ℤ → ℕ
block h y =
    if ltb_ℤ y (h -ℤ pos 3)
    then stone
    else if ltb_ℤ y (h -ℤ pos 1)
    then dirt
    else if ltb_ℤ y h
    then (if not (ltb_ℤ h sea_level) then grass else dirt)
    else if ltb_ℤ y sea_level && not (ltb_ℤ y h)
    then water
    else air

-- `for i in range(i, i + n)`
unfoldable pub tabulate : {A : Type 0} → (ℕ → A) → ℕ → ℕ → List A
tabulate f i zero = []
tabulate f i (suc n) = f i ∷ tabulate f (i + 1) n

pub record Feature : Type 0 where
  pub seed_n : ℕ
  pub stopping_time : ℕ
  pub kind : String
  pub pos_x : ℕ
  pub pos_z : ℕ

pub record Chunk : Type 0 where
  pub seed : ℤ
  pub cx : ℤ
  pub cz : ℤ
  pub size : ℕ
  pub heights : List (List ℤ)
  pub surface : List (List ℤ)
  pub feature_ : Feature

abbrev row_value : List ℤ → Values
row_value [] = nil
row_value (h ∷ hs) = cons (int h) (row_value hs)

abbrev rows_value : List (List ℤ) → Values
rows_value [] = nil
rows_value (r ∷ rs) = cons (list (row_value r)) (rows_value rs)

unfoldable pub feature_value : Feature → Value
feature_value f = dict (
    field "seed_n" (nat f.seed_n) (
      field "stopping_time" (nat f.stopping_time) (
        field "kind" (str f.kind)
          (field "pos" (list (cons (nat f.pos_x) (cons (nat f.pos_z) nil))) end))))

unfoldable pub chunk_value : Chunk → Value
unfolding feature_value
chunk_value c = dict (
    field "seed" (int c.seed) (
      field "coord" (list (cons (int c.cx) (cons (int c.cz) nil))) (
        field "size" (nat c.size) (
          field "heights" (list (rows_value c.heights)) (
            field "surface" (list (rows_value c.surface))
              (field "feature" (feature_value c.feature_) end))))))

abbrev kind_of : ℕ → String
kind_of s =
    if leb legendary_stopping_time s then "legendary" else if leb 80 s then "rare" else "common"

module _ (sha256 : String → String) (digest : String → ℕ) (max_steps : ℕ) where
  -- `height2d` with the default spacing and base
  abbrev pub height : ℤ → ℤ → ℤ → ℕ → ℤ
  height seed x z height_amp = height2d digest seed x z 8 height_amp (pos 8)

  unfoldable pub column : ℤ → ℤ → ℤ → ℕ → List ℕ × ℤ
  unfolding height2d block tabulate
  column seed x z height_amp =
      let h = height seed x z height_amp in (tabulate (λ y. block h (pos y)) 0 48, h)

  abbrev pub feature_of : ℤ → ℤ → ℤ → ℕ → Option ℕ → Outcome Feature
  feature_of seed cx cz n none = err "TypeError"
  feature_of seed cx cz n (some s) = ok (record {
    seed_n = n;
    stopping_time = s;
    kind = kind_of s;
    pos_x = hash_int digest seed ("fx" ∷ show_int cx ∷ show_int cz ∷ []) % 16;
    pos_z = hash_int digest seed ("fz" ∷ show_int cx ∷ show_int cz ∷ []) % 16;
  })

  unfoldable pub feature : ℤ → ℤ → ℤ → Outcome Feature
  unfolding hash_int gates
  feature seed cx cz =
      let n = 2 + hash_int digest seed ("feat" ∷ show_int cx ∷ show_int cz ∷ []) % 100000 in
      gates sha256 n max_steps true >>= λ g. feature_of seed cx cz n g.stopping_time

  abbrev pub same_time : Option ℕ → ℕ → Bool
  same_time none t = false
  same_time (some s) t = s == t

  unfoldable pub verify_feature : Feature → Outcome (Bool × Option ℕ)
  unfolding gates
  verify_feature f = gates sha256 f.seed_n max_steps true >>= λ g.
      ok (same_time g.stopping_time f.stopping_time, g.stopping_time)

  unfoldable pub generate_chunk : ℤ → ℤ → ℤ → ℕ → ℕ → Outcome Chunk
  unfolding feature column tabulate
  generate_chunk seed cx cz size height_amp =
      let h : ℕ → ℕ → ℤ =
        λ lz lx. (column seed (cx *ℤ pos size +ℤ pos lx) (cz *ℤ pos size +ℤ pos lz) height_amp).1 in
      let top : ℕ → ℕ → ℤ =
        λ lz lx. if not (ltb_ℤ (h lz lx) sea_level) then pos grass else pos water in
      feature seed cx cz >>= λ f. ok (record {
        seed = seed;
        cx = cx;
        cz = cz;
        size = size;
        heights = tabulate (λ lz. tabulate (h lz) 0 size) 0 size;
        surface = tabulate (λ lz. tabulate (top lz) 0 size) 0 size;
        feature_ = f;
      })

  unfoldable pub chunk_hash : Chunk → Outcome String
  unfolding chunk_value
  chunk_hash c = canon_hash sha256 (chunk_value c) false
