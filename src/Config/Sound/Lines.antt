-- ===== src/Config/Sound/Lines.antt =====
-- The lines of a configuration file keep every batch in its ranges.
use curl_loader.Base.{
  ℕ, ◌+◌, ◌≡◌, ◌⊎◌, inl, inr, refl, Bool, true, false, Option, none, some, List, [], ◌∷◌, Run, ok,
  fault, ◌>>=◌, leb, ◌==◌, if◌then◌else◌, if_none, if_some, IfSome-value,
}
use curl_loader.Config.Chars.{Text, split_at}
use curl_loader.Config.Parsing.{Platform}
use curl_loader.Config.Files.{
  Parser, Batches, index_at, tp_map, find_tag_parser, until_ws, pre_parser, unquote, eat_ws,
  run_parser, add_param_to_batch, read_line, read_lines,
}
use curl_loader.Config.Sound.{
  IsConfig, Outcome, returns, faults, Outcome-branch, Outcome-option, Outcome-explain, Outcome-bind,
  Hazard, Sound,
}
use curl_loader.Config.Sound.Kinds.{kind_of, AreSound, tp_map-AreSound, find_parser-Sound}

-- The value of a line, as a parser gets it
abbrev pub value_of : Text → Option Text
value_of line = elim (split_at b'=' line).1 [
  | none ↦ none
  | some text ↦ elim (pre_parser text) [ none ↦ none | some value ↦ unquote value ]
]

-- Every batch is in its ranges.
abbrev pub AreConfigs : Batches → Type 0
AreConfigs batches = (i : ℕ) → IsConfig (batches.bctx_array i)

-- The tag of a line
abbrev pub tag_of : Text → Text
tag_of line = until_ws (split_at b'=' line).0

-- Why a line may fault: its tag begins no batch and none has begun, or its parser faults on the value
-- and the batch in work, the next one where the tag begins a batch.
pub data LineHazard (granted : ℕ → Bool) (line : Text) (batches : Batches) : Type 0 where
  no_batch : index_at (tag_of line) batches.batch_index ≡ none → LineHazard granted line batches
  in_batch :
      (i : ℕ) (value : Text)
      → index_at (tag_of line) batches.batch_index ≡ some i
      → value_of line ≡ some value
      → Hazard granted (kind_of (tag_of line)) (batches.bctx_array i) value
      → LineHazard granted line batches

if_both {ℓ κ} :
    {A : Type ℓ} (P : A → Type κ) (b : Bool) {x y : A} → P x → P y → P (if b then x else y)
if_both P true p q = p
if_both P false p q = q

Outcome-caught {κ} :
    {A : Type 0} {P : A → Type κ} {Q : Type 0} {m : Run (Option A)}
    → Outcome P Q m
    → Outcome P ((m ≡ fault) × Q) m
Outcome-caught (returns p) = returns p
Outcome-caught (faults q) = faults (refl, q)

-- Outcome-bind, where what follows also knows the result
Outcome-then {ℓ κ κ'} :
    {A : Type ℓ} {B : Type κ} {P : A → Type κ'} {R : B → Type κ'} {Q : Type 0} {m : Run (Option A)}
    {k : A → Run (Option B)}
    → Outcome P Q m
    → ((a : A) → m ≡ ok (some a) → P a → Outcome R Q (k a))
    → Outcome R Q (m >>= λ o. elim o [ none ↦ ok none | some a ↦ k a ])
Outcome-then (returns if_none) next = returns if_none
Outcome-then (returns (if_some p)) next = next _ refl p
Outcome-then (faults q) next = faults q

module _ (platform : Platform) (rest : List (Text × Parser)) where
  run_parser-AreConfigs :
      (line : Text) (parser : Parser) (value : Text) (batches : Batches)
      → Sound platform.granted (kind_of (tag_of line)) parser
      → value_of line ≡ some value
      → AreConfigs batches
      → Outcome AreConfigs
          (LineHazard platform.granted line batches)
          (run_parser platform rest parser (tag_of line) value batches)
  unfolding run_parser
  run_parser-AreConfigs line parser value batches sound from c =
      Outcome-option (index_at (tag_of line) batches.batch_index) (λ e. faults (no_batch e))
        λ i at.
          Outcome-bind
            (Outcome-explain (sound (batches.bctx_array i) value (c i)) (in_batch i value at from))
            λ b kept. returns (if_some λ j. if_both IsConfig (i == j) kept (c j))

  pub add_param_to_batch-AreConfigs :
      (line : Text) (batches : Batches)
      → AreSound platform.granted rest
      → AreConfigs batches
      → Outcome AreConfigs
          (LineHazard platform.granted line batches)
          (add_param_to_batch platform rest line batches)
  unfolding add_param_to_batch
  add_param_to_batch-AreConfigs line batches sound c =
      let tag = until_ws (split_at b'=' line).0 in
      Outcome-option (split_at b'=' line).1 (λ _. returns if_none)
        λ text e.
          Outcome-option (find_tag_parser platform rest tag) (λ _. returns if_none)
            λ parser found.
              Outcome-option (pre_parser text) (λ _. returns if_none)
                λ value f.
                  Outcome-option (unquote value) (λ _. returns (if_some c))
                    λ v g.
                      run_parser-AreConfigs line parser v batches
                        (IfSome-value
                          (find_parser-Sound platform rest (tp_map platform rest) tag
                            (tp_map-AreSound platform rest sound))
                          found)
                        (rw (e, value_of) (rw f g)) c

  read_line-AreConfigs :
      (size : ℕ) (line : Text) (batches : Batches)
      → AreSound platform.granted rest
      → AreConfigs batches
      → Outcome AreConfigs
          (LineHazard platform.granted line batches)
          (read_line platform rest size line batches)
  unfolding read_line
  read_line-AreConfigs size line batches sound c =
      Outcome-option (eat_ws line) (λ _. returns (if_some c))
        λ start _.
          Outcome-branch (leb size (elim batches.batch_index [ none ↦ 0 | some i ↦ i + 1 ]))
            (λ _. returns if_none)
            λ _.
              Outcome-branch (elim line [ [] ↦ false | c ∷ s ↦ c == b'#' ])
                (λ _. returns (if_some c)) (λ _. add_param_to_batch-AreConfigs line batches sound c)

  -- The loop over the lines comes to one that faults: the first that does not end, with the batches
  -- that the lines before it leave.
  abbrev pub FileHazard : ℕ → List Text → Batches → Type 0
  FileHazard size [] batches = ⊥
  FileHazard size (line ∷ lines) batches =
      ((read_line platform rest size line batches ≡ fault)
        × AreConfigs batches
        × LineHazard platform.granted line batches)
      ⊎ ((batches' : Batches) × (read_line platform rest size line batches ≡ ok (some batches'))
          × FileHazard size lines batches')

  pub read_lines-AreConfigs :
      (size : ℕ) (lines : List Text) (batches : Batches)
      → AreSound platform.granted rest
      → AreConfigs batches
      → Outcome AreConfigs
          (FileHazard size lines batches)
          (read_lines platform rest size lines batches)
  unfolding read_lines
  read_lines-AreConfigs size [] batches sound c = returns (if_some c)
  read_lines-AreConfigs size (line ∷ lines) batches sound c =
      Outcome-then
        (Outcome-explain (Outcome-caught (read_line-AreConfigs size line batches sound c))
          (λ (e, hazard). inl (e, c, hazard)))
        λ batches' e c'.
          Outcome-explain (read_lines-AreConfigs size lines batches' sound c')
            (λ later. inr (batches', e, later))
