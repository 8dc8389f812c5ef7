-- ===== src/Pipeline/Signals.antt =====
-- pipeline/signals.py: facts that a posting states. What a compiled pattern finds in a text is the
-- `re` module's: `Patterns` has one field for each pattern, with the groups that the code reads.
use job_aggregator.Prelude.{
  ℕ, ◌-◌, String, Bool, true, false, not, ◌&&◌, ◌||◌, Option, none, some, List, [], ◌∷◌, ◌++◌, ◌==◌,
  map, filter, any, leb, ltb, is_some, if◌then◌else◌,
}
use job_aggregator.Models.Amount.{ℤ, pos}
use job_aggregator.Python.{Float, Text}

-- A match of _RANGE_RE: its span and the two figures, each with its "k".
pub record RangeMatch : Type 0 where
  pub start : ℕ
  pub stop : ℕ
  pub low : String
  pub low_k : Option String
  pub high : String
  pub high_k : Option String

pub record SingleMatch : Type 0 where
  pub start : ℕ
  pub number : String
  pub number_k : Option String

-- A match of a pattern that ends in _SPAN: groups 1 and 3.
pub record SpanMatch : Type 0 where
  pub start : ℕ
  pub quantity : String
  pub unit : String

-- A match of _YEARS_TOKEN: int(group(1)) and its end.
pub record YearsMatch : Type 0 where
  pub years : ℕ
  pub stop : ℕ

pub record Patterns : Type 0 where
  pub onsite : String → Bool
  pub hybrid : String → Bool
  pub remote : String → Bool
  pub unpaid : String → List ℕ
  pub negation_before : String → Bool
  pub ranges : String → List RangeMatch
  pub singles : String → List SingleMatch
  pub pay_word : String → Bool
  pub not_pay : String → Bool
  pub foreign_currency : String → Bool
  pub internship_durations : List (String → List SpanMatch)
  pub program_duration : String → List SpanMatch
  pub other_duration_before : String → Bool
  -- the patterns of pipeline/filters.py
  pub years_tokens : String → List YearsMatch
  pub exp_near : String → ℕ → Bool
  pub years_after : String → List ℕ

pub data WorkMode : Type 0 where
  remote remote_or_hybrid hybrid onsite : WorkMode

unfoldable pub remote_flag : Option WorkMode → Option Bool
remote_flag none = none
remote_flag (some WorkMode.remote) = some true
remote_flag (some WorkMode.remote_or_hybrid) = some true
remote_flag (some _) = some false

abbrev pub concat_map {ℓ κ} : {A : Type ℓ} {B : Type κ} → (A → List B) → List A → List B
concat_map f [] = []
concat_map f (x ∷ xs) = f x ++ concat_map f xs

abbrev pub is_nil {ℓ} : {A : Type ℓ} → List A → Bool
is_nil [] = true
is_nil (x ∷ xs) = false

module _ (text : Text) where
  open text use {lower, strip, unescape, drop_tags, one_space}

  unfoldable pub flatten : Option String → String
  flatten none = ""
  flatten (some t) = if t == "" then "" else lower (strip (one_space (unescape (drop_tags t))))

module _ (text : Text) (re : Patterns) where
  open text use {slice}

  unfoldable pub work_mode : Option String → Option WorkMode
  unfolding flatten
  work_mode t =
      let flat = flatten text t in
      let remote = re.remote flat in
      let hybrid = re.hybrid flat in
      let onsite = re.onsite flat in
      if remote && onsite
      then none
      else if remote
      then some (if hybrid then WorkMode.remote_or_hybrid else WorkMode.remote)
      else if hybrid
      then some WorkMode.hybrid
      else if onsite
      then some WorkMode.onsite
      else none

  unfoldable pub pay_anchored : String → ℕ → Bool
  pay_anchored t start =
      let before = slice t (start - 45) start in re.pay_word before && not (re.not_pay before)

  unfoldable pub states_unpaid : String → Bool
  states_unpaid t =
      any (λ start. not (re.negation_before (slice t (start - 30) start))) (re.unpaid t)

module _ {F : Type 0} (float : Float F) (text : Text) (re : Patterns) where
  open text use {slice, remove}

  -- max(a, b)
  abbrev pub max_float : F → F → F
  max_float a b = if float.leb b a then a else b

  abbrev pub max_floats : F → List F → F
  max_floats a [] = a
  max_floats a (b ∷ l) = max_floats (max_float a b) l

  unfoldable pub amount : String → Option String → F
  amount number thousands =
      let value = float.parse (remove (remove number ",") " ") in
      if is_some thousands then float.mul value (float.of_int (pos 1000)) else value

  -- Every INR figure per month behind a pay word: range tops, and single figures outside of the
  -- ranges.
  unfoldable pub stated_amounts : String → ℕ → List F
  unfolding pay_anchored amount
  stated_amounts t minimum =
      let ranges = filter (λ (m : RangeMatch). pay_anchored text re t m.start) (re.ranges t) in
      let is_single : SingleMatch → Bool = λ m.
        not (any (λ (r : RangeMatch). leb r.start m.start && ltb m.start r.stop) ranges)
        && not (re.foreign_currency (slice t (m.start - 6) m.start))
        && pay_anchored text re t m.start in
      filter (λ v. float.leb (float.of_int (pos minimum)) v)
        (map (λ (m : RangeMatch). max_float (amount m.low m.low_k) (amount m.high m.high_k)) ranges
          ++ map (λ (m : SingleMatch). amount m.number m.number_k)
              (filter is_single (re.singles t)))

  unfoldable pub says_unpaid : Option String → Bool
  unfolding flatten states_unpaid stated_amounts
  says_unpaid t =
      let flat = flatten text t in states_unpaid text re flat && is_nil (stated_amounts flat 1000)

  -- round(max(amounts)) if amounts else None; the outer `none` is an exception of round
  abbrev pub top_amount : List F → Option (Option ℤ)
  top_amount [] = some none
  top_amount (a ∷ l) = elim (float.round (max_floats a l)) [ none ↦ none | some n ↦ some (some n) ]

  unfoldable pub stated_monthly_pay_inr : Option String → Option (Option ℤ)
  unfolding flatten states_unpaid stated_amounts
  stated_monthly_pay_inr t =
      let flat = flatten text t in
      let amounts = stated_amounts flat 100 in
      if states_unpaid text re flat
        && is_nil (filter (λ a. float.leb (float.of_int (pos 1000)) a) amounts)
      then some (some (pos 0))
      else top_amount amounts

  -- _UNIT_MONTHS[unit.rstrip("s")]
  unfoldable pub unit_months : String → F
  unit_months unit =
      if unit == "week" || unit == "weeks"
      then float.div (float.of_int (pos 12)) (float.of_int (pos 52))
      else if unit == "month" || unit == "months"
      then float.of_int (pos 1)
      else float.of_int (pos 12)

  abbrev pub word_numbers : List (String × ℕ)
  word_numbers =
      ("one", 1)
      ∷ ("two", 2)
      ∷ ("three", 3)
      ∷ ("four", 4)
      ∷ ("five", 5)
      ∷ ("six", 6)
      ∷ ("seven", 7)
      ∷ ("eight", 8)
      ∷ ("nine", 9)
      ∷ ("ten", 10)
      ∷ ("eleven", 11)
      ∷ ("twelve", 12)
      ∷ []

  number_in : List (String × ℕ) → String → F
  number_in [] token = float.parse token
  number_in ((w, n) ∷ l) token = if w == token then float.of_int (pos n) else number_in l token

  unfoldable pub to_number : String → F
  unfolding number_in
  to_number = number_in word_numbers

  unfoldable pub span_months : SpanMatch → F
  unfolding to_number unit_months
  span_months m = float.mul (to_number m.quantity) (unit_months m.unit)

  unfoldable pub spans : String → List (String → List SpanMatch) → List F
  unfolding span_months
  spans t patterns =
      filter (λ v. float.leb v (float.of_int (pos 24)))
        (map span_months (
          filter
            (λ (m : SpanMatch). not (re.other_duration_before (slice t (m.start - 20) m.start)))
            (concat_map (λ (p : String → List SpanMatch). p t) patterns)))

  abbrev pub longest : List F → Option F
  longest [] = none
  longest (a ∷ l) = some (float.round_tenth (max_floats a l))

  unfoldable pub internship_months : Option String → Option F
  unfolding flatten spans
  internship_months t =
      let flat = flatten text t in
      let stated = spans flat re.internship_durations in
      longest (if is_nil stated then spans flat (re.program_duration ∷ []) else stated)
