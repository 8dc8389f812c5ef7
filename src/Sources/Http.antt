-- ===== src/Sources/Http.antt =====
-- sources/_http.py: the retry loop and the page walk. A delay is a number of milliseconds.
pub mod Retry
pub mod Pages
use job_aggregator.Prelude.{
  ◌≡◌, refl, ◌⊎◌, inl, inr, ℕ, zero, suc, ◌+◌, ◌*◌, min, String, Bool, true, false, ◌&&◌, ◌||◌,
  Option, none, some, List, [], ◌∷◌, ◌++◌, any, eqb, leb, ltb, length, holds, if◌then◌else◌,
}

-- `retry_after` is the header's number, where it is a numeral of ASCII digits.
pub record Reply : Type 0 where
  pub status_code : ℕ
  pub retry_after : Option ℕ
  pub body : String

-- What client.request gives: one of the three exceptions that are retried, another one, or a reply.
pub data Answer : Type 0 where
  unreachable crashed : String → Answer
  replied : Reply → Answer

-- A value, a SourceError, or an exception that is passed on.
pub data Outcome {ℓ} (A : Type ℓ) : Type ℓ where
  value : A → Outcome A
  source_error : String → Outcome A
  other_error : String → Outcome A

pub Outcome-cases {ℓ} :
    {A : Type ℓ} (o : Outcome A)
    → ((a : A) × (o ≡ value a))
      ⊎ ((e : String) × (o ≡ source_error e))
      ⊎ ((e : String) × (o ≡ other_error e))
Outcome-cases (value a) = inl (a, refl)
Outcome-cases (source_error e) = inr (inl (e, refl))
Outcome-cases (other_error e) = inr (inr (e, refl))

pub of_value {ℓ} : {A : Type ℓ} {a b : A} → value a ≡ value b → a ≡ b
of_value h = cc

abbrev pub retryable_status : List ℕ
retryable_status = 429 ∷ 500 ∷ 502 ∷ 503 ∷ 504 ∷ []

-- BASE_BACKOFF_S * (2**attempt)
unfoldable pub backoff : ℕ → ℕ
backoff zero = 500
backoff (suc attempt) = 2 * backoff attempt

abbrev pub max_retry_after : ℕ
max_retry_after = 30_000

unfoldable pub retry_delay : Reply → ℕ → ℕ
retry_delay resp attempt = elim (resp.retry_after) [
  | none ↦ backoff attempt
  | some seconds ↦ min (seconds * 1000) max_retry_after
]

unfoldable pub is_retryable : ℕ → Bool
is_retryable status = any (eqb status) retryable_status

-- The delay before the next attempt, for an answer that is retried.
unfoldable pub pause : Answer → ℕ → Option ℕ
unfolding is_retryable retry_delay
pause (unreachable e) attempt = some (backoff attempt)
pause (crashed e) attempt = none
pause (replied resp) attempt =
    if is_retryable resp.status_code then some (retry_delay resp attempt) else none

-- What is returned or raised for an answer after which no attempt follows.
unfoldable pub settle : Answer → Outcome Reply
settle (unreachable e) = source_error e
settle (crashed e) = other_error e
settle (replied resp) =
    if leb 200 resp.status_code && ltb resp.status_code 300
    then value resp
    else source_error "HTTP status"

-- The outcome, and the delays that were slept.
unfoldable pub attempts : (ℕ → Answer) → ℕ → ℕ → Outcome Reply × List ℕ
unfolding pause settle
attempts respond zero attempt = (settle (respond attempt), [])
attempts respond (suc left) attempt =
    let rest = attempts respond left (attempt + 1) in
    elim (pause (respond attempt) attempt) [
      | none ↦ (settle (respond attempt), [])
      | some delay ↦ (rest.0, delay ∷ rest.1)
    ]

-- `respond n` is the answer to the n-th request, counted from 0.
unfoldable pub request_with_retry : (ℕ → Answer) → ℕ → Outcome Reply × List ℕ
unfolding attempts
request_with_retry respond max_retries = attempts respond max_retries 0

-- `decode` is resp.json(), `none` a ValueError of it.
unfoldable pub get_json {ℓ} : {A : Type ℓ} → (String → Option A) → (ℕ → Answer) → ℕ → Outcome A
unfolding request_with_retry
get_json decode respond max_retries = elim ((request_with_retry respond max_retries).0) [
  | source_error e ↦ source_error e
  | other_error e ↦ other_error e
  | value resp ↦ elim (decode resp.body) [ none ↦ source_error "invalid JSON" | some a ↦ value a ]
]

unfoldable pub get_text : (ℕ → Answer) → ℕ → Outcome String
unfolding request_with_retry
get_text respond max_retries = elim ((request_with_retry respond max_retries).0) [
  | source_error e ↦ source_error e
  | other_error e ↦ other_error e
  | value resp ↦ value resp.body
]

-- The page is the last one of the API: it is empty, or shorter than a known page size.
unfoldable pub is_last {ℓ} : {A : Type ℓ} → Option ℕ → List A → Bool
is_last page_size [] = true
is_last page_size (x ∷ batch) = holds (λ n. ltb (length (x ∷ batch)) n) page_size

-- The page loop that paginate_until_empty and Unstop's _walk share, from `offset` on with `left`
-- rounds to go. A page is its items and whether it is the last one.
unfoldable pub read_pages {ℓ} :
    {A : Type ℓ} → (ℕ → Outcome (List A × Bool)) → ℕ → ℕ → List A → Outcome (List A × Bool)
read_pages fetch_page zero offset items = value (items, false)
read_pages fetch_page (suc left) offset items = elim (fetch_page offset) [
  | other_error e ↦ other_error e
  | source_error e ↦ if eqb offset 0 then source_error e else value (items, false)
  | value (batch, last) ↦
      if last
      then value (items ++ batch, true)
      else read_pages fetch_page left (offset + 1) (items ++ batch)
]

unfoldable pub flagged {ℓ} : {A : Type ℓ} → Option ℕ → Outcome (List A) → Outcome (List A × Bool)
unfolding is_last
flagged page_size (value batch) = value (batch, is_last page_size batch)
flagged page_size (source_error e) = source_error e
flagged page_size (other_error e) = other_error e

-- `fetch_page n` is the n-th page, counted from 0.
unfoldable pub paginate_until_empty {ℓ} :
    {A : Type ℓ} → (ℕ → Outcome (List A)) → ℕ → Option ℕ → Outcome (List A × Bool)
unfolding read_pages flagged
paginate_until_empty fetch_page max_pages page_size =
    read_pages (λ n. flagged page_size (fetch_page n)) max_pages 0 []
