-- ===== src/Pipeline/Dedup.antt =====
-- pipeline/dedup.py: the normal forms behind job_uid. A text is the list of its code points;
-- `ascii_fold` (NFKD without the non-ASCII bytes) and `sha256` are the Python library's.
pub mod Words
pub mod Company
pub mod Hash
use Prim.Native.Char.{code}
use Prim.Native.String
use job_aggregator.Prelude.{
  ℕ, zero, suc, ◌+◌, String, Bool, true, false, not, ◌&&◌, ◌||◌, Option, none, some, List, [], ◌∷◌,
  ◌++◌, map, any, leb, eqb, if◌then◌else◌, reverse,
}

abbrev pub Word : Type 0
Word = List ℕ

abbrev pub codes : String → List ℕ
codes String.[] = []
codes (String.◌∷◌ c s) = code c ∷ codes s

abbrev pub word_eq : Word → Word → Bool
word_eq [] [] = true
word_eq [] (d ∷ w) = false
word_eq (c ∷ v) [] = false
word_eq (c ∷ v) (d ∷ w) = eqb c d && word_eq v w

-- w in frozenset({...})
unfoldable pub is_one_of : List String → Word → Bool
is_one_of names w = any (λ n. word_eq (codes n) w) names

-- [a-z0-9]
unfoldable pub is_alnum : ℕ → Bool
is_alnum c = leb 97 c && leb c 122 || leb 48 c && leb c 57

-- str.lower on ASCII
unfoldable pub lower : ℕ → ℕ
lower c = if leb 65 c && leb c 90 then c + 32 else c

abbrev pub push : Word → List Word → List Word
push [] words = words
push (c ∷ w) words = (c ∷ w) ∷ words

-- The word that the text begins with, and the words behind it.
unfoldable pub chunk : List ℕ → Word × List Word
chunk [] = ([], [])
chunk (c ∷ text) =
    let (w, words) = chunk text in if is_alnum c then (c ∷ w, words) else ([], push w words)

-- _NON_ALNUM.sub(" ", text).split()
unfoldable pub split : List ℕ → List Word
unfolding chunk is_alnum
split text = let (w, words) = chunk text in push w words

-- " ".join(words)
unfoldable pub join : List Word → List ℕ
join [] = []
join (w ∷ []) = w
join (w ∷ (v ∷ words)) = w ++ (32 ∷ join (v ∷ words))

abbrev pub company_suffixes : List String
company_suffixes =
    "inc" ∷ "incorporated" ∷ "llc" ∷ "llp" ∷ "ltd" ∷ "limited" ∷ "pvt" ∷ "private" ∷ "plc" ∷ "corp"
    ∷ "corporation" ∷ "co" ∷ "gmbh" ∷ "ag" ∷ "sa" ∷ "srl" ∷ "bv" ∷ "group" ∷ "holdings"
    ∷ "technologies" ∷ "technology" ∷ "labs" ∷ "software" ∷ "systems" ∷ "solutions" ∷ "india"
    ∷ "global" ∷ "worldwide" ∷ []

unfoldable pub is_suffix : Word → Bool
unfolding is_one_of
is_suffix = is_one_of company_suffixes

-- while stripped and stripped[-1] in _COMPANY_SUFFIXES: stripped.pop(), on the reversed list
unfoldable pub pop_suffixes : List Word → List Word
pop_suffixes [] = []
pop_suffixes (w ∷ words) = let rest = pop_suffixes words in if is_suffix w then rest else w ∷ words

abbrev pub or_all : List Word → List Word → List Word
or_all [] toks = toks
or_all (w ∷ words) toks = w ∷ words

unfoldable pub company_words : List Word → List Word
unfolding pop_suffixes is_suffix
company_words toks = or_all (reverse (pop_suffixes (reverse toks))) toks

-- _LOCATION_ALIASES.get(t, t)
unfoldable pub canonical_place : Word → Word
unfolding is_one_of
canonical_place w =
    if is_one_of ("bangalore" ∷ "blr" ∷ []) w
    then codes "bengaluru"
    else if is_one_of ("anywhere" ∷ "worldwide" ∷ "wfh" ∷ "distributed" ∷ []) w
    then codes "remote"
    else w

module _ (ascii_fold : List ℕ → List ℕ) where
  unfoldable pub tokens : List ℕ → List Word
  unfolding split lower
  tokens text = split (map lower (ascii_fold text))

  unfoldable pub norm_company : List ℕ → List ℕ
  unfolding tokens company_words join
  norm_company name = join (company_words (tokens name))

  unfoldable pub norm_title : List ℕ → List ℕ
  unfolding tokens join
  norm_title title = join (tokens title)

  unfoldable pub norm_location : Option (List ℕ) → List ℕ
  unfolding tokens join canonical_place
  norm_location none = []
  norm_location (some loc) = join (map canonical_place (tokens loc))

  -- The text that is hashed: the three normal forms with "|" between them.
  unfoldable pub hash_key : List ℕ → List ℕ → Option (List ℕ) → List ℕ
  unfolding norm_company norm_title norm_location
  hash_key company title location =
      norm_company company ++ (124 ∷ (norm_title title ++ (124 ∷ norm_location location)))

  unfoldable pub content_hash : (List ℕ → String) → List ℕ → List ℕ → Option (List ℕ) → String
  unfolding hash_key
  content_hash sha256 company title location = sha256 (hash_key company title location)
