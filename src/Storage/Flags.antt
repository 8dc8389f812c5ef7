-- ===== src/Storage/Flags.antt =====
-- set_user_flag of storage/jobs_repo.py. A value is what the callers pass: None, a bool or a text.
pub mod Laws
use job_aggregator.Prelude.{
  String, Bool, true, false, not, Option, none, some, List, [], ◌∷◌, ◌==◌, ◌<◌, ltb, if◌then◌else◌,
}
use job_aggregator.Storage.{Row, update}
use job_aggregator.Storage.Table.{rowcount}

pub data UserField : Type 0 where
  applied bookmarked hidden seen notes extra_context full_description : UserField

pub data Value : Type 0 where
  null : Value
  flag : Bool → Value
  plain : String → Value

-- _USER_FLAG_FIELDS: the column of a field name, `none` for a name outside of the whitelist.
unfoldable pub field_of : String → Option UserField
field_of name =
    if "applied" == name
    then some applied
    else if "bookmarked" == name
    then some bookmarked
    else if "hidden" == name
    then some hidden
    else if "seen" == name
    then some seen
    else if "notes" == name
    then some notes
    else if "extra_context" == name
    then some extra_context
    else if "full_description" == name
    then some full_description
    else none

-- bool(value)
unfoldable pub truth : Value → Bool
truth null = false
truth (flag b) = b
truth (plain t) = not (t == "")

-- None if value is None else str(value)
unfoldable pub as_text : Value → Option String
as_text null = none
as_text (flag b) = some (if b then "True" else "False")
as_text (plain t) = some t

-- SET field = ?
unfoldable pub set_field : UserField → Value → Row → Row
unfolding truth as_text
set_field applied v r = record r { applied = truth v }
set_field bookmarked v r = record r { bookmarked = truth v }
set_field hidden v r = record r { hidden = truth v }
set_field seen v r = record r { seen = truth v }
set_field notes v r = record r { notes = as_text v }
set_field extra_context v r = record r { extra_context = as_text v }
set_field full_description v r = record r { full_description = as_text v }

-- `none` is the ValueError; the Bool says whether a row had the job_uid.
unfoldable pub set_user_flag : List Row → String → String → Value → Option (List Row × Bool)
set_user_flag rows uid name v = elim (field_of name) [
  | none ↦ none
  | some field ↦
      let own : Row → Bool = λ r. r.job_uid == uid in
      some (update own (set_field field v) rows, ltb 0 (rowcount own rows))
]
