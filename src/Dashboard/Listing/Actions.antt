-- ===== src/Dashboard/Listing/Actions.antt =====
-- The action on a card against set_user_flag.
use job_aggregator.Prelude.{
  String, Bool, true, false, Option, none, some, List, ◌==◌, ◌≡◌, refl, ap, is_some, ltb,
  Option-cases, inl, inr, ◌∙◌, sym,
}
use text.Mathlib.TextPositions.{eq_refl}
use job_aggregator.Storage.{Row, find, update}
use job_aggregator.Storage.Flags.{flag, field_of, set_field, set_user_flag}
use job_aggregator.Storage.Flags.Laws.{rowcount-own}
use job_aggregator.Storage.Table.{rowcount, find-update_own, map_found}
use job_aggregator.Dashboard.Listing.{
  Action, apply, unapply, bookmark, unbookmark, hide, unhide, seen, unseen, act, job_action,
}

-- The column and the value of an action.
abbrev pub action_field : Action → String
action_field apply = "applied"
action_field unapply = "applied"
action_field bookmark = "bookmarked"
action_field unbookmark = "bookmarked"
action_field hide = "hidden"
action_field unhide = "hidden"
action_field seen = "seen"
action_field unseen = "seen"

abbrev pub action_value : Action → Bool
action_value apply = true
action_value unapply = false
action_value bookmark = true
action_value unbookmark = false
action_value hide = true
action_value unhide = false
action_value seen = true
action_value unseen = false

job_uid-act : (action : Action) (r : Row) → (act action r).job_uid ≡ r.job_uid
unfolding act
job_uid-act apply r = refl
job_uid-act _ r = refl

update-act :
    (action : Action) (uid : String) (rows : List Row)
    → set_user_flag rows uid (action_field action) (flag (action_value action))
      ≡ some (
        update (λ r. r.job_uid == uid) (act action) rows,
        ltb 0 (rowcount (λ r. r.job_uid == uid) rows),
      )
unfolding set_user_flag field_of set_field act
update-act apply uid rows = refl
update-act _ uid rows = refl

is_some-map_found : (f : Row → Row) (o : Option Row) → is_some (map_found f o) ≡ is_some o
is_some-map_found f none = refl
is_some-map_found f (some r) = refl

job_action-card :
    (rows : List Row) (uid : String) (action : Action)
    → (job_action rows uid action).1 ≡ map_found (act action) (find uid rows)
unfolding job_action
job_action-card rows uid action =
    let own = rowcount-own uid rows in
    let after = find-update_own (act action) (job_uid-act action) uid uid rows in
    let self : (uid == uid) ≡ true = eq_refl uid in
    elim (Option-cases (find uid rows)) [
      | inl e ↦
          let missing : ltb 0 (rowcount (λ r. r.job_uid == uid) rows) ≡ false =
            own ∙ ap is_some e in
          rw (missing, e, job_action) refl
      | inr (r, e) ↦
          let there : ltb 0 (rowcount (λ r. r.job_uid == uid) rows) ≡ true = own ∙ ap is_some e in
          rw (there, after, self, job_action) refl
    ]

-- An action on a card leaves the table that set_user_flag leaves for its column and value. It
-- answers with the row of that job_uid as it is afterwards when there is one, and
-- with the error exactly when set_user_flag reports that there is none.
pub job_action-eq-set_user_flag :
    (rows : List Row) (uid : String) (action : Action)
    → (set_user_flag rows uid (action_field action) (flag (action_value action))
        ≡ some ((job_action rows uid action).0, is_some (job_action rows uid action).1))
      × ((job_action rows uid action).1 ≡ map_found (act action) (find uid rows))
unfolding job_action
job_action-eq-set_user_flag rows uid action =
    let card = job_action-card rows uid action in
    let found : ltb 0 (rowcount (λ r. r.job_uid == uid) rows)
        ≡ is_some (job_action rows uid action).1 =
      rowcount-own uid rows
      ∙ sym (ap is_some card ∙ is_some-map_found (act action) (find uid rows)) in
    (
      update-act action uid rows
          ∙ ap (λ b. some (update (λ r. r.job_uid == uid) (act action) rows, b)) found,
      card,
    )
