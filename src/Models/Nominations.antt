-- ===== src/Models/Nominations.antt =====
-- nominations/models.py: nominees and nominations, with the constraints of their tables.
use kw_awards_voting_platfom.Prelude.{
  ℕ, Bool, true, false, ◌&&◌, ◌||◌, not, Option, Text, ◌==◌, is_some, is_empty,
}

pub record Nominee : Type 0 where
  pub id : ℕ
  pub name : Text
  pub stage_name : Text
  pub bio : Text
  pub photo : Text
  pub contact_phone : Text
  pub contact_email : Text
  pub owner : Option ℕ

pub data NominationStatus : Type 0 where
  pending approved rejected withdrawn : NominationStatus

abbrev pub nstatus_eq : NominationStatus → NominationStatus → Bool
nstatus_eq pending pending = true
nstatus_eq approved approved = true
nstatus_eq rejected rejected = true
nstatus_eq withdrawn withdrawn = true
nstatus_eq _ _ = false

pub record Nomination : Type 0 where
  pub id : ℕ
  pub nominee : ℕ
  pub award : ℕ
  pub status : NominationStatus
  pub submitted_by_ip : Option Text
  pub reviewed_by : Option ℕ
  pub reviewed_at : Option ℕ
  pub rejection_reason : Text

-- `nomination_rejected_has_reason` and `nomination_reviewed_has_timestamp`
unfoldable pub nomination_checks : Nomination → Bool
nomination_checks n =
    (not (nstatus_eq n.status rejected) || not (is_empty n.rejection_reason))
    && ((nstatus_eq n.status pending || nstatus_eq n.status withdrawn) || is_some n.reviewed_at)

-- Two rows that the primary key or `nomination_nominee_award_unique` does not let stand together.
abbrev pub nomination_clash : Nomination → Nomination → Bool
nomination_clash a b = a.id == b.id || (a.nominee == b.nominee && a.award == b.award)
