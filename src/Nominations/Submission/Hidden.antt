-- ===== src/Nominations/Submission/Hidden.antt =====
-- A submission is not public until it is approved.
use kw_awards_voting_platfom.Prelude.{
  Bool, true, false, ◌&&◌, none, some, ℕ, find?, find?-sound, ◌∷◌, Text, ◌≡◌, refl, ap, ◌∙◌, ◌⊎◌,
  inl, inr, arith, any, ◌==◌, is_empty, Bool-cases, Option-cases,
}
use kw_awards_voting_platfom.Exceptions.{
  Exc, ok, err, integrity, unique, api, captcha_failed, nominations_closed, duplicate_nomination,
  validation_error,
}
use kw_awards_voting_platfom.Exec.{settle}
use kw_awards_voting_platfom.Models.Events.{Event, Award, is_public, nominations_are_open}
use kw_awards_voting_platfom.Models.Nominations.{
  Nominee, Nomination, pending, nomination_checks, nomination_clash,
}
use kw_awards_voting_platfom.Models.State.{Db, World, Env, Request}
use kw_awards_voting_platfom.Models.Audit.{AuditLog}
use kw_awards_voting_platfom.Audit.{entry_row, has_forbidden, is_forbidden, add_entry}
use kw_awards_voting_platfom.Audit.Laws.{log_clean}
use kw_awards_voting_platfom.Phone.{PhoneNumbers}
use kw_awards_voting_platfom.CleanText.{clean_text}
use kw_awards_voting_platfom.Events.{find_award, find_category, find_event}
use kw_awards_voting_platfom.Nominations.{
  is_shown, award_and_event, event_of_award, public_nominations,
}
use kw_awards_voting_platfom.Nominations.Submission.{
  submission_entry, Form, validate_award, validate_contact_phone, is_duplicate, new_nominee,
  new_nomination, insert_nominee, insert_nomination, create_nomination, submit_nomination,
}

submission_clean : (r : Request) (a : Award) → has_forbidden (submission_entry r a).metadata ≡ false
unfolding has_forbidden is_forbidden
submission_clean r a = refl

new_checks :
    (env : Env) (r : Request) (a : Award) → nomination_checks (new_nomination env r a) ≡ true
unfolding nomination_checks new_nomination
new_checks env r a = refl

created-cases :
    (env : Env) (r : Request) (f : Form) (phone : Text) (a : Award) (w : World)
    → ((e : Exc) × (settle w.db (create_nomination env r f phone a w) ≡ (err e, w)))
      ⊎ ((row : AuditLog) × (settle w.db (create_nomination env r f phone a w) ≡ (
        ok (new_nomination env r a),
        add_entry row (record w {
          db = record w.db {
            nominees = new_nominee env r f phone ∷ w.db.nominees;
            nominations = new_nomination env r a ∷ w.db.nominations;
          };
        }),
      )))
unfolding create_nomination insert_nominee insert_nomination new_nominee
created-cases env r f phone a w =
    let w' = record w {
      db = record w.db {
        nominees = new_nominee env r f phone ∷ w.db.nominees;
        nominations = new_nomination env r a ∷ w.db.nominations;
      };
    } in
    let logs = log_clean env r.now (some r) (submission_entry r a) w' (submission_clean r a) in
    elim (Bool-cases (any (λ (x : Nominee). x.id == r.uuid) w.db.nominees)) [
      | inl taken ↦ inl (integrity unique, ground (arith, taken))
      | inr fresh ↦
          elim (Bool-cases (any (nomination_clash (new_nomination env r a)) w.db.nominations)) [
            | inl clash ↦ inl (integrity unique, ground (arith, fresh, clash, new_checks env r a))
            | inr apart ↦ inr (
              entry_row env r.now (some r) (submission_entry r a),
              ground (arith, fresh, apart, new_checks env r a),
            )
          ]
    ]

-- The world after a submission.
submitted : Env → Request → Form → Text → Award → AuditLog → World → World
submitted env r f phone a row w = add_entry row (record w {
  db = record w.db {
    nominees = new_nominee env r f phone ∷ w.db.nominees;
    nominations = new_nomination env r a ∷ w.db.nominations;
  };
})

hidden :
    (env : Env) (r : Request) (f : Form) (phone : Text) (a : Award) (row : AuditLog) (w : World)
    → public_nominations (submitted env r f phone a row w).db ≡ public_nominations w.db
unfolding submitted add_entry public_nominations is_shown award_and_event find_award event_of_award
    find_category find_event new_nomination
hidden env r f phone a row w = refl

one_more :
    (env : Env) (r : Request) (f : Form) (phone : Text) (a : Award) (row : AuditLog) (w : World)
    → (submitted env r f phone a row w).db.nominations ≡ new_nomination env r a ∷ w.db.nominations
unfolding submitted add_entry
one_more env r f phone a row w = refl

one_more_nominee :
    (env : Env) (r : Request) (f : Form) (phone : Text) (a : Award) (row : AuditLog) (w : World)
    → (submitted env r f phone a row w).db.nominees ≡ new_nominee env r f phone ∷ w.db.nominees
unfolding submitted add_entry
one_more_nominee env r f phone a row w = refl

-- A pending nomination of a new nominee for the award of the form, with what the form says.
pub record IsSubmission (env : Env) (r : Request) (f : Form) (phone : Text) (n : Nomination)
    (x : Nominee) : Type 0 where
  pub for_award : n.award ≡ f.award
  pub for_nominee : n.nominee ≡ x.id
  pub new_rows : (n.id ≡ r.second_uuid) × (x.id ≡ r.uuid)
  pub waits : n.status ≡ pending
  pub unreviewed : (n.reviewed_by ≡ none) × (n.reviewed_at ≡ none)
  pub named : x.name ≡ clean_text env false f.name
  pub contact : (x.contact_phone ≡ phone) × (x.contact_email ≡ f.contact_email)
  pub unowned : x.owner ≡ none

validate_award-id :
    (db : Db) (id : ℕ) (a : Award) (e : Event) → validate_award db id ≡ some (a, e) → a.id ≡ id
unfolding validate_award find_award
validate_award-id db id a e h = elim (Option-cases (find? (λ (x : Award). x.id == id) db.awards)) [
  | inl absent ↦ absurd (ground arith)
  | inr (b, found) ↦
      let same = find?-sound (λ (x : Award). x.id == id) db.awards b found in
      elim (Option-cases (event_of_award db b)) [
        | inl absent ↦ absurd (ground arith)
        | inr (x, there) ↦ elim (Bool-cases (b.is_active && is_public x)) [
          | inl shown ↦ ground arith
          | inr hides ↦ absurd (ground arith)
        ]
      ]
]

new-IsSubmission :
    (env : Env) (r : Request) (f : Form) (phone : Text) (a : Award)
    → a.id ≡ f.award
    → IsSubmission env r f phone (new_nomination env r a) (new_nominee env r f phone)
unfolding new_nomination new_nominee
new-IsSubmission env r f phone a asked_for = record {
  for_award = asked_for;
  for_nominee = refl;
  new_rows = (refl, refl);
  waits = refl;
  unreviewed = (refl, refl);
  named = refl;
  contact = (refl, refl);
  unowned = refl;
}

-- A submission that is refused changes nothing. One that is accepted passed the CAPTCHA, is for an
-- active award of a public event whose nominations are open, has a contact and is no duplicate. It adds
-- one nominee, with the name and the contacts of the form, and one pending nomination of that nominee for
-- the award of the form; and what the public sees of the nominations stays the same.
pub submit_nomination-cases :
    (env : Env) (lib : PhoneNumbers) (r : Request) (captcha : Bool) (f : Form) (w : World)
    → let (x, w') = submit_nomination env lib r captcha f w in
      ((e : Exc) × (x ≡ err e) × (w' ≡ w))
      ⊎ ((a : Award) × (e : Event) × (phone : Text) × (n : Nomination) × (y : Nominee) × (captcha
            ≡ true)
          × (validate_award w.db f.award ≡ some (a, e))
          × (nominations_are_open e r.now ≡ true)
          × ((is_empty f.contact_email && is_empty phone) ≡ false)
          × (is_duplicate env w.db a.id (clean_text env false f.name) ≡ false)
          × (validate_contact_phone lib f.contact_phone ≡ some phone)
          × IsSubmission env r f phone n y
          × (x ≡ ok n)
          × (w'.db.nominations ≡ n ∷ w.db.nominations)
          × (w'.db.nominees ≡ y ∷ w.db.nominees)
          × (public_nominations w'.db ≡ public_nominations w.db))
unfolding submit_nomination
submit_nomination-cases env lib r captcha f w = elim (Bool-cases captcha) [
  | inr failed ↦ inl (api captcha_failed, ground arith, ground arith)
  | inl passed ↦ elim (Option-cases (validate_award w.db f.award)) [
    | inl unknown ↦ inl (validation_error, ground arith, ground arith)
    | inr ((a, e), found) ↦ elim (Option-cases (validate_contact_phone lib f.contact_phone)) [
      | inl invalid ↦ inl (validation_error, ground arith, ground arith)
      | inr (phone, valid) ↦ elim (Bool-cases (is_empty (clean_text env false f.name))) [
        | inl blank ↦ inl (validation_error, ground arith, ground arith)
        | inr filled ↦ elim (Bool-cases (nominations_are_open e r.now)) [
          | inr shut ↦ inl (api nominations_closed, ground arith, ground arith)
          | inl is_open ↦ elim (Bool-cases (is_empty f.contact_email && is_empty phone)) [
            | inl unreachable ↦ inl (validation_error, ground arith, ground arith)
            | inr reachable ↦
                elim (Bool-cases (is_duplicate env w.db a.id (clean_text env false f.name))) [
                  | inl duplicate ↦ inl (api duplicate_nomination, ground arith, ground arith)
                  | inr new ↦ elim (created-cases env r f phone a w) [
                    | inl (x, kept) ↦ inl (x, ground arith, ground arith)
                    | inr (row, added) ↦
                        let whole : submit_nomination env lib r captcha f w
                            ≡ settle w.db (create_nomination env r f phone a w) =
                          ground arith in
                        let result : submit_nomination env lib r captcha f w
                            ≡ (ok (new_nomination env r a), submitted env r f phone a row w) =
                          whole ∙ (unfold submitted in added) in
                        inr (
                          a,
                          e,
                          phone,
                          new_nomination env r a,
                          new_nominee env r f phone,
                          passed,
                          found,
                          is_open,
                          reachable,
                          new,
                          valid,
                          new-IsSubmission env r f phone a
                              (validate_award-id w.db f.award a e found),
                          ap (λ y. y.0) result,
                          ap (λ y. y.1.db.nominations) result ∙ one_more env r f phone a row w,
                          ap (λ y. y.1.db.nominees) result ∙ one_more_nominee env r f phone a row w,
                          ap (λ y. public_nominations y.1.db) result ∙ hidden env r f phone a row w,
                        )
                  ]
                ]
          ]
        ]
      ]
    ]
  ]
]
