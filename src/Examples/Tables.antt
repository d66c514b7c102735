-- ===== src/Examples/Tables.antt =====
-- The purge of voters, what the public sees, the windows of an event, and deletions.
use kw_awards_voting_platfom.Prelude.{
  ℕ, Bool, true, false, not, ◌&&◌, none, some, List, [], ◌∷◌, ◌≡◌, ◌⊎◌, refl, map, codes, ◌==◌, any,
  filter, All,
}
use kw_awards_voting_platfom.Exceptions.{ok, err, validation_error}
use kw_awards_voting_platfom.Models.Events.{Event, Category, Award, draft, event_checks, is_public}
use kw_awards_voting_platfom.Models.Voting.{Voter, Challenge}
use kw_awards_voting_platfom.Models.State.{World, anonymous}
use kw_awards_voting_platfom.Events.Transitions.{IsConsistent}
use kw_awards_voting_platfom.Nominations.{event_of_award}
use kw_awards_voting_platfom.Voting.Purge.{
  is_candidate, has_audit_entries, Counts, dry_run, executed, handle,
}
use kw_awards_voting_platfom.Voting.Purge.Command.{handle-deletes, handle-dry_run}
use kw_awards_voting_platfom.Events.Views.{
  GivenWindows, merge_windows, validate, not_draft, event_of_category, event_queryset,
  category_queryset, award_queryset, get_categories, is_event_admin,
}
use kw_awards_voting_platfom.Events.Views.Validation.{
  windows_of, with_windows, validate-event_checks,
}
use kw_awards_voting_platfom.Events.Views.Public.{querysets-public}
use kw_awards_voting_platfom.Events.Deletion.Links.{IsLinked}
use kw_awards_voting_platfom.Events.Deletion.Outcomes.{
  category, destroyed, perform_destroy-IsLinked,
}
use kw_awards_voting_platfom.Models.Nominations.{Nominee, Nomination}
use kw_awards_voting_platfom.Nominations.{is_shown}
use kw_awards_voting_platfom.Nominations.Views.{
  is_moderator, nomination_queryset, get_nomination, award_nominations, nominee_profile,
}
use kw_awards_voting_platfom.Nominations.Views.Shown.{Shows, IsProfile, views-is_shown}
use kw_awards_voting_platfom.Nominations.Serializers.{nomination_list}
use kw_awards_voting_platfom.Nominations.Serializers.Private.{scrubbed, nomination_list-scrubbed}
use kw_awards_voting_platfom.Models.Accounts.{User}
use kw_awards_voting_platfom.Examples.Data.{singer, env, gala, amina, world}

-- Amina never verified a code, and has a challenge; another voter did.
abbrev old_world : World
old_world = record world {
  db = record world.db {
    voters =
        amina
        ∷ record amina { id = 8; phone_e164 = codes "+254700000000"; verified_at = some 4 }
        ∷ [];
    challenges =
        record {
          id = 61;
          voter = 7;
          code_hash = [];
          expires_at = 10;
          attempts = 0;
          consumed_at = none;
          requested_ip = none;
          user_agent = [];
          created_at = 3;
        }
        ∷ [];
  };
}

abbrev week : ℕ
week = 604800000000

abbrev goes_away : Voter → Bool
goes_away v = is_candidate old_world.db week 48 v && not (has_audit_entries old_world.db v.id)

handle-deletes_example : (handle week 48 true old_world).1 ≡ record old_world {
  db = record old_world.db {
    voters = filter (λ v. not (goes_away v)) old_world.db.voters;
    challenges =
        filter
          (λ (c : Challenge).
            any
              (λ (v : Voter). v.id == c.voter)
              (filter (λ v. not (goes_away v)) old_world.db.voters))
          old_world.db.challenges;
  };
}
handle-deletes_example = handle-deletes week 48 old_world (refl, (refl, tt)) (refl, tt)

handle-dry_run_example :
    (counts : Counts) × (w' : World) × (handle week 48 true old_world ≡ (executed counts, w'))
    × (handle week 48 false old_world
        ≡ (dry_run counts.deleted counts.skipped_protected, old_world))
handle-dry_run_example = handle-dry_run week 48 old_world (refl, (refl, tt))

consistent : IsConsistent gala
unfolding event_checks
consistent = record { checks = refl; published = refl }

-- A request that moves the end of the voting before its start.
abbrev early_close : GivenWindows
early_close = record {
  nominations_open_at = none;
  nominations_close_at = none;
  voting_opens_at = none;
  voting_closes_at = some (some 5);
}

validate-event_checks_example :
    ((validate early_close (windows_of gala) ≡ ok (merge_windows early_close (windows_of gala)))
      × IsConsistent (with_windows (merge_windows early_close (windows_of gala)) gala))
    ⊎ ((validate early_close (windows_of gala) ≡ err validation_error)
        × (event_checks (with_windows (merge_windows early_close (windows_of gala)) gala) ≡ false))
validate-event_checks_example = validate-event_checks early_close gala consistent

-- The gala beside an event that is still a draft.
abbrev two_events : World
two_events = record world {
  db = record world.db {
    events = record gala { id = 2; slug = codes "next"; status = draft } ∷ gala ∷ [];
  };
}

no_admin : is_event_admin two_events.db anonymous ≡ false
unfolding is_event_admin kw_awards_voting_platfom.Access.principal_has_role
no_admin = refl

querysets-public_example :
    All (λ (e : Event). is_public e ≡ true) (event_queryset two_events.db anonymous)
    × All
        (λ (c : Category). not_draft (event_of_category two_events.db c) ≡ true)
        (category_queryset two_events.db anonymous)
    × All
        (λ (a : Award). (a.is_active ≡ true) × (not_draft (event_of_award two_events.db a) ≡ true))
        (award_queryset two_events.db anonymous)
    × ((e : Event)
        → All
            (λ (item : Category × List Award). All (λ (a : Award). a.is_active ≡ true) item.1)
            (get_categories two_events.db anonymous e))
querysets-public_example = querysets-public two_events.db anonymous no_admin

-- The user who reviewed the nominations.
abbrev reviewer : User
reviewer = record {
  id = 1;
  email = codes "m@kw.org";
  is_active = true;
  is_staff = true;
  is_superuser = false;
  groups = [];
}

-- The old vote is for a nomination of the gala. Without the vote its category can be deleted.
abbrev unvoted : World
unvoted = record world {
  db = record world.db {
    votes = [];
    users = reviewer ∷ [];
    nominees = singer 1 (codes "Bob") ∷ singer 2 (codes "Ann") ∷ singer 3 (codes "Cid") ∷ [];
  };
}

linked : IsLinked unvoted.db
linked = record {
  categories = (refl, tt);
  awards = (refl, tt);
  nominees = (refl, (refl, (refl, tt)));
  nominations = (refl, (refl, (refl, tt)));
  people = ((refl, refl), ((refl, refl), ((refl, refl), tt)));
  votes = tt;
  origins = tt;
  payments = tt;
  payers = tt;
  challenges = tt;
  actors = tt;
}

perform_destroy-IsLinked_example :
    let w = destroyed (category 1) unvoted in
    IsLinked w.db
    × (w.db.votes ≡ [])
    × (w.db.payments ≡ [])
    × (w.db.audit_log ≡ [])
    × (w.db.users ≡ unvoted.db.users)
    × (w.db.nominees ≡ unvoted.db.nominees)
    × (w.db.voters ≡ unvoted.db.voters)
    × (w.db.challenges ≡ [])
perform_destroy-IsLinked_example = perform_destroy-IsLinked (category 1) unvoted linked

no_moderator : is_moderator world.db anonymous ≡ false
unfolding is_moderator kw_awards_voting_platfom.Access.principal_has_role
no_moderator = refl

views-is_shown_example :
    All (λ n. is_shown world.db n ≡ true) (nomination_queryset env world.db anonymous)
    × ((p : Nomination → Bool)
        → any p (nomination_queryset env world.db anonymous)
          ≡ any (λ n. is_shown world.db n && p n) world.db.nominations)
    × ((pk : ℕ)
        → Shows
            (λ n. (is_shown world.db n ≡ true) × (n.id ≡ pk))
            (get_nomination env anonymous pk world).0)
    × ((id : ℕ)
        → Shows
            (All (λ n. (is_shown world.db n ≡ true) × (n.award ≡ id)))
            (award_nominations env id world).0)
    × ((pk : ℕ) → Shows (IsProfile env world pk) (nominee_profile env pk world).0)
views-is_shown_example = views-is_shown env world anonymous no_moderator

-- The gala with a contact for Bob, and a reason that nobody should read.
abbrev with_secrets : World
with_secrets = record world {
  db = record world.db {
    nominees =
        map (λ (n : Nominee). record n { contact_phone = codes "+254712345678" }) world.db.nominees;
    nominations =
        map (λ (n : Nomination). record n { rejection_reason = codes "Private" })
          world.db.nominations;
  };
}

only_secrets : scrubbed world.db ≡ scrubbed with_secrets.db
unfolding scrubbed
only_secrets = refl

nomination_list-scrubbed_example :
    nomination_list env world.db anonymous ≡ nomination_list env with_secrets.db anonymous
nomination_list-scrubbed_example =
    nomination_list-scrubbed env world.db with_secrets.db anonymous only_secrets no_moderator
