-- ===== src/Voting/Purge/Command.antt =====
-- The command as a whole: what it deletes, and that its dry run says so.
use kw_awards_voting_platfom.Prelude.{
  ℕ, ◌-◌, Bool, true, false, ◌&&◌, not, List, ◌≡◌, refl, ap, sym, ◌∙◌, ◌==◌, leb, any, filter,
  filter_cong, All, All-map, All-zip, any-filter_key, count_where, count_where_cong, length, arith,
}
use kw_awards_voting_platfom.Prelude.Sorting.{
  Distinct, Distinct-sort_by, any-sort_by, All-sort_by, count_where-sort_by,
}
use kw_awards_voting_platfom.Models.Voting.{Voter, Challenge}
use kw_awards_voting_platfom.Models.State.{Db, World}
use kw_awards_voting_platfom.Voting.Voters.{Apart}
use kw_awards_voting_platfom.Voting.Purge.{
  is_candidate, candidate_ids, is_protected, has_audit_entries, delete_all, Counts, no_counts,
  dry_run, executed, count_protected, handle,
}
use kw_awards_voting_platfom.Voting.Purge.Deletions.{goes, purged, delete_all-purged}
use kw_awards_voting_platfom.Voting.Purge.Reporting.{
  is_there, ids_of, delete_all-counts, Distinct-ids_of, member-ids_of, there-ids_of, count-ids_of,
  all_there, count_where-not,
}

module _ (db : Db) (now hours : ℕ) (apart : Apart db.voters) where
  abbrev candidates : List ℕ
  candidates = candidate_ids db now hours

  Distinct-candidate_ids : Distinct candidates
  unfolding candidate_ids
  Distinct-candidate_ids = Distinct-sort_by leb _ (Distinct-ids_of _ db.voters apart)

  there-candidate_ids : All (λ j. is_there db j ≡ true) candidates
  unfolding candidate_ids
  there-candidate_ids = All-sort_by leb _ _ (there-ids_of _ db db.voters (all_there db.voters))

  -- A voter's identifier is among the candidates' exactly if the voter is one.
  member-candidate_ids :
      All (λ (v : Voter). any (λ j. v.id == j) candidates ≡ is_candidate db now hours v) db.voters
  unfolding candidate_ids
  member-candidate_ids =
      All-map _ _ db.voters (λ v h. any-sort_by leb (λ j. v.id == j) _ ∙ h)
        (member-ids_of (is_candidate db now hours) db.voters apart)

  -- Of a candidate, which has no votes and no payments, only the audit log can stand in the way.
  protected_candidate :
      (v : Voter)
      → (is_candidate db now hours v && is_protected db v.id)
        ≡ (is_candidate db now hours v && has_audit_entries db v.id)
  unfolding is_candidate is_protected
  protected_candidate v = ground arith

  count_protected-candidates :
      count_protected db candidates ≡ count_where (is_protected db) candidates
  unfolding count_protected candidate_ids
  count_protected-candidates =
      let p = is_candidate db now hours in
      count_where_cong _ (λ (v : Voter). p v && is_protected db v.id) db.voters
        (All-map _ _ db.voters
          (λ v h. ap (λ b. b && has_audit_entries db v.id) h ∙ sym (protected_candidate v))
          member-candidate_ids)
      ∙ sym (count-ids_of p (is_protected db) db.voters)
      ∙ sym (count_where-sort_by (is_protected db) leb (ids_of p db.voters))

module _ (now hours : ℕ) (w : World) (apart : Apart w.db.voters) where
  abbrev goes_away : Voter → Bool
  goes_away v = is_candidate w.db now hours v && not (has_audit_entries w.db v.id)

  goes-candidate :
      All
        (λ (v : Voter). not (goes w.db (candidate_ids w.db now hours) v.id) ≡ not (goes_away v))
        w.db.voters
  goes-candidate =
      All-map _ _ w.db.voters
        (λ v (there, h). ground (arith, there, h, protected_candidate w.db now hours apart v))
        (All-zip _ _ w.db.voters (all_there w.db.voters)
          (member-candidate_ids w.db now hours apart))

  -- Where no two voters have the same identifier and every challenge belongs to a voter: the command
  -- deletes exactly the voters who never verified a code, were created before the cutoff, and to whom no
  -- vote, payment or audit entry refers. Their challenges go with them, those of the other voters stay,
  -- and nothing else changes.
  pub handle-deletes :
      All (λ (c : Challenge). is_there w.db c.voter ≡ true) w.db.challenges
      → (handle now hours true w).1 ≡ record w {
        db = record w.db {
          voters = filter (λ v. not (goes_away v)) w.db.voters;
          challenges =
              filter
                (λ (c : Challenge).
                  any
                    (λ (v : Voter). v.id == c.voter)
                    (filter (λ v. not (goes_away v)) w.db.voters))
                w.db.challenges;
        };
      }
  unfolding handle purged
  handle-deletes owned =
      let ids = candidate_ids w.db now hours in
      let voters = filter_cong _ _ w.db.voters goes-candidate in
      let challenges =
        filter_cong (λ (c : Challenge). not (goes w.db ids c.voter)) _ w.db.challenges
          (All-map _ _ w.db.challenges
            (λ c h. ground (
              arith,
              any-filter_key (λ (v : Voter). v.id) (λ j. not (goes w.db ids j)) c.voter w.db.voters,
              h,
            ))
            owned) in
      rw (handle, delete_all-purged ids no_counts w, purged, voters, challenges) refl

  -- Where no two voters have the same identifier, a dry run reports the numbers of voters that a run at
  -- the same time on the same tables deletes and skips, and changes nothing.
  pub handle-dry_run :
      (counts : Counts) × (w' : World) × (handle now hours true w ≡ (executed counts, w'))
      × (handle now hours false w ≡ (dry_run counts.deleted counts.skipped_protected, w))
  unfolding handle
  handle-dry_run =
      let ids = candidate_ids w.db now hours in
      let (deletes, skips) =
        delete_all-counts ids no_counts w (Distinct-candidate_ids w.db now hours apart)
          (there-candidate_ids w.db now hours apart) in
      let same = count_protected-candidates w.db now hours apart in
      let split = count_where-not (is_protected w.db) ids in
      let counts = (delete_all ids no_counts w).0 in
      let protects : count_protected w.db ids ≡ counts.skipped_protected =
        omega (arith, skips, same) in
      let would : length ids - count_protected w.db ids ≡ counts.deleted =
        omega (arith, deletes, same, split) in
      (
        (delete_all ids no_counts w).0,
        (delete_all ids no_counts w).1,
        refl,
        λ i. (dry_run (would i) (protects i), w),
      )
