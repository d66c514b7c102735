-- ===== src/Events/Deletion/Integrity.antt =====
-- What `perform_destroy` leaves: the rows that foreign keys need.
use kw_awards_voting_platfom.Prelude.{
  ℕ, Bool, true, false, ◌&&◌, not, List, [], ◌∷◌, map, ◌≡◌, refl, inl, inr, ◌==◌, any, any-eq-false,
  filter, All, All-of, All-filter, All-map, All-zip, any-filter_key, arith, Bool-cases,
}
use kw_awards_voting_platfom.Models.Events.{Event, Category, Award}
use kw_awards_voting_platfom.Models.Nominations.{Nomination}
use kw_awards_voting_platfom.Models.Payments.{Payment}
use kw_awards_voting_platfom.Models.State.{Db, World}
use kw_awards_voting_platfom.Events.Deletion.Links.{IsLinked, HasTargets}
use kw_awards_voting_platfom.Events.Deletion.{
  Collected, among, categories_of, awards_of, nominations_of, collect_award, collect_category,
  collect_event, vote_refers, payment_refers, delete_collected,
}

-- What is kept needs nothing that is collected.
pub record IsClosed (db : Db) (c : Collected) : Type 0 where
  categories :
      All
        (λ (x : Category). among c.events x.event ≡ false)
        (filter (λ (x : Category). not (among c.categories x.id)) db.categories)
  awards :
      All
        (λ (a : Award). among c.categories a.category ≡ false)
        (filter (λ (a : Award). not (among c.awards a.id)) db.awards)
  nominations :
      All
        (λ (n : Nomination). among c.awards n.award ≡ false)
        (filter (λ (n : Nomination). not (among c.nominations n.id)) db.nominations)

-- A key whose row is not among those that go keeps its row.
module _ {A : Type 0} (key : A → ℕ) (gone : List ℕ) (rows : List A) where
  abbrev kept : List A
  kept = filter (λ x. not (among gone (key x))) rows

  still :
      (k : ℕ)
      → any (λ x. key x == k) rows ≡ true
      → among gone k ≡ false
      → any (λ x. key x == k) kept ≡ true
  still k h g = ground (arith, any-filter_key key (λ j. not (among gone j)) k rows)

  all_still :
      {B : Type 0} (target : B → ℕ) (xs : List B)
      → All (λ y. any (λ x. key x == target y) rows ≡ true) xs
      → All (λ y. among gone (target y) ≡ false) xs
      → All (λ y. any (λ x. key x == target y) kept ≡ true) xs
  all_still target [] h g = tt
  all_still target (y ∷ xs) h g = (still (target y) h.0 g.0, all_still target xs h.1 g.1)

-- The rows that pass a test are all among their identifiers.
closed :
    {A : Type 0} (key : A → ℕ) (p : A → Bool) (xs : List A)
    → All (λ x. p x ≡ false) (filter (λ x. not (among (map key (filter p xs)) (key x))) xs)
closed {A} key p xs = within xs (map key (filter p xs)) (own xs)
  where
    own : (ys : List A) → All (λ x. (p x && not (among (map key (filter p ys)) (key x))) ≡ false) ys
    own [] = tt
    own (y ∷ ys) = (ground arith, All-map _ _ ys (λ x h. ground (arith, h)) (own ys))

    within :
        (ys : List A) (ids : List ℕ)
        → All (λ x. (p x && not (among ids (key x))) ≡ false) ys
        → All (λ x. p x ≡ false) (filter (λ x. not (among ids (key x))) ys)
    within [] ids h = tt
    within (y ∷ ys) ids h = elim (Bool-cases (among ids (key y))) [
      | inl t ↦ rw t (within ys ids h.1)
      | inr f ↦ rw f (ground (arith, h.0), within ys ids h.1)
    ]

nothing : {A : Type 0} (target : A → ℕ) (xs : List A) → All (λ x. among [] (target x) ≡ false) xs
nothing target xs = All-of _ xs (λ x. refl)

nominations-closed :
    (db : Db) (awards : List ℕ)
    → All
        (λ (n : Nomination). among awards n.award ≡ false)
        (filter (λ (n : Nomination). not (among (nominations_of db awards) n.id)) db.nominations)
nominations-closed db awards =
    closed (λ (n : Nomination). n.id) (λ (n : Nomination). among awards n.award) db.nominations

awards-closed :
    (db : Db) (categories : List ℕ)
    → All
        (λ (a : Award). among categories a.category ≡ false)
        (filter (λ (a : Award). not (among (awards_of db categories) a.id)) db.awards)
awards-closed db categories =
    closed (λ (a : Award). a.id) (λ (a : Award). among categories a.category) db.awards

pub collect_award-IsClosed : (db : Db) (id : ℕ) → IsClosed db (collect_award db id)
unfolding collect_award
collect_award-IsClosed db id = record {
  categories = nothing (λ (x : Category). x.event) _;
  awards = nothing (λ (a : Award). a.category) _;
  nominations = nominations-closed db (id ∷ []);
}

pub collect_category-IsClosed : (db : Db) (id : ℕ) → IsClosed db (collect_category db id)
unfolding collect_category
collect_category-IsClosed db id = record {
  categories = nothing (λ (x : Category). x.event) _;
  awards = awards-closed db (id ∷ []);
  nominations = nominations-closed db (awards_of db (id ∷ []));
}

pub collect_event-IsClosed : (db : Db) (id : ℕ) → IsClosed db (collect_event db id)
unfolding collect_event
collect_event-IsClosed db id = record {
  categories =
      closed (λ (x : Category). x.id) (λ (x : Category). among (id ∷ []) x.event) db.categories;
  awards = awards-closed db (categories_of db (id ∷ []));
  nominations = nominations-closed db (awards_of db (categories_of db (id ∷ [])));
}

-- What a deletion that goes through leaves.
module _ (c : Collected) (w : World) (free : any (vote_refers c) w.db.votes ≡ false)
    (unpaid : any (payment_refers c) w.db.payments ≡ false) where
  votes-IsLinked :
      (linked : IsLinked w.db) → All (HasTargets (delete_collected c w).1.db) w.db.votes
  unfolding delete_collected
  votes-IsLinked linked =
      rw (free, unpaid)
        (All-map (λ v. HasTargets w.db v × (vote_refers c v ≡ false)) _ w.db.votes
          (λ v (has, refers). (
            still (λ (e : Event). e.id) c.events w.db.events v.event has.0 (ground arith),
            still (λ (a : Award). a.id) c.awards w.db.awards v.award has.1 (ground arith),
            still (λ (n : Nomination). n.id) c.nominations w.db.nominations v.nomination has.2
                (ground arith),
          ))
          (All-zip _ _ w.db.votes linked.votes (any-eq-false (vote_refers c) w.db.votes free)))

  pub deleted-IsLinked : IsClosed w.db c → IsLinked w.db → IsLinked (delete_collected c w).1.db
  unfolding delete_collected
  deleted-IsLinked closes linked =
      let votes = votes-IsLinked linked in
      let payments =
        all_still (λ (n : Nomination). n.id) c.nominations w.db.nominations
          (λ (p : Payment). p.nomination) w.db.payments linked.payments
          (any-eq-false (payment_refers c) w.db.payments unpaid) in
      rw (free, unpaid)
        (record {
          categories =
              all_still (λ (e : Event). e.id) c.events w.db.events (λ (x : Category). x.event) _
                (All-filter _ _ w.db.categories linked.categories) closes.categories;
          awards =
              all_still (λ (x : Category). x.id) c.categories w.db.categories
                (λ (a : Award). a.category) _ (All-filter _ _ w.db.awards linked.awards)
                closes.awards;
          nominations =
              all_still (λ (a : Award). a.id) c.awards w.db.awards (λ (n : Nomination). n.award) _
                (All-filter _ _ w.db.nominations linked.nominations) closes.nominations;
          nominees = linked.nominees;
          people = All-filter _ _ w.db.nominations linked.people;
          origins = linked.origins;
          payers = linked.payers;
          challenges = linked.challenges;
          actors = linked.actors;
          votes = rw (free, unpaid) at votes;
          payments = payments;
        })
