-- ===== src/Nominations/Views/Shown.antt =====
-- What the public sees of the nominations.
use kw_awards_voting_platfom.Prelude.{
  ℕ, Bool, true, false, ◌&&◌, some, List, [], ◌∷◌, ◌≡◌, refl, ◌∙◌, inl, inr, arith, ◌==◌, find?,
  filter, any, All, All-map, All-filter, All-filtered, All-zip, find?-sound, find?-All,
  Option-cases,
}
use kw_awards_voting_platfom.Prelude.Sorting.{All-sort_by, any-sort_by}
use kw_awards_voting_platfom.Exceptions.{Result, ok, err, not_found}
use kw_awards_voting_platfom.Models.Events.{Award}
use kw_awards_voting_platfom.Models.Nominations.{Nominee, Nomination}
use kw_awards_voting_platfom.Models.State.{Db, World, Env, Principal}
use kw_awards_voting_platfom.Events.{find_award}
use kw_awards_voting_platfom.Nominations.{is_shown, public_nominations}
use kw_awards_voting_platfom.Nominations.Views.{
  by_name, visible_nominations, is_moderator, nomination_queryset, get_nomination, nominee_profile,
  listed_award, award_nominations,
}

-- An answer of which something holds, or "not found".
abbrev pub Shows : {A : Type 0} → (A → Type 0) → Result A → Type 0
Shows P (ok a) = P a
Shows P (err e) = e ≡ not_found

any-filter :
    {A : Type 0} (p q : A → Bool) (xs : List A) → any p (filter q xs) ≡ any (λ x. q x && p x) xs
any-filter p q [] = refl
any-filter p q (x ∷ xs) = ground (arith, any-filter p q xs)

any-filtered : {A : Type 0} (p : A → Bool) (xs : List A) → any p (filter p xs) ≡ any p xs
any-filtered p [] = refl
any-filtered p (x ∷ xs) = ground (arith, any-filtered p xs)

visible-shown : (env : Env) (db : Db) → All (λ n. is_shown db n ≡ true) (visible_nominations env db)
unfolding visible_nominations public_nominations
visible-shown env db =
    All-sort_by (by_name env db) (λ n. is_shown db n ≡ true) (public_nominations db)
      (All-filtered (is_shown db) db.nominations)

visible_complete :
    (env : Env) (db : Db) (p : Nomination → Bool)
    → any p (visible_nominations env db) ≡ any (λ n. is_shown db n && p n) db.nominations
unfolding visible_nominations public_nominations
visible_complete env db p =
    any-sort_by (by_name env db) p (public_nominations db)
    ∙ any-filter p (is_shown db) db.nominations

-- The visible nominations with a key.
visible_with :
    (env : Env) (db : Db) (key : Nomination → ℕ) (k : ℕ)
    → All
        (λ n. (is_shown db n ≡ true) × (key n ≡ k))
        (filter (λ n. key n == k) (visible_nominations env db))
visible_with env db key k =
    All-zip _ _ _
      (All-filter (λ n. is_shown db n ≡ true) _ (visible_nominations env db) (visible-shown env db))
      (All-map _ _ _ (λ n h. ground arith)
        (All-filtered (λ n. key n == k) (visible_nominations env db)))

module _ (env : Env) (w : World) where
  listed-id : (id : ℕ) (a : Award) → listed_award w.db (find_award id w.db) ≡ some a → a.id ≡ id
  unfolding find_award
  listed-id id a h = elim (Option-cases (find? (λ (x : Award). x.id == id) w.db.awards)) [
    | inl absent ↦ absurd (ground arith)
    | inr (b, found) ↦
        let same = find?-sound (λ (x : Award). x.id == id) w.db.awards b found in
        ground (arith, same)
  ]

  award_shown :
      (id : ℕ)
      → Shows (All (λ n. (is_shown w.db n ≡ true) × (n.award ≡ id))) (award_nominations env id w).0
  unfolding award_nominations
  award_shown id = elim (Option-cases (listed_award w.db (find_award id w.db))) [
    | inl absent ↦ rw absent refl
    | inr (a, found) ↦
        rw (found, listed-id id a found) (visible_with env w.db (λ (n : Nomination). n.award) id)
  ]

  -- The nominees that a visible nomination names.
  abbrev pub has_visible : Nominee → Bool
  has_visible x = any (λ (m : Nomination). m.nominee == x.id) (visible_nominations env w.db)

  abbrev pub IsProfile : ℕ → Nominee × List Nomination → Type 0
  IsProfile pk (n, nominations) =
      (n.id ≡ pk)
      × (any (λ (m : Nomination). m.nominee == pk) nominations ≡ true)
      × All (λ m. (is_shown w.db m ≡ true) × (m.nominee ≡ pk)) nominations

  IsProfile-shown : (pk : ℕ) → Shows (IsProfile pk) (nominee_profile env pk w).0
  unfolding nominee_profile
  IsProfile-shown pk =
      elim (Option-cases (find? (λ (x : Nominee). x.id == pk) (filter has_visible w.db.nominees))) [
        | inl absent ↦ rw absent refl
        | inr (n, found) ↦
            let rows = filter has_visible w.db.nominees in
            let same : n.id ≡ pk =
              ground (arith, find?-sound (λ (x : Nominee). x.id == pk) rows n found) in
            let seen =
              find?-All (λ x. has_visible x ≡ true) (λ (x : Nominee). x.id == pk) rows n
                (All-filtered has_visible w.db.nominees) found in
            let named : any (λ (m : Nomination). m.nominee == pk) (visible_nominations env w.db)
                ≡ true =
              rw same at seen in
            rw (found, same)
              (
                refl,
                any-filtered (λ (m : Nomination). m.nominee == pk) (visible_nominations env w.db)
                    ∙ named,
                visible_with env w.db (λ (n : Nomination). n.nominee) pk,
              )
      ]

  module _ (user : Principal) (other : is_moderator w.db user ≡ false) where
    object_shown :
        (pk : ℕ)
        → Shows (λ n. (is_shown w.db n ≡ true) × (n.id ≡ pk)) (get_nomination env user pk w).0
    unfolding get_nomination nomination_queryset
    object_shown pk =
        let rows = visible_nominations env w.db in
        elim (Option-cases (find? (λ (n : Nomination). n.id == pk) rows)) [
          | inl absent ↦ rw (other, absent) refl
          | inr (n, found) ↦
              rw (other, found)
                (
                  find?-All (λ n. is_shown w.db n ≡ true) (λ (n : Nomination). n.id == pk) rows n
                      (visible-shown env w.db) found,
                  ground (arith, find?-sound (λ (n : Nomination). n.id == pk) rows n found),
                )
        ]

    -- A caller who is not a moderator sees, in the list of nominations, exactly the approved ones of
    -- active awards in events that are not drafts. One nomination by its identifier, the nominations of an
    -- award and the profile of a nominee show such nominations only, those that were asked for, and the
    -- profile has at least one; else the answer is "not found".
    pub views-is_shown :
        All (λ n. is_shown w.db n ≡ true) (nomination_queryset env w.db user)
        × ((p : Nomination → Bool)
            → any p (nomination_queryset env w.db user)
              ≡ any (λ n. is_shown w.db n && p n) w.db.nominations)
        × ((pk : ℕ)
            → Shows (λ n. (is_shown w.db n ≡ true) × (n.id ≡ pk)) (get_nomination env user pk w).0)
        × ((id : ℕ)
            → Shows
                (All (λ n. (is_shown w.db n ≡ true) × (n.award ≡ id)))
                (award_nominations env id w).0)
        × ((pk : ℕ) → Shows (IsProfile pk) (nominee_profile env pk w).0)
    unfolding nomination_queryset
    views-is_shown = rw other (
      visible-shown env w.db,
      visible_complete env w.db,
      object_shown,
      award_shown,
      IsProfile-shown,
    )
