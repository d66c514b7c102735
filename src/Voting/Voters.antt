-- ===== src/Voting/Voters.antt =====
-- The table of voters, with its primary key.
use kw_awards_voting_platfom.Prelude.{
  ℕ, Bool, false, some, List, [], ◌∷◌, ◌≡◌, inl, inr, ◌==◌, any, find?, arith, Bool-cases,
}
use kw_awards_voting_platfom.Models.Voting.{Voter}

-- No two rows have the same identifier.
abbrev pub Apart : List Voter → Type 0
Apart [] = Unit
Apart (v ∷ voters) = (any (λ (x : Voter). v.id == x.id) voters ≡ false) × Apart voters

found_later :
    (p : Voter → Bool) (id : ℕ) (rows : List Voter) (v : Voter)
    → any (λ (x : Voter). id == x.id) rows ≡ false
    → find? p rows ≡ some v
    → (id == v.id) ≡ false
found_later p id [] v h f = absurd (ground arith)
found_later p id (x ∷ rows) v h f = ground (arith, found_later p id rows v)

-- A row that is found by anything is the one that its identifier finds.
pub find?-id :
    (p : Voter → Bool) (rows : List Voter) (v : Voter)
    → Apart rows
    → find? p rows ≡ some v
    → find? (λ (x : Voter). x.id == v.id) rows ≡ some v
find?-id p [] v apart h = absurd (ground arith)
find?-id p (x ∷ rows) v apart h = elim (Bool-cases (p x)) [
  | inl t ↦ ground arith
  | inr f ↦
      let rest = rw f at h in
      ground (arith, found_later p x.id rows v apart.0 rest, find?-id p rows v apart.1 rest)
]
