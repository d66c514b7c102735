-- ===== src/Exec.antt =====
-- A function of the program that reads or writes the world: it returns a value or raises, and in
-- both cases leaves a world behind. What was written before a raise stays written, except under
-- `atomic`, which is `transaction.atomic()`: a raise restores the database, but neither the cache
-- nor the messages that have been sent.
use kw_awards_voting_platfom.Prelude.{Bool, Option, none, some, if◌then◌else◌}
use kw_awards_voting_platfom.Exceptions.{Exc, Result, ok, err}
use kw_awards_voting_platfom.Models.State.{Db, World}

abbrev pub ⊤ : Type 0
⊤ = Unit

abbrev pub Action : Type 0 → Type 0
Action A = World → Result A × World

module _ {A : Type 0} where
  abbrev pub pure : A → Action A
  pure a w = (ok a, w)

  abbrev pub raise : Exc → Action A
  raise e w = (err e, w)

  abbrev pub gets : (Db → A) → Action A
  gets f w = (ok (f w.db), w)

  -- `.get()` on a row that may be missing
  abbrev pub or_raise : Exc → Option A → Action A
  or_raise e none w = (err e, w)
  or_raise e (some a) w = (ok a, w)

  -- The database that a transaction leaves: the new one if it commits, the old one if it raises.
  abbrev pub settle : Db → Result A × World → Result A × World
  settle before (ok a, w) = (ok a, w)
  settle before (err e, w) = (err e, record w { db = before })

  abbrev pub atomic : Action A → Action A
  atomic m w = settle w.db (m w)

  -- `try: m except ...: handler`
  abbrev pub handled : (Exc → Action A) → Result A × World → Result A × World
  handled h (ok a, w) = (ok a, w)
  handled h (err e, w) = h e w

  abbrev pub catch : Action A → (Exc → Action A) → Action A
  catch m h w = handled h (m w)

abbrev pub continue : {A B : Type 0} → (A → Action B) → Result A × World → Result B × World
continue f (ok a, w) = f a w
continue f (err e, w) = (err e, w)

infixl 5 ◌>>=◌ ◌>>◌
abbrev pub ◌>>=◌ : {A B : Type 0} → Action A → (A → Action B) → Action B
◌>>=◌ m f w = continue f (m w)

abbrev pub ◌>>◌ : {A B : Type 0} → Action A → Action B → Action B
m >> k = m >>= λ _. k

-- `if c: raise e`
abbrev pub raise_if : Bool → Exc → Action ⊤
raise_if c e w = (if c then err e else ok tt, w)

abbrev pub modify : (Db → Db) → Action ⊤
modify f w = (ok tt, record w { db = f w.db })
