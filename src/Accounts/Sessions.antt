-- ===== src/Accounts/Sessions.antt =====
-- accounts/views.py, accounts/cookies.py and `HasAjaxHeader`: the refresh token lives in a cookie that
-- scripts cannot read.
use kw_awards_voting_platfom.Prelude.{
  ℕ, Bool, true, false, Option, none, some, List, [], ◌∷◌, Text, codes, text_eq, is_empty, ◌≡◌,
  refl, ◌⊎◌, inl, inr, Bool-cases, Option-cases, text_eq→eq, if◌then◌else◌,
}
use kw_awards_voting_platfom.Exceptions.{Result, ok, err, authentication_failed}
use kw_awards_voting_platfom.Exec.{Action, continue, pure, ◌>>=◌}
use kw_awards_voting_platfom.Models.State.{World, Env, Request}
use kw_awards_voting_platfom.Accounts.Login.{Obtain, validate_login}

-- The settings of the cookie.
pub record CookieSettings : Type 0 where
  pub max_age : ℕ
  pub path : Text
  pub secure : Bool
  pub samesite : Text

pub record Cookie : Type 0 where
  pub value : Text
  pub max_age : ℕ
  pub path : Text
  pub secure : Bool
  pub httponly : Bool
  pub samesite : Text

-- What a response does to the cookie.
pub data SetCookie : Type 0 where
  unchanged : SetCookie
  set : Cookie → SetCookie
  deleted : Text → Text → SetCookie

-- `set_refresh_cookie` and `clear_refresh_cookie`
unfoldable pub set_refresh_cookie : CookieSettings → Text → SetCookie
set_refresh_cookie s token = set (record {
  value = token;
  max_age = s.max_age;
  path = s.path;
  secure = s.secure;
  httponly = true;
  samesite = s.samesite;
})

unfoldable pub clear_refresh_cookie : CookieSettings → SetCookie
clear_refresh_cookie s = deleted s.path s.samesite

-- A response: the access token in the body, and the cookie.
pub record TokenResponse : Type 0 where
  pub access : Text
  pub cookie : SetCookie

cookie_for : CookieSettings → Text → SetCookie
cookie_for s refresh = if is_empty refresh then unchanged else set_refresh_cookie s refresh

-- `StaffTokenObtainPairView.post`
unfoldable pub post_login :
    Env → Obtain → CookieSettings → Request → Text → Text → Action TokenResponse
unfolding cookie_for
post_login env lib s r email password = do
  tokens ← validate_login env lib r email password
  pure (record { access = tokens.1; cookie = cookie_for s tokens.0 })

-- The refresh tokens of djangorestframework-simplejwt: what a refresh answers, with the rotated token;
-- and the user of a token that is valid and not on the blacklist.
pub record RefreshTokens : Type 0 where
  pub refresh : Text → Option (Text × Option Text)
  pub user_of : List Text → Text → Option Text

refreshed : CookieSettings → Option (Text × Option Text) → Result TokenResponse
refreshed s none = err authentication_failed
refreshed s (some (access, none)) = ok (record { access = access; cookie = unchanged })
refreshed s (some (access, some token)) =
    ok (record { access = access; cookie = set_refresh_cookie s token })

-- `StaffTokenRefreshView.post`, on the cookie of the request; `InvalidToken` is an
-- `AuthenticationFailed`.
unfoldable pub post_refresh : RefreshTokens → CookieSettings → Option Text → Result TokenResponse
unfolding refreshed
post_refresh lib s none = err authentication_failed
post_refresh lib s (some value) =
    if is_empty value then err authentication_failed else refreshed s (lib.refresh value)

blacklist_own : Text → Text → Option Text → List Text → List Text
blacklist_own user value none blacklist = blacklist
blacklist_own user value (some owner) blacklist =
    if text_eq owner user then value ∷ blacklist else blacklist

-- `LogoutView.post`, on the blacklist of refresh tokens.
unfoldable pub post_logout :
    RefreshTokens → CookieSettings → Text → Option Text → List Text → SetCookie × List Text
unfolding blacklist_own
post_logout lib s user none blacklist = (clear_refresh_cookie s, blacklist)
post_logout lib s user (some value) blacklist = (
  clear_refresh_cookie s,
  if is_empty value
      then blacklist
      else blacklist_own user value (lib.user_of blacklist value) blacklist,
)

-- `HasAjaxHeader.has_permission`, on the header `X-Requested-With`.
abbrev pub has_ajax_header : Option Text → Bool
has_ajax_header none = false
has_ajax_header (some value) = text_eq value (codes "XMLHttpRequest")

-- A cookie that scripts cannot read, with the attributes of the settings.
abbrev pub IsGuarded : CookieSettings → SetCookie → Type 0
IsGuarded s unchanged = Unit
IsGuarded s (set c) =
    (c.httponly ≡ true) × (c.secure ≡ s.secure) × (c.path ≡ s.path) × (c.samesite ≡ s.samesite)
IsGuarded s (deleted path samesite) = (path ≡ s.path) × (samesite ≡ s.samesite)

abbrev pub Guarded : CookieSettings → Result TokenResponse → Type 0
Guarded s (ok response) = IsGuarded s response.cookie
Guarded s (err e) = Unit

refreshed-Guarded :
    (s : CookieSettings) (o : Option (Text × Option Text)) → Guarded s (refreshed s o)
unfolding refreshed set_refresh_cookie
refreshed-Guarded s none = tt
refreshed-Guarded s (some (access, none)) = tt
refreshed-Guarded s (some (access, some token)) = (refl, refl, refl, refl)

cookie_for-IsGuarded : (s : CookieSettings) (refresh : Text) → IsGuarded s (cookie_for s refresh)
unfolding cookie_for set_refresh_cookie
cookie_for-IsGuarded s [] = tt
cookie_for-IsGuarded s (c ∷ refresh) = (refl, refl, refl, refl)

login-Guarded :
    (s : CookieSettings) (x : Result (Text × Text) × World)
    → Guarded s
        (continue
          (λ (tokens : Text × Text).
            pure (record { access = tokens.1; cookie = cookie_for s tokens.0 }))
          x).0
login-Guarded s (ok tokens, w) = cookie_for-IsGuarded s tokens.0
login-Guarded s (err e, w) = tt

logout-IsGuarded :
    (tokens : RefreshTokens) (s : CookieSettings) (user : Text) (cookie : Option Text)
    (blacklist : List Text)
    → IsGuarded s (post_logout tokens s user cookie blacklist).0
unfolding post_logout clear_refresh_cookie
logout-IsGuarded tokens s user none blacklist = (refl, refl)
logout-IsGuarded tokens s user (some value) blacklist = (refl, refl)

-- What a logout puts on the blacklist.
abbrev pub Blacklists : RefreshTokens → Text → Option Text → List Text → List Text → Type 0
Blacklists tokens user cookie blacklist later =
    (later ≡ blacklist)
    ⊎ ((value : Text) × (owner : Text) × (cookie ≡ some value)
        × (tokens.user_of blacklist value ≡ some owner)
        × (owner ≡ user)
        × (later ≡ value ∷ blacklist))

logout-Blacklists :
    (tokens : RefreshTokens) (s : CookieSettings) (user : Text) (cookie : Option Text)
    (blacklist : List Text)
    → Blacklists tokens user cookie blacklist (post_logout tokens s user cookie blacklist).1
unfolding post_logout
logout-Blacklists tokens s user none blacklist = inl refl
logout-Blacklists tokens s user (some value) blacklist = elim (Bool-cases (is_empty value)) [
  | inl e ↦ inl (rw e refl)
  | inr e ↦ elim (Option-cases (tokens.user_of blacklist value)) [
    | inl invalid ↦ inl (rw (e, invalid) refl)
    | inr (owner, known) ↦ elim (Bool-cases (text_eq owner user)) [
      | inr foreign ↦ inl (rw (e, known, foreign) refl)
      | inl own ↦
          inr (value, owner, refl, known, text_eq→eq owner user own, rw (e, known, own) refl)
    ]
  ]
]

-- A login or a refresh that sets the cookie sets it out of reach of scripts, with the path and the other
-- attributes of the settings. A logout deletes the cookie under the same path, and puts at most the
-- token of the cookie on the blacklist, and that only if the token is the caller's own.
pub sessions_lem :
    (env : Env) (lib : Obtain) (tokens : RefreshTokens) (s : CookieSettings) (r : Request)
    (email password user : Text) (cookie : Option Text) (blacklist : List Text) (w : World)
    → let (answer, later) = post_logout tokens s user cookie blacklist in
      Guarded s (post_login env lib s r email password w).0
      × Guarded s (post_refresh tokens s cookie)
      × IsGuarded s answer
      × Blacklists tokens user cookie blacklist later
unfolding post_login post_refresh
sessions_lem env lib tokens s r email password user cookie blacklist w = (
  login-Guarded s (validate_login env lib r email password w),
  refresh cookie,
  logout-IsGuarded tokens s user cookie blacklist,
  logout-Blacklists tokens s user cookie blacklist,
)
  where
    refresh : (cookie : Option Text) → Guarded s (post_refresh tokens s cookie)
    refresh none = tt
    refresh (some value) = elim (Bool-cases (is_empty value)) [
      | inl e ↦ rw e tt
      | inr e ↦ rw e (refreshed-Guarded s (tokens.refresh value))
    ]
