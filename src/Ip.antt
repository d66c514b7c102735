-- ===== src/Ip.antt =====
-- common/ip.py: the client's address behind a configured chain of trusted proxies. `Env.in_network`
-- is the membership test of Python's `ipaddress`, false where it raises, and
-- `Env.ipware_client_ip` is django-ipware in strict mode, on the chain and the trusted proxies.
pub mod Spoofing
use kw_awards_voting_platfom.Prelude.{
  Bool, true, false, ◌||◌, not, Option, none, some, List, [], ◌∷◌, ◌++◌, Text, strip, is_empty,
  if◌then◌else◌,
}
use kw_awards_voting_platfom.Models.State.{Env, Request}

-- `text or None`
abbrev pub or_none : Text → Option Text
or_none [] = none
or_none (c ∷ s) = some (c ∷ s)

-- `_matches(remote, trusted[-1])`, false when there is no proxy
pub matches_last : Env → Text → List Text → Bool
matches_last env remote [] = false
matches_last env remote (p ∷ []) = env.in_network remote p
matches_last env remote (p ∷ q ∷ rest) = matches_last env remote (q ∷ rest)

-- `ip or remote`
abbrev or_remote : Text → Option Text → Option Text
or_remote remote none = some remote
or_remote remote (some []) = some remote
or_remote remote (some (c ∷ s)) = some (c ∷ s)

forwarded_ip : Env → Text → Text → Option Text
forwarded_ip env remote forwarded =
    if is_empty (strip forwarded)
    then some remote
    else or_remote remote
        (env.ipware_client_ip (strip forwarded ++ (44 ∷ 32 ∷ remote)) env.trusted_proxies)

unfoldable pub get_client_ip : Env → Request → Option Text
unfolding matches_last forwarded_ip
get_client_ip env r =
    if is_empty r.remote_addr || not (matches_last env r.remote_addr env.trusted_proxies)
    then or_none r.remote_addr
    else forwarded_ip env r.remote_addr r.forwarded_for
