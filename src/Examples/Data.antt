-- ===== src/Examples/Data.antt =====
-- A small gala: one event whose voting is open, one award, two nominations and two voters.
use kw_awards_voting_platfom.Prelude.{ℕ, ◌+◌, true, false, none, some, [], ◌∷◌, ◌++◌, Text, codes}
use kw_awards_voting_platfom.Models.Events.{Event, voting_open, Category, Award}
use kw_awards_voting_platfom.Models.Nominations.{Nominee, Nomination, approved, pending}
use kw_awards_voting_platfom.Models.Voting.{Voter, Vote, VoteSource}
use kw_awards_voting_platfom.Phone.{NumberType, PhoneNumbers, default_region}
use kw_awards_voting_platfom.Models.State.{Db, World, Env, Request, anonymous}

abbrev pub env : Env
env = record {
  otp_max_attempts = 3;
  otp_ttl_seconds = 600;
  sms_daily_limit = 2;
  otp_length = 6;
  throttle_rates = λ _. some (codes "2/15m");
  secret_key = codes "secret";
  audit_phone_hash_key = codes "key";
  trusted_proxies = (1 ∷ []) ∷ [];
  sha256 = λ t. t;
  hmac_sha256 = λ k m. m ++ k;
  in_network = λ a b. true;
  ipware_client_ip = λ chain proxies. some (9 ∷ []);
  sms_delivers = λ phone text. true;
  lower = λ t. t;
  upper = λ t. t;
  nfc = λ t. t;
  strip_tags = λ t. t;
  collate = λ a b. true;
}

abbrev pub gala : Event
gala = record {
  id = 1;
  name = codes "Gala";
  slug = codes "gala";
  year = 2026;
  status = voting_open;
  nominations_open_at = some 1;
  nominations_close_at = some 2;
  voting_opens_at = some 10;
  voting_closes_at = some 1000000000;
  results_published_at = none;
}

abbrev pub best_song : Award
best_song = record {
  id = 1;
  category = 1;
  name = codes "Best Song";
  slug = codes "best-song";
  display_order = 0;
  is_active = true;
}

abbrev pub music : Category
music = record { id = 1; event = 1; name = codes "Music"; slug = codes "music"; display_order = 0 }

abbrev pub singer : ℕ → Text → Nominee
singer id name = record {
  id = id;
  name = name;
  stage_name = [];
  bio = [];
  photo = [];
  contact_phone = [];
  contact_email = [];
  owner = none;
}

abbrev pub nomination : ℕ → Nomination
nomination id = record {
  id = id;
  nominee = id;
  award = 1;
  status = approved;
  submitted_by_ip = none;
  reviewed_by = some 1;
  reviewed_at = some 5;
  rejection_reason = [];
}

abbrev pub waiting : Nomination
waiting = record {
  id = 3;
  nominee = 3;
  award = 1;
  status = pending;
  submitted_by_ip = none;
  reviewed_by = none;
  reviewed_at = none;
  rejection_reason = [];
}

abbrev pub phone : Text
phone = codes "+254712345678"

abbrev pub amina : Voter
amina = record {
  id = 7;
  phone_e164 = phone;
  verified_at = none;
  is_blocked = false;
  created_at = 3;
}

abbrev pub old_vote : Vote
old_vote = record {
  id = 21;
  event = 1;
  award = 1;
  nomination = 2;
  voter = 8;
  source = VoteSource.free;
  quantity = 1;
  payment = none;
  ip_address = none;
  user_agent = [];
  voided_at = none;
  voided_by = none;
  void_reason = [];
  created_at = 20;
}

abbrev pub db : Db
db = record {
  users = [];
  events = gala ∷ [];
  categories = music ∷ [];
  awards = best_song ∷ [];
  nominees = singer 1 (codes "Bob") ∷ singer 2 (codes "Ann") ∷ [];
  nominations = nomination 1 ∷ nomination 2 ∷ waiting ∷ [];
  voters = amina ∷ [];
  challenges = [];
  votes = old_vote ∷ [];
  payments = [];
  audit_log = [];
}

abbrev pub world : World
world = record { db = db; cache = []; outbox = [] }

abbrev pub request_at : ℕ → ℕ → Request
request_at now uuid = record {
  now = now;
  remote_addr = 5 ∷ [];
  forwarded_for = codes "10.0.0.1";
  http_user_agent = codes "curl";
  user = anonymous;
  uuid = uuid;
  second_uuid = uuid + 1;
  random_code = 123456;
}

-- A package that takes every text for a valid Kenyan mobile number.
abbrev pub numbers : PhoneNumbers
numbers = record {
  Number = Text;
  parse = λ raw region. some raw;
  is_valid_number = λ n. true;
  number_type = λ n. NumberType.mobile;
  region_code_for_number = λ n. default_region;
  format_e164 = λ n. n;
}
