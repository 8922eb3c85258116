-- ===== src/Tests.antt =====
-- The inputs of the examples: values that are numbers or texts, a small set of roles, and a few
-- jobs.
pub mod Searching
pub mod Access
pub mod Jobs
pub mod Groups
pub mod Credentials
pub mod Keys
pub mod Logins
pub mod Flows
pub mod Issued
pub mod Accounts
pub mod Upkeep
pub mod Flags
use ohev.Authz.{Tables, Registry, Token}
use ohev.Filter.{
  Values, Item, id_column, contained, conversation_record_id_column, record_owner_path, Entity,
  creator_id_column,
}
use ohev.Filter.Agreement.{Agrees, HasKeys}
use ohev.Filter.Like.{LikeToken, any_run, like_tokens, literal}
use ohev.Job.{completed, Job, pending, Status, running}
use ohev.Job.Rows.{DistinctJobs}
use ohev.Prelude.{
  any, arith, none, ◌≡◌, map, false, leb, ap, ◌∷◌, true, some, List, ltb, ◌++◌, refl, ◌==◌, Option,
  Bool, ℕ, [], if◌then◌else◌, ◌||◌, ==_iff, ◌≢◌,
}
use ohev.Security.{permitted, denied, Permission, acl_permission, creator_permission, read_only}
use ohev.Text.{Text, starts_with, text_eq, codes}

pub data Value : Type 0 where
  number : ℕ → Value
  text_value : Text → Value

unfoldable pub value_eq : Value → Value → Bool
unfolding text_eq
value_eq (number a) (number b) = a == b
value_eq (text_value s) (text_value t) = text_eq s t
value_eq _ _ = false

-- An order of numbers; other values are not ordered.
abbrev pub on_numbers : (ℕ → ℕ → Bool) → Value → Value → Option Bool
on_numbers p (number a) (number b) = some (p a b)
on_numbers p _ _ = none

abbrev pub text_in : Value → Option Text
text_in (number a) = none
text_in (text_value s) = some s

-- `t in s`
unfoldable pub in_text : Text → Text → Bool
unfolding text_eq starts_with
in_text t [] = text_eq t []
in_text t (c ∷ s) = starts_with t (c ∷ s) || in_text t s

unfoldable pub literals : List LikeToken → Text
literals [] = []
literals (literal c ∷ tokens) = c ∷ literals tokens
literals (_ ∷ tokens) = literals tokens

abbrev pub ilike_text : Value → Text → Bool
ilike_text (number a) pattern = false
ilike_text (text_value s) pattern = in_text (literals (like_tokens pattern)) s

abbrev pub shown : Value → Text
shown (number a) = []
shown (text_value s) = s

abbrev pub sample_values : Values Value
sample_values = record {
  py_eq = value_eq;
  py_lt = on_numbers ltb;
  py_le = on_numbers leb;
  py_gt = on_numbers (λ a b. ltb b a);
  py_ge = on_numbers (λ a b. leb b a);
  as_str = text_in;
  lower = λ s. s;
  in_str = in_text;
  member = λ a v. none;
  str = shown;
  is_aware_datetime = λ v. false;
  astimezone_utc = λ v. v;
  sql_eq = value_eq;
  sql_lt = λ a b. contained (on_numbers ltb a b);
  sql_le = λ a b. contained (on_numbers leb a b);
  sql_gt = λ a b. contained (on_numbers (λ x y. ltb y x) a b);
  sql_ge = λ a b. contained (on_numbers (λ x y. leb y x) a b);
  sql_ilike = ilike_text;
  sandbox_configs = (number 20, some (number 7)) ∷ (number 21, some (number 8)) ∷ [];
  conversation_records = (number 30, some (number 20)) ∷ (number 31, some (number 21)) ∷ [];
}

literals-run : (s : Text) → literals (map literal s ++ any_run ∷ []) ≡ s
unfolding literals
literals-run [] = refl
literals-run (c ∷ s) = ap (λ (t : Text). c ∷ t) (literals-run s)

ilike-sample :
    (a : Value) (s t pattern : Text)
    → text_in a ≡ some s
    → like_tokens pattern ≡ any_run ∷ (map literal t ++ any_run ∷ [])
    → ilike_text a pattern ≡ in_text t s
unfolding literals
ilike-sample (number a) s t pattern h k = cc
ilike-sample (text_value a) s t pattern h k = rw (k, literals-run t) (cc h)

shown-text : (v : Value) (t : Text) → text_in v ≡ some t → shown v ≡ t
shown-text (number a) t h = cc
shown-text (text_value s) t h = cc

-- Two rows with the ids `a` and `b` have distinct keys.
two_keys :
    (a b : ℕ) (c d : Option Value)
    → (a == b) ≡ false
    → HasKeys sample_values ((number a, c) ∷ (number b, d) ∷ [])
unfolding value_eq
two_keys a b c d h = (apart, ((λ key e. refl), tt))
  where
    apart :
        (key : Value)
        → value_eq key (number a) ≡ true
        → any (λ (r : Value × Option Value). value_eq key r.0) ((number b, d) ∷ []) ≡ false
    apart (number k) e = rw ((==_iff k a).0 e, h) refl
    apart (text_value k) e = cc

pub sample-Agrees : Agrees sample_values
sample-Agrees = record {
  eq = λ a v. refl;
  lt = λ a v b h. rw h refl;
  le = λ a v b h. rw h refl;
  gt = λ a v b h. rw h refl;
  ge = λ a v b h. rw h refl;
  utc_eq = λ a v. refl;
  utc_lt = λ a v. refl;
  utc_le = λ a v. refl;
  utc_gt = λ a v. refl;
  utc_ge = λ a v. refl;
  str_text = shown-text;
  ilike = ilike-sample;
  config_keys = two_keys 20 21 (some (number 7)) (some (number 8)) refl;
  record_keys = two_keys 30 31 (some (number 20)) (some (number 21)) refl;
}

-- an item with an id, a creator and a name
abbrev pub named_item : ℕ → ℕ → Text → Item Value
named_item i creator name column =
    if text_eq column id_column
    then some (number i)
    else if text_eq column creator_id_column
    then some (number creator)
    else if text_eq column (codes "name")
    then some (text_value name)
    else none

-- an event of the conversation record 30, which user 7 owns
abbrev pub owned_event : Item Value
owned_event column =
    if text_eq column id_column
    then some (number 40)
    else if text_eq column conversation_record_id_column
    then some (number 30)
    else if text_eq column record_owner_path
    then some (number 7)
    else none

-- every column that the items have
abbrev pub item_entity : Entity
item_entity = some (λ column. true)

abbrev pub own_items : Permission Value
own_items = creator_permission permitted denied permitted

abbrev listed_items : Permission Value
listed_items = acl_permission (number 4 ∷ []) permitted read_only denied

abbrev pub job_model : Text
job_model = codes "Job"

abbrev pub sample_registry : Registry
sample_registry = (codes "Job", codes "job_permissions") ∷ []

-- User 7 has the roles 1 and 2, and is in group 9.
abbrev pub sample_tables : Tables Value
sample_tables = record {
  roles =
      record { id = number 1; policy = λ column. some own_items }
      ∷ record { id = number 2; policy = λ column. some listed_items }
      ∷ [];
  user_roles = (number 7, number 1) ∷ (number 7, number 2) ∷ [];
  group_users = (number 7, number 9) ∷ [];
}

-- a key of user 7 that is restricted to role 2, and one that is not restricted
abbrev pub restricted_token : Option (Token Value)
restricted_token = some (record { user_id = number 7; role_id = some (number 2) })

abbrev pub sample_job : ℕ → Status → Option ℕ → Option ℕ → Job ℕ
sample_job i status' runner started = record {
  id = i;
  creator_id = 7;
  job_details_kind = "cleanup";
  job_details = 0;
  runner_id = runner;
  status = status';
  detail = none;
  max_seconds_for_run = 60;
  started_at = started;
}

abbrev pub sample_jobs : List (Job ℕ)
sample_jobs =
    sample_job 5 pending none none
    ∷ sample_job 2 running (some 1) (some 10)
    ∷ sample_job 3 completed (some 1) (some 5)
    ∷ sample_job 1 pending none none
    ∷ []

other : (a b : ℕ) → (a == b) ≡ false → a ≢ b
other a b h e = cc (h, (==_iff a b).1 e)

pub sample_jobs_distinct : DistinctJobs sample_jobs
sample_jobs_distinct = (
  (other 2 5 refl, (other 3 5 refl, (other 1 5 refl, tt))),
  ((other 3 2 refl, (other 1 2 refl, tt)), ((other 1 3 refl, tt), (tt, tt))),
)
