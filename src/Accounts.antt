-- ===== src/Accounts.antt =====
-- auth_account.py and models.py: the rows of users and of signup codes, and what the sign-in, the
-- registration and the admin panel share. Forms, pages, mails and rate limits are left out: a request
-- is the values it carries, a response is the message it shows.
pub mod Tokens
pub mod SignIn
pub mod SignUp
pub mod Reset
pub mod Review
pub mod Rows
mod Admitted
pub mod History
mod Verified
mod Links
mod Gaps
mod Examples
pub mod Reviewed
mod Kept
use fxjournal.Prelude.{
  ℕ, suc, ◌+◌, ◌==◌, Bool, true, false, ◌&&◌, ◌||◌, not, Option, none, some, List, [], ◌∷◌, ◌++◌,
  leb, if◌then◌else◌, find_first, keep, map, is_some, take,
}
use fxjournal.Prelude.Text.{
  Text, codes, contains_text, is_blank, lower, or_empty, same_text, split_on, strip, upper,
}
use fxjournal.Access.{SignupStatus, pending, approved}

-- A row of `users`, with the columns that sign-in reads or writes. `password` is a hash; the status is
-- one of the four that the code writes. Times are microseconds.
pub record Member : Type 0 where
  pub id : ℕ
  pub username : Text
  pub email : Text
  pub google_sub : Option Text
  pub password : Text
  pub email_verified : Bool
  pub is_admin : Bool
  pub signup_status : SignupStatus
  pub password_reset_nonce : Option Text
  pub signup_code_used : Option Text
  pub approved_at : Option ℕ
  pub approved_by_user_id : Option ℕ
  pub last_login_at : Option ℕ

pub record SignupCode : Type 0 where
  pub id : ℕ
  pub code : Text
  pub is_active : Bool
  pub max_uses : Option ℕ
  pub used_count : ℕ
  pub expires_at : Option ℕ

pub record Store : Type 0 where
  pub members : List Member
  pub signup_codes : List SignupCode

pub record Session : Type 0 where
  pub user_id : Option ℕ
  pub pending_verify_email : Text

pub data CodeMode : Type 0 where
  off optional required : CodeMode

-- The settings and the clock at a request, the id that the database gives to a new user, and whether it
-- takes the row: it refuses a name or an address that another request took in between.
pub record Env : Type 0 where
  pub now : ℕ
  pub new_id : ℕ
  pub inserts : Bool
  pub require_email_verification : Bool
  pub admin_emails : Text
  pub auto_approve_new_users : Bool
  pub registration_paused : Bool
  pub signup_code_mode : CodeMode
  pub allowed_domains : List Text

-- What the library `werkzeug.security` gives to this code.
pub record Passwords : Type 0 where
  pub generate_password_hash : Text → Text
  pub check_password_hash : Text → Text → Bool

abbrev pub find_by_email : Text → Store → Option Member
find_by_email email s = find_first (λ m. same_text m.email email) s.members

abbrev pub find_by_id : ℕ → Store → Option Member
find_by_id id s = find_first (λ m. m.id == id) s.members

abbrev pub replace_row : Member → Member → Member
replace_row m old = if old.id == m.id then m else old

-- The row with the member's id is written.
abbrev pub save : Member → Store → Store
save m s = record s { members = map (replace_row m) s.members }

abbrev pub add_member : Member → Store → Store
add_member m s = record s { members = s.members ++ m ∷ [] }

-- `str.isalnum` on an ASCII character in upper case.
abbrev is_alnum : ℕ → Bool
is_alnum c = (leb b'A' c && leb c b'Z') || (leb b'0' c && leb c b'9')

unfoldable pub normalize_signup_code : Text → Text
normalize_signup_code value = take 32 (keep is_alnum (upper (strip value)))

unfoldable pub find_signup_code : Text → Store → Option SignupCode
find_signup_code code_value s =
    let normalized = normalize_signup_code code_value in
    if is_blank normalized
    then none
    else find_first (λ c. same_text c.code normalized) s.signup_codes

abbrev is_expired : Option ℕ → ℕ → Bool
is_expired none _ = false
is_expired (some expires_at) now = leb expires_at now

abbrev is_used_up : Option ℕ → ℕ → Bool
is_used_up none _ = false
is_used_up (some max_uses) used_count = leb max_uses used_count

unfoldable pub is_row_usable : Env → SignupCode → Bool
is_row_usable env c =
    c.is_active && not (is_expired c.expires_at env.now) && not (is_used_up c.max_uses c.used_count)

abbrev pub is_signup_code_usable : Env → Option SignupCode → Bool
is_signup_code_usable env none = false
is_signup_code_usable env (some c) = is_row_usable env c

abbrev pub count_use : ℕ → SignupCode → SignupCode
count_use id c = if c.id == id then record c { used_count = suc c.used_count } else c

-- `row.used_count += 1`, where the row is still usable.
unfoldable pub use_code : Env → Option SignupCode → Store → Store
use_code env none s = s
use_code env (some c) s =
    if is_row_usable env c
    then record s { signup_codes = map (count_use c.id) s.signup_codes }
    else s

abbrev pub initial_signup_status : Env → SignupStatus
initial_signup_status env = if env.auto_approve_new_users then approved else pending

-- The code of a registration: refused with `none`, or the row, if there is one.
abbrev checked_code : Env → Option SignupCode → Option (Option SignupCode)
checked_code env row = if is_signup_code_usable env row then some row else none

abbrev no_code : CodeMode → Option (Option SignupCode)
no_code required = none
no_code _ = some none

abbrev is_off : CodeMode → Bool
is_off off = true
is_off _ = false

unfoldable pub signup_code_for : Env → Text → Store → Option (Option SignupCode)
signup_code_for env signup_code_value s =
    if not (is_off env.signup_code_mode) && not (is_blank signup_code_value)
    then checked_code env (find_signup_code signup_code_value s)
    else no_code env.signup_code_mode

abbrev last_part : List Text → Text
last_part [] = []
last_part (p ∷ []) = p
last_part (_ ∷ p ∷ ps) = last_part (p ∷ ps)

-- The domain stands behind the last "@"; the list holds the allowed domains in lower case.
unfoldable pub is_allowed_signup_email_domain : Env → Text → Bool
is_allowed_signup_email_domain env email =
    let parts = split_on b'@' (lower (strip email)) in
    let domain = strip (last_part parts) in
    not (is_blank domain) && has_at parts && contains_text domain env.allowed_domains
  where
    has_at : List Text → Bool
    has_at [] = false
    has_at (_ ∷ []) = false
    has_at (_ ∷ _ ∷ _) = true

abbrev pub code_of : Option SignupCode → Option Text
code_of none = none
code_of (some c) = some c.code

abbrev pub approval_time : Env → Option ℕ
approval_time env = if env.auto_approve_new_users then some env.now else none
