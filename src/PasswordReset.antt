-- ===== src/PasswordReset.antt =====
-- Password reset by a one-time code: src/services/passwordReset.service.ts, for one account. Hashing
-- is a parameter, the random code and the clock are arguments, and of the codes stored for the
-- account the latest comes first. Logging is left out.
pub mod Laws
pub mod Outcomes
use Prim.Native.String.{String}
use vaketta_backend.Prelude.{
  ℕ, ◌+◌, ◌-◌, ◌*◌, Bool, true, false, not, Option, none, some, List, [], ◌∷◌, map, ltb, leb,
  if◌then◌else◌,
}

-- What the service uses of src/utils/hash.ts, which passes it on from bcrypt.
pub record Hasher : Type 0 where
  pub hash_password : String → String
  pub compare_password : String → String → Bool

pub record Otp : Type 0 where
  pub code_hash : String
  pub expires_at : ℕ
  pub attempts : ℕ
  pub consumed : Bool
  pub created_at : ℕ

pub record User : Type 0 where
  pub password : String
  pub is_active : Bool

-- The rows of one e-mail address, and the instant at which its sessions were last revoked.
pub record Store : Type 0 where
  pub user : Option User
  pub otps : List Otp
  pub revoked_at : Option ℕ

abbrev pub otp_ttl_ms : ℕ
otp_ttl_ms = 10 * 60 * 1000

abbrev pub max_attempts : ℕ
max_attempts = 5

abbrev pub resend_cooldown : ℕ
resend_cooldown = 60 * 1000

-- `findFirst({ where: { consumed: false }, orderBy: { createdAt: "desc" } })`.
unfoldable pub pending : List Otp → Option Otp
pending [] = none
pending (o ∷ os) = if o.consumed then pending os else some o

-- An update of the row that `pending` finds.
unfoldable pub update_pending : (Otp → Otp) → List Otp → List Otp
update_pending f [] = []
update_pending f (o ∷ os) =
    let rest = update_pending f os in if o.consumed then o ∷ rest else f o ∷ os

abbrev pub consume : Otp → Otp
consume o = record o { consumed = true }

abbrev pub count_attempt : Otp → Otp
count_attempt o = record o { attempts = o.attempts + 1 }

-- A code was sent less than a minute ago and is still pending.
unfoldable pub in_cooldown : Option Otp → ℕ → Bool
in_cooldown none now = false
in_cooldown (some recent) now = ltb (now - recent.created_at) resend_cooldown

unfoldable pub issue_code : Hasher → String → ℕ → Store → Store
issue_code h code now store = record store {
  otps =
      record {
        code_hash = h.hash_password code;
        expires_at = now + otp_ttl_ms;
        attempts = 0;
        consumed = false;
        created_at = now;
      }
      ∷ map consume store.otps;
}

unfoldable pub request_for : Option User → Hasher → String → ℕ → Store → Store × Option String
unfolding in_cooldown
request_for none h code now store = (store, none)
request_for (some user) h code now store =
    if not user.is_active
    then (store, none)
    else (if in_cooldown (pending store.otps) now
        then (store, none)
        else (issue_code h code now store, some code))

-- The store after a request, and the code that is sent by e-mail, if one is.
unfoldable pub request_password_reset : Hasher → String → ℕ → Store → Store × Option String
unfolding request_for
request_password_reset h code now store = request_for store.user h code now store

pub data ResetResult : Type 0 where
  reset_done invalid_code expired_code too_many_attempts : ResetResult

unfoldable pub reset_with :
    Option User → Option Otp → Hasher → String → String → ℕ → Store → Store × ResetResult
reset_with none otp h code new_password now store = (store, invalid_code)
reset_with (some user) none h code new_password now store = (store, invalid_code)
reset_with (some user) (some otp) h code new_password now store =
    if ltb otp.expires_at now
    then (record store { otps = update_pending consume store.otps }, expired_code)
    else (if leb max_attempts otp.attempts
        then (record store { otps = update_pending consume store.otps }, too_many_attempts)
        else (if not (h.compare_password code otp.code_hash)
            then (record store { otps = update_pending count_attempt store.otps }, invalid_code)
            else (
              record store {
                user = some (record user { password = h.hash_password new_password });
                otps = update_pending consume store.otps;
                revoked_at = some now;
              },
              reset_done,
            )))

unfoldable pub reset_password : Hasher → String → String → ℕ → Store → Store × ResetResult
unfolding reset_with
reset_password h code new_password now store =
    reset_with store.user (pending store.otps) h code new_password now store
