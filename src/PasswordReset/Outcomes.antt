-- ===== src/PasswordReset/Outcomes.antt =====
-- What requests and attempts do to the codes of an account, in any order.
use Prim.Native.String.{String}
use vaketta_backend.Prelude.{
  ℕ, ◌≤◌, ◌<◌, ◌≡◌, ◌≢◌, ◌⊎◌, ◌↔◌, inr, refl, arith, true, Option, none, some, List, [], ◌∷◌, map,
  if◌then◌else◌, sum_by,
}
use vaketta_backend.PasswordReset.{
  Hasher, Otp, User, Store, max_attempts, pending, consume, count_attempt, issue_code, request_for,
  request_password_reset, reset_done, reset_with, reset_password,
}
use vaketta_backend.PasswordReset.Laws.{
  pending_count, OneCode, Guess, pending_count-consume, pending-consume, pending_count-update,
  pending_count-update_consume,
}

-- Every way a code may be used: sent on request, or guessed.
pub data Event : Type 0 where
  requested : String → ℕ → Event
  guessed : Guess → Event

unfoldable pub handle : Hasher → Event → Store → Store
handle h (requested code date) store = (request_password_reset h code date store).0
handle h (guessed g) store = (reset_password h g.code g.new_password g.date store).0

unfoldable pub handle_all : Hasher → List Event → Store → Store
handle_all h [] store = store
handle_all h (e ∷ es) store = handle_all h es (handle h e store)

request_for-OneCode :
    (user : Option User) (h : Hasher) (code : String) (date : ℕ) (store : Store)
    → OneCode store
    → OneCode (request_for user h code date store).0
unfolding request_for issue_code pending_count
request_for-OneCode none h code date store one = one
request_for-OneCode (some user) h code date store one =
    let fresh : pending_count (map consume store.otps) ≡ 0 = pending_count-consume store.otps in
    let fresh' : sum_by (λ o. if o.consumed then 0 else 1) (map consume store.otps) ≡ 0 =
      unfold pending_count in fresh in
    ground arith

reset_with-OneCode :
    (user : Option User) (otp : Option Otp) (h : Hasher) (g : Guess) (store : Store)
    → OneCode store
    → OneCode (reset_with user otp h g.code g.new_password g.date store).0
unfolding reset_with
reset_with-OneCode none otp h g store one = one
reset_with-OneCode (some user) none h g store one = one
reset_with-OneCode (some user) (some o) h g store one = ground (
  arith,
  pending_count-update_consume store.otps,
  pending_count-update count_attempt store.otps (λ x c. c),
)

handle-OneCode :
    (h : Hasher) (e : Event) (store : Store) → OneCode store → OneCode (handle h e store)
unfolding handle reset_password request_password_reset
handle-OneCode h (requested code date) store one =
    request_for-OneCode store.user h code date store one
handle-OneCode h (guessed g) store one =
    reset_with-OneCode store.user (pending store.otps) h g store one

-- Whatever is requested and guessed, in any order, no two codes of an account are pending at once.
pub handle_all-OneCode :
    (h : Hasher) (es : List Event) (store : Store) → OneCode store → OneCode (handle_all h es store)
unfolding handle_all
handle_all-OneCode h [] store one = one
handle_all-OneCode h (e ∷ es) store one =
    handle_all-OneCode h es (handle h e store) (handle-OneCode h e store one)

-- What a pending code must be for an attempt to succeed.
abbrev pub Accepts : Hasher → String → ℕ → Option User → Option Otp → Type 0
Accepts h code date none otp = ⊥
Accepts h code date (some user) none = ⊥
Accepts h code date (some user) (some o) =
    (date ≤ o.expires_at)
    × (o.attempts < max_attempts)
    × (h.compare_password code o.code_hash ≡ true)

reset_with-Accepts :
    (user : Option User) (otp : Option Otp) (h : Hasher) (g : Guess) (store : Store)
    → ((reset_with user otp h g.code g.new_password g.date store).1 ≡ reset_done)
      ↔ Accepts h g.code g.date user otp
unfolding reset_with
reset_with-Accepts none otp h g store = ground arith
reset_with-Accepts (some user) none h g store = ground arith
reset_with-Accepts (some user) (some o) h g store = (λ e. ground arith, λ e. ground arith)

-- An attempt resets the password exactly when the account exists and has a pending code that is not
-- over its time, has had fewer than five wrong guesses, and is the code given.
pub reset_password-Accepts :
    (h : Hasher) (g : Guess) (store : Store)
    → ((reset_password h g.code g.new_password g.date store).1 ≡ reset_done)
      ↔ Accepts h g.code g.date store.user (pending store.otps)
unfolding reset_password
reset_password-Accepts h g store = reset_with-Accepts store.user (pending store.otps) h g store

reset_with-outcome :
    (user : Option User) (otp : Option Otp) (h : Hasher) (g : Guess) (store : Store)
    → store.user ≡ user
    → OneCode store
    → let out = reset_with user otp h g.code g.new_password g.date store in
      ((out.1 ≡ reset_done) × (out.0.revoked_at ≡ some g.date) × (pending out.0.otps ≡ none))
      ⊎ ((out.1 ≢ reset_done) × (out.0.user ≡ store.user) × (out.0.revoked_at ≡ store.revoked_at))
unfolding reset_with
reset_with-outcome none otp h g store u one = inr ((λ e. ground arith), refl, refl)
reset_with-outcome (some user) none h g store u one = inr ((λ e. ground arith), refl, refl)
reset_with-outcome (some user) (some o) h g store u one =
    ground (arith, pending-consume store.otps one)

-- Where at most one code is pending, an attempt that succeeds revokes the sessions and leaves no code
-- pending, and any other leaves the account and its sessions as they were.
pub reset_password_outcome :
    (h : Hasher) (g : Guess) (store : Store)
    → OneCode store
    → let out = reset_password h g.code g.new_password g.date store in
      ((out.1 ≡ reset_done) × (out.0.revoked_at ≡ some g.date) × (pending out.0.otps ≡ none))
      ⊎ ((out.1 ≢ reset_done) × (out.0.user ≡ store.user) × (out.0.revoked_at ≡ store.revoked_at))
unfolding reset_password
reset_password_outcome h g store one =
    reset_with-outcome store.user (pending store.otps) h g store refl one
