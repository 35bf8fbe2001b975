-- ===== src/PasswordReset/Laws.antt =====
-- Wrong guesses at a one-time code.
use Prim.Native.String.{String}
use native.Mathlib.Nat.{add-zero}
use vaketta_backend.Prelude.{
  ℕ, suc, ◌+◌, ◌-◌, ◌≤◌, ◌≡◌, ◌≢◌, refl, arith, false, Option, none, some, List, [], ◌∷◌, map,
  if◌then◌else◌, length, sum_by, All,
}
use vaketta_backend.PasswordReset.{
  Hasher, Otp, User, Store, max_attempts, pending, update_pending, consume, count_attempt,
  reset_done, reset_with, reset_password,
}

-- How many codes are still pending.
unfoldable pub pending_count : List Otp → ℕ
pending_count os = sum_by (λ o. if o.consumed then 0 else 1) os

-- The guesses that the pending code still allows.
abbrev guesses_of : Option Otp → ℕ
guesses_of none = 0
guesses_of (some o) = max_attempts - o.attempts

unfoldable pub guesses_left : Store → ℕ
guesses_left store = guesses_of (pending store.otps)

pending_count-none : (os : List Otp) → pending_count os ≡ 0 → pending os ≡ none
unfolding pending_count pending
pending_count-none [] h = refl
pending_count-none (o ∷ os) h = ground (arith, pending_count-none os)

pub pending_count-consume : (os : List Otp) → pending_count (map consume os) ≡ 0
unfolding pending_count
pending_count-consume [] = refl
pending_count-consume (o ∷ os) = omega (arith, pending_count-consume os)

pub pending-consume :
    (os : List Otp) → pending_count os ≤ 1 → pending (update_pending consume os) ≡ none
unfolding pending update_pending pending_count
pending-consume [] h = refl
pending-consume (o ∷ os) h = ground (arith, pending-consume os, pending_count-none os)

-- A wrong guess is counted at the pending code, and at no other.
pub pending-count_attempt :
    (os : List Otp) (o : Otp)
    → pending os ≡ some o
    → pending (update_pending count_attempt os) ≡ some (count_attempt o)
unfolding pending update_pending
pending-count_attempt [] o e = ground arith
pending-count_attempt (x ∷ os) o e = ground (arith, pending-count_attempt os o)

pub pending_count-update :
    (f : Otp → Otp) (os : List Otp)
    → ((o : Otp) → o.consumed ≡ false → (f o).consumed ≡ false)
    → pending_count (update_pending f os) ≡ pending_count os
unfolding pending_count update_pending
pending_count-update f [] keep = refl
pending_count-update f (o ∷ os) keep = ground (arith, pending_count-update f os keep, keep o)

pub pending_count-update_consume :
    (os : List Otp) → pending_count (update_pending consume os) ≤ pending_count os
unfolding pending_count update_pending
pending_count-update_consume [] = omega arith
pending_count-update_consume (o ∷ os) = ground (arith, pending_count-update_consume os)

-- At most one code is pending.
abbrev pub OneCode : Store → Type 0
OneCode store = pending_count store.otps ≤ 1

abbrev LockedOtp : String → ℕ → Option User → Option Otp → Type 0
LockedOtp hash n none otp = Unit
LockedOtp hash n (some user) none = Unit
LockedOtp hash n (some user) (some o) = (o.code_hash ≡ hash) × (n ≤ o.attempts)

-- The code with this hash, if it is still pending for an account, has used up `n` guesses, and none
-- else is pending.
unfoldable Locked : String → ℕ → Store → Type 0
Locked hash n store = OneCode store × LockedOtp hash n store.user (pending store.otps)

pub record Guess : Type 0 where
  pub code : String
  pub new_password : String
  pub date : ℕ

unfoldable pub run_guesses : Hasher → List Guess → Store → Store
run_guesses h [] store = store
run_guesses h (g ∷ gs) store =
    run_guesses h gs (reset_password h g.code g.new_password g.date store).0

reset_with-Locked :
    (user : Option User) (otp : Option Otp) (h : Hasher) (g : Guess) (store : Store) (hash : String)
    (n : ℕ)
    → store.user ≡ user
    → pending store.otps ≡ otp
    → OneCode store
    → LockedOtp hash n user otp
    → h.compare_password g.code hash ≡ false
    → Locked hash (suc n) (reset_with user otp h g.code g.new_password g.date store).0
unfolding reset_with Locked
reset_with-Locked none otp h g store hash n u e one l wrong = rw u (one, tt)
reset_with-Locked (some user) none h g store hash n u e one l wrong = rw (u, e) (one, tt)
reset_with-Locked (some user) (some o) h g store hash n u e one l wrong = ground (
  arith,
  pending-consume store.otps one,
  pending-count_attempt store.otps o e,
  pending_count-update_consume store.otps,
  pending_count-update count_attempt store.otps (λ x c. c),
)

reset_password-Locked :
    (h : Hasher) (g : Guess) (store : Store) (hash : String) (n : ℕ)
    → Locked hash n store
    → h.compare_password g.code hash ≡ false
    → Locked hash (suc n) (reset_password h g.code g.new_password g.date store).0
unfolding reset_password Locked
reset_password-Locked h g store hash n l wrong =
    reset_with-Locked store.user (pending store.otps) h g store hash n refl refl l.0 l.1 wrong

run_guesses-Locked :
    (h : Hasher) (gs : List Guess) (store : Store) (hash : String) (n : ℕ)
    → Locked hash n store
    → All (λ g. h.compare_password g.code hash ≡ false) gs
    → Locked hash (n + length gs) (run_guesses h gs store)
unfolding run_guesses
run_guesses-Locked h [] store hash n l wrong = rw (add-zero n) l
run_guesses-Locked h (g ∷ gs) store hash n l wrong =
    let e : n + suc (length gs) ≡ suc n + length gs = omega arith in
    rw e (
      run_guesses-Locked h gs (reset_password h g.code g.new_password g.date store).0 hash (suc n)
        (reset_password-Locked h g store hash n l wrong.0) wrong.1)

reset_with-locked_out :
    (user : Option User) (otp : Option Otp) (h : Hasher) (g : Guess) (store : Store) (hash : String)
    (n : ℕ)
    → LockedOtp hash n user otp
    → max_attempts ≤ n
    → (reset_with user otp h g.code g.new_password g.date store).1 ≢ reset_done
unfolding reset_with
reset_with-locked_out none otp h g store hash n l five = λ e. ground arith
reset_with-locked_out (some user) none h g store hash n l five = λ e. ground arith
reset_with-locked_out (some user) (some o) h g store hash n l five = λ e. ground arith

locked_otp :
    (hash : String) (n : ℕ) (store : Store)
    → Locked hash n store
    → LockedOtp hash n store.user (pending store.otps)
unfolding Locked
locked_otp hash n store l = l.1

-- After five or more wrong guesses at the pending code nothing resets the password, not even the right
-- code: a further attempt, at any time and with any code, does not succeed.
pub run_guesses-locked_out :
    (h : Hasher) (store : Store) (otp : Otp) (gs : List Guess) (last : Guess)
    → OneCode store
    → pending store.otps ≡ some otp
    → All (λ g. h.compare_password g.code otp.code_hash ≡ false) gs
    → max_attempts ≤ length gs
    → (reset_password h last.code last.new_password last.date (run_guesses h gs store)).1
      ≢ reset_done
unfolding reset_password
run_guesses-locked_out h store otp gs last one e wrong five =
    let start : Locked otp.code_hash 0 store =
      unfold Locked in (one, first store.user (pending store.otps) e) in
    let after = run_guesses h gs store in
    let locked : LockedOtp otp.code_hash (0 + length gs) after.user (pending after.otps) =
      locked_otp otp.code_hash (0 + length gs) after
        (run_guesses-Locked h gs store otp.code_hash 0 start wrong) in
    reset_with-locked_out after.user (pending after.otps) h last after otp.code_hash (0 + length gs)
      locked (omega arith)
  where
    first : (user : Option User) (o : Option Otp) → o ≡ some otp → LockedOtp otp.code_hash 0 user o
    first none o p = tt
    first (some user) none p = tt
    first (some user) (some o) p = grind arith
