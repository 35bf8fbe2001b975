-- ===== src/Tests/PasswordReset.antt =====
-- An account with one code, and a hash that is the identity.
use text.Mathlib.Text.{◌==◌ as str_eq}
use vaketta_backend.Prelude.{◌≡◌, ◌≢◌, ◌⊎◌, ◌↔◌, refl, arith, true, false, none, some, [], ◌∷◌}
use vaketta_backend.PasswordReset.{Hasher, Otp, Store, pending, reset_password, reset_done}
use vaketta_backend.PasswordReset.Laws.{
  pending_count, Guess, OneCode, run_guesses, run_guesses-locked_out,
}
use vaketta_backend.PasswordReset.Outcomes.{
  requested, guessed, handle_all, Accepts, handle_all-OneCode, reset_password-Accepts,
  reset_password_outcome,
}

abbrev plain : Hasher
plain = record { hash_password = λ s. s; compare_password = λ code hash. str_eq code hash }

abbrev otp : Otp
otp = record {
  code_hash = "123456";
  expires_at = 700_000;
  attempts = 0;
  consumed = false;
  created_at = 100_000;
}

abbrev store : Store
store = record {
  user = some (record { password = "old"; is_active = true });
  otps = otp ∷ record otp { code_hash = "654321"; consumed = true } ∷ [];
  revoked_at = none;
}

abbrev right : Guess
right = record { code = "123456"; new_password = "new"; date = 200_000 }

abbrev wrong : Guess
wrong = record right { code = "111111" }

store-OneCode : OneCode store
unfolding pending_count
store-OneCode = omega arith

store-pending : pending store.otps ≡ some otp
unfolding pending
store-pending = refl

run_guesses-locked_out_example :
    (reset_password plain "123456" "new" 200_000
      (run_guesses plain (wrong ∷ wrong ∷ wrong ∷ wrong ∷ wrong ∷ []) store)).1
    ≢ reset_done
run_guesses-locked_out_example =
    run_guesses-locked_out plain store otp (wrong ∷ wrong ∷ wrong ∷ wrong ∷ wrong ∷ []) right
      store-OneCode store-pending (refl, (refl, (refl, (refl, (refl, tt))))) (omega arith)

handle_all-OneCode_example :
    OneCode
      (handle_all plain (guessed wrong ∷ requested "222222" 300_000 ∷ guessed right ∷ []) store)
handle_all-OneCode_example =
    handle_all-OneCode plain (guessed wrong ∷ requested "222222" 300_000 ∷ guessed right ∷ []) store
      store-OneCode

reset_password-Accepts_example :
    ((reset_password plain "123456" "new" 200_000 store).1 ≡ reset_done)
    ↔ Accepts plain "123456" 200_000 store.user (pending store.otps)
reset_password-Accepts_example = reset_password-Accepts plain right store

reset_password_outcome_example :
    let out = reset_password plain "123456" "new" 200_000 store in
    ((out.1 ≡ reset_done) × (out.0.revoked_at ≡ some 200_000) × (pending out.0.otps ≡ none))
    ⊎ ((out.1 ≢ reset_done) × (out.0.user ≡ store.user) × (out.0.revoked_at ≡ store.revoked_at))
reset_password_outcome_example = reset_password_outcome plain right store store-OneCode
