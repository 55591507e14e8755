-- ===== src/Errors.antt =====
-- core/errors.py: the classes of errors, with the identifier and the exit code that each is given.
-- Messages, hints and contexts are texts for the reader and are left out.
pub mod Calls
use dbtv.Common.{ℕ, String, ◌≡◌, ◌≢◌, refl, Bool, true, false, arith}

pub data DbtvError : Type 0 where
  internal_error config_error project_error dbt_invocation_error manifest_error : DbtvError
  offline_violation credential_error source_connection_error extraction_error : DbtvError
  policy_error cache_error lock_error binding_error compatibility_error : DbtvError
  cancellation_error : DbtvError

unfoldable pub error_id : DbtvError → String
error_id internal_error = "DBTV-INTERNAL-001"
error_id config_error = "DBTV-CONFIG-001"
error_id project_error = "DBTV-PROJECT-001"
error_id dbt_invocation_error = "DBTV-DBT-001"
error_id manifest_error = "DBTV-MANIFEST-001"
error_id offline_violation = "DBTV-OFFLINE-001"
error_id credential_error = "DBTV-CREDENTIAL-001"
error_id source_connection_error = "DBTV-SOURCE-CONNECTION-001"
error_id extraction_error = "DBTV-EXTRACTION-001"
error_id policy_error = "DBTV-POLICY-001"
error_id cache_error = "DBTV-CACHE-001"
error_id lock_error = "DBTV-LOCK-001"
error_id binding_error = "DBTV-BINDING-001"
error_id compatibility_error = "DBTV-COMPAT-001"
error_id cancellation_error = "DBTV-CANCELLED-001"

unfoldable pub exit_code : DbtvError → ℕ
exit_code internal_error = 10
exit_code config_error = 2
exit_code project_error = 3
exit_code dbt_invocation_error = 3
exit_code manifest_error = 3
exit_code offline_violation = 7
exit_code credential_error = 4
exit_code source_connection_error = 4
exit_code extraction_error = 5
exit_code policy_error = 6
exit_code cache_error = 7
exit_code lock_error = 7
exit_code binding_error = 8
exit_code compatibility_error = 9
exit_code cancellation_error = 130

infixl 5 ◌>>=◌ ◌>>◌
-- What a call that may raise returns.
pub data Result {ℓ} (A : Type ℓ) : Type ℓ where
  err : DbtvError → Result A
  ok : A → Result A

-- `if not test: raise e`.
abbrev pub require : Bool → DbtvError → Result (Unit {0})
require false e = err e
require true e = ok tt

-- The next statement, with the value of the call before it.
abbrev pub ◌>>=◌ {μ ν} :
    {Value : Type μ} {Next : Type ν} → Result Value → (Value → Result Next) → Result Next
err raised >>= next = err raised
ok value >>= next = next value

-- The next statement, for a call without a value.
abbrev pub ◌>>◌ {μ} : {Next : Type μ} → Result (Unit {0}) → Result Next → Result Next
call >> next = call >>= λ _. next

-- A sequence of two calls that returns a value has two calls that return.
pub >>=-eq-ok {μ ν} :
    {Value : Type μ} {Next : Type ν} (call : Result Value) (next : Value → Result Next)
    {last : Next}
    → (call >>= next) ≡ ok last
    → (value : Value) × (call ≡ ok value) × (next value ≡ ok last)
>>=-eq-ok (err raised) next e = cc
>>=-eq-ok (ok value) next e = (value, refl, e)

pub ok_inj {ℓ} : {A : Type ℓ} {a b : A} → ok a ≡ ok b → a ≡ b
ok_inj h = cc

pub err-ne-ok {ℓ κ} : {A : Type ℓ} {B : Type κ} {e : DbtvError} {a : A} → err e ≡ ok a → B
err-ne-ok h = cc

-- An error never has the exit code of a run that succeeded (0) or whose dbt step failed (1).
exit_code-ne : (e : DbtvError) → (exit_code e ≢ 0) × (exit_code e ≢ 1)
unfolding exit_code
exit_code-ne e = ground arith
