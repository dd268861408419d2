-- ===== src/Error.antt =====
-- include/modb/error.hpp: `Result<T>` is `std::expected<T, Error>`. An error is its code; the message
-- of `Error` only explains the code to a person and is not modelled.
use mo_db.Prelude.{ap, ◌≡◌, ◌≢◌, refl, ◌⊎◌, inl, inr}

pub data ErrorCode : Type 0 where
  invalid_identifier invalid_argument empty_schema duplicate_column column_not_found : ErrorCode
  value_count_mismatch type_mismatch null_constraint_violation duplicate_table table_not_found :
      ErrorCode
  file_already_exists file_not_found io_error invalid_file_format incompatible_format_version :
      ErrorCode
  corrupt_file page_not_found reserved_page unexpected_end_of_input invalid_encoding : ErrorCode
  trailing_data value_too_large too_many_columns invalid_page_format incompatible_page_version :
      ErrorCode
  corrupt_page page_full slot_not_found record_too_large page_chain_cycle : ErrorCode
  record_not_found duplicate_field field_not_found duplicate_type type_not_found : ErrorCode
  invalid_object_id binding_mismatch incompatible_projection transaction_required
        transaction_active :
      ErrorCode
  transaction_committed commit_recovery_required database_recovery_required wal_corrupt
        snapshot_conflict :
      ErrorCode
  protocol_error frame_too_large connection_closed operation_not_found incompatible_module :
      ErrorCode
  incompatible_protocol_version facade_not_found facade_method_not_found incompatible_facade_version
        invalid_edge :
      ErrorCode
  edge_target_not_found graph_limit_exceeded graph_cycle replica_read_only replication_gap :
      ErrorCode
  timeline_mismatch database_uuid_mismatch bootstrap_required invalid_instance_config
        data_files_disabled :
      ErrorCode
  no_data_replica commit_await_replica_timeout invalid_replica_state replica_download_failed
        manifest_hash_mismatch :
      ErrorCode
  conflict internal_error operation_timeout unauthenticated permission_denied : ErrorCode

-- `std::expected<T, Error>`: the value, or the code.
pub data Result {ℓ} (T : Type ℓ) : Type ℓ where
  err : ErrorCode → Result T
  ok : T → Result T

pub err-ne-ok {ℓ} : {T : Type ℓ} (code : ErrorCode) (value : T) → err code ≢ ok value
err-ne-ok code value h = cc

-- The early return of an error, written `if (!result) return std::unexpected(...)`.
infixl 5 ◌>>=◌
abbrev pub ◌>>=◌ {ℓ κ} : {S : Type ℓ} {T : Type κ} → Result S → (S → Result T) → Result T
err code >>= next = err code
ok value >>= next = next value

-- The same where the result carries no value.
infixl 5 ◌>>◌
abbrev pub ◌>>◌ {ℓ} : {T : Type ℓ} → Result (Unit {0}) → Result T → Result T
first >> second = first >>= λ _. second

pub Result-cases {ℓ} :
    {A : Type ℓ} (r : Result A) → ((a : A) × (r ≡ ok a)) ⊎ ((e : ErrorCode) × (r ≡ err e))
Result-cases (ok a) = inl (a, refl)
Result-cases (err e) = inr (e, refl)

-- Inversion of a chain that succeeded.
pub >>=-eq-ok {ℓ κ} :
    {S : Type ℓ} {T : Type κ} (first : Result S) (next : S → Result T) {result : T}
    → (first >>= next) ≡ ok result
    → (value : S) × (first ≡ ok value) × (next value ≡ ok result)
>>=-eq-ok (err code) next h = cc
>>=-eq-ok (ok value) next h = (value, refl, h)

pub >>=-ok {ℓ κ} :
    {A : Type ℓ} {B : Type κ} (m : Result A) (f : A → Result B) (a : A) → m ≡ ok a → (m >>= f) ≡ f a
>>=-ok {A} m f a e = ap (λ (r : Result A). r >>= f) e
