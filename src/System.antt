-- ===== src/System.antt =====
-- src/key_value/kv_system.h and the enumerations of src/dictionary/dictionary_types.h: the error
-- codes, the result of an operation, and the types that the dictionaries share.
use iondb.Base.{ℕ, Bool, true, false}

pub data ErrorCode : Type 0 where
  err_ok err_item_not_found err_duplicate_key err_max_capacity : ErrorCode
  err_dictionary_destruction_error err_invalid_predicate err_out_of_memory : ErrorCode
  err_file_write_error err_file_read_error err_file_open_error err_file_close_error : ErrorCode
  err_file_delete_error err_unable_to_insert err_file_bad_seek err_file_hit_eof : ErrorCode
  err_not_implemented err_invalid_initial_size err_duplicate_dictionary_error : ErrorCode
  err_uninitialized err_out_of_bounds err_sorted_order_violation : ErrorCode

-- `ion_status_t`
pub record Status : Type 0 where
  pub error : ErrorCode
  pub count : ℕ

-- `ION_STATUS_OK`
abbrev pub status_ok : ℕ → Status
status_ok n = record { error = err_ok; count = n }

-- `ION_STATUS_ERROR`
abbrev pub status_error : ErrorCode → Status
status_error e = record { error = e; count = 0 }

-- The sign of the result of a comparison function.
pub data Comparison : Type 0 where
  a_lt_b a_equ_b a_gt_b : Comparison

-- `compare(…) == ION_IS_EQUAL`
abbrev pub is_equal : Comparison → Bool
is_equal a_equ_b = true
is_equal a_lt_b = false
is_equal a_gt_b = false

pub data WriteConcern : Type 0 where
  wc_update wc_insert_unique wc_duplicate : WriteConcern

pub data CursorStatus : Type 0 where
  cs_invalid_index cs_invalid_cursor cs_end_of_results cs_cursor_initialized : CursorStatus
  cs_cursor_uninitialized cs_cursor_active cs_possible_data_inconsistency : CursorStatus

-- `ION_MAX_FILENAME_LENGTH`
abbrev pub max_filename_length : ℕ
max_filename_length = 12
