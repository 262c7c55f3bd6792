-- ===== src/Buffer/Retry.antt =====
-- `writeWithRetry` of internal/buffer/buffer_manager.go, over what the database answers.
pub mod Laws
use ztelem.Prelude.{
  ℕ, zero, suc, Bool, true, false, Bytes, Option, none, some, if◌then◌else◌, ℤ, pos_part,
}
use ztelem.Config.{DatabaseWriterConfig}

-- What one call of `writeFunc` comes to before the attempt's deadline. An insert that is too late goes
-- on in its goroutine and may still land in the table.
pub data Outcome : Type 0 where
  succeeded : Outcome
  failed : Bytes → Outcome
  timed_out : Bool → Outcome

pub data LastErr : Type 0 where
  insert_error : Bytes → LastErr
  write_timeout : LastErr

-- "写入失败，已重试 %d 次: %v"
pub data WriteError : Type 0 where
  exhausted : ℤ → Option LastErr → WriteError

-- The error, the number of the database's next call, and how many inserts of the batch landed.
pub record Written : Type 0 where
  pub error : Option WriteError
  pub next_call : ℕ
  pub copies : ℕ

-- `left` attempts are left; the call numbered `call` is the next.
unfoldable pub retry_loop : (ℕ → Outcome) → ℤ → ℕ → ℕ → Option LastErr → ℕ → Written
retry_loop db attempts zero call last_err copies = record {
  error = some (exhausted attempts last_err);
  next_call = call;
  copies = copies;
}
retry_loop db attempts (suc left) call last_err copies = elim (db call) [
  | succeeded ↦ record { error = none; next_call = suc call; copies = suc copies }
  | failed e ↦ retry_loop db attempts left (suc call) (some (insert_error e)) copies
  | timed_out landed ↦
      retry_loop db attempts left (suc call) (some write_timeout)
        (if landed then suc copies else copies)
]

-- `attempt < RetryAttempts` holds of no attempt where the setting is negative.
unfoldable pub write_with_retry : DatabaseWriterConfig → (ℕ → Outcome) → ℕ → Written
write_with_retry cfg db call =
    retry_loop db cfg.retry_attempts (pos_part cfg.retry_attempts) call none 0
