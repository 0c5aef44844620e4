-- ===== src/Client.antt =====
-- include/boost/mysql/impl/connection.hpp and impl/prepared_statement.hpp, with the rest of
-- impl/resultset.hpp: the members that a program calls. Each operation has three: with the caller's
-- code and info, with exceptions, and asynchronous with a pointer to an info that may be null; the
-- asynchronous one of preparing is left out, since it cannot be instantiated. A statement holds a
-- pointer to its connection's channel, so the members of both work on one channel.
pub mod Connection
pub mod Statement
pub mod Rows
pub mod Laws
pub mod Forms
pub mod Tests
use mysql_asio.Base.{List, [], Bool, Option, none, some, if◌then◌else◌}
use mysql_asio.Base.Error.{
  ErrorCode, ErrorInfo, success, failed, conditional_clear, conditional_assign,
}
use mysql_asio.Algorithms.{◌>>=◌}

-- `clear_errors`
abbrev pub clear_errors : ErrorCode → ErrorInfo → ErrorCode × ErrorInfo
clear_errors err info = (success, [])

-- What a function that may throw does: a `system_error` has the code and the message.
pub data Outcome (A : Type 0) : Type 0 where
  returned : A → Outcome A
  thrown : ErrorCode → ErrorInfo → Outcome A

-- `check_error_code`, before the return of a value.
abbrev pub check_error_code : {A : Type 0} → ErrorCode → ErrorInfo → A → Outcome A
check_error_code code info value = if failed code then thrown code info else returned value

-- `error_block`
pub record ErrorBlock : Type 0 where
  pub code : ErrorCode
  pub info : ErrorInfo

abbrev pub new_error_block : ErrorBlock
new_error_block = record { code = success; info = [] }

abbrev pub check : {A : Type 0} → ErrorBlock → A → Outcome A
check blk value = check_error_code blk.code blk.info value

-- A write alone, whose code goes into the block.
abbrev pub checked_write :
    {C : Type 0} → ErrorBlock → Option (ErrorCode × C) → Option (Outcome Unit × C)
checked_write blk written = do (code, c) ← written; some (check (record blk { code = code }) tt, c)

-- A completion: the caller's info is cleared at first and gets what the operation assigns.
abbrev pub completion :
    {A C : Type 0}
    → Option ErrorInfo
    → Option ((ErrorCode × ErrorInfo × A) × C)
    → Option ((ErrorCode × Option ErrorInfo × A) × C)
completion info run = do
  ((code, message, output), c) ← run
  some ((code, conditional_assign (conditional_clear info) message, output), c)
