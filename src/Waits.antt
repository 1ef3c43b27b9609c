-- ===== src/Waits.antt =====
-- Asynchronous operations that another part of the program may cancel: steady_timers.cpp of
-- 06_other and cancel_async_io.cpp of 02_io_operations.
pub mod Timers
pub mod Cancelling
mod Ends
mod Finishing
mod Joined
mod Joining
mod Examples
use boost_asio_cpp_network_p.Common.{List, [], ◌∷◌, ◌++◌, if◌then◌else◌}
use boost_asio_cpp_network_p.Asio.{ErrorCode, operation_aborted, is_error, is_aborted}

-- An operation is pending, has ended with a code that its handler has still to be given, or its
-- handler has run.
pub data Wait : Type 0 where
  pending : Wait
  ended : ErrorCode → Wait
  handled : ErrorCode → Wait

-- An operation that is no longer pending is not changed.
unfoldable pub end_with : ErrorCode → Wait → Wait
end_with ec Wait.pending = ended ec
end_with ec w = w

-- What Boost.Asio documents of cancel(): a pending operation ends with operation_aborted.
unfoldable pub cancel : Wait → Wait
cancel w = end_with operation_aborted w

-- What a handler prints.
pub data Printed : Type 0 where
  has_expired : Printed
  has_been_cancelled : Printed
  error_occured : ErrorCode → Printed
