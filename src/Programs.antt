-- ===== src/Programs.antt =====
-- The main functions as their callers see them: what a program ends with. A call that is told no
-- error code throws, and a system_error that main catches ends the program with the code's value.
pub mod Basics
pub mod Transfers
pub mod Whole
mod Exits
mod Reads
mod Examples
use boost_asio_cpp_network_p.Common.{Bool, true, false, List, [], ◌∷◌, if◌then◌else◌}
use boost_asio_cpp_network_p.Asio.{ErrorCode, is_error, Result, ok, throws, aborts}

-- The exit status, which is 0 or the value of an error code; or std::terminate, for an exception
-- with no handler; or a call that does not return.
pub data Exit : Type 0 where
  zero_status : Exit
  value : ErrorCode → Exit
  terminated : Exit
  blocked : Exit

-- `if (ec) return ec.value();`, and what comes after.
unfoldable pub return_value : ErrorCode → Exit → Exit
return_value ec rest = if is_error ec then value ec else rest

-- A call outside of every try block.
unfoldable pub call_uncaught : ErrorCode → Exit → Exit
call_uncaught ec rest = if is_error ec then terminated else rest

-- The calls of a try block whose handler returns the code's value, in their order.
unfoldable pub try_calls : List ErrorCode → Exit → Exit
try_calls [] rest = rest
try_calls (ec ∷ codes) rest = return_value ec (try_calls codes rest)

-- The destructor of a thread that is still joinable calls std::terminate; what comes after it.
abbrev pub destroy_thread : Bool → Exit → Exit
destroy_thread joinable rest = if joinable then terminated else rest

-- The client examples make the address, open the socket and connect it.
pub record Connecting : Type 0 where
  pub make_address_ec : ErrorCode
  pub open_ec : ErrorCode
  pub connect_ec : ErrorCode

abbrev pub connecting_codes : Connecting → List ErrorCode
connecting_codes c = c.make_address_ec ∷ c.open_ec ∷ c.connect_ec ∷ []

unfoldable pub connect_then : Connecting → Exit → Exit
connect_then c rest = try_calls (connecting_codes c) rest
