-- ===== src/Programs/Basics.antt =====
-- The programs of 01_basics. Each argument is the code that a call ends with.
use boost_asio_cpp_network_p.Common.{Option, none, some, List, [], ◌∷◌, Bytes, if◌then◌else◌}
use boost_asio_cpp_network_p.Asio.{ErrorCode, is_error}
use boost_asio_cpp_network_p.Programs.{
  Exit, zero_status, value, return_value, call_uncaught, try_calls, Connecting, connect_then,
}

unfoldable pub active_socket : ErrorCode → Exit
active_socket open_ec = return_value open_ec zero_status

unfoldable pub active_socket_udp : ErrorCode → Exit
active_socket_udp open_ec = return_value open_ec zero_status

unfoldable pub passive_socket : ErrorCode → Exit
passive_socket open_ec = return_value open_ec zero_status

unfoldable pub endpoint_client : ErrorCode → Exit
endpoint_client make_address_ec = return_value make_address_ec zero_status

-- The acceptor is opened by its constructor, outside of any handler.
unfoldable pub binding_socket : ErrorCode → ErrorCode → Exit
binding_socket open_ec bind_ec = call_uncaught open_ec (return_value bind_ec zero_status)

unfoldable pub binding_socket_udp : ErrorCode → ErrorCode → Exit
binding_socket_udp open_ec bind_ec = call_uncaught open_ec (return_value bind_ec zero_status)

unfoldable pub connecting_socket : Connecting → Exit
connecting_socket c = connect_then c zero_status

unfoldable pub listening_socket : ErrorCode → ErrorCode → ErrorCode → ErrorCode → Exit
listening_socket open_ec bind_ec listen_ec accept_ec =
    try_calls (open_ec ∷ bind_ec ∷ listen_ec ∷ accept_ec ∷ []) zero_status

unfoldable pub connecting_socket_dns : ErrorCode → ErrorCode → Exit
connecting_socket_dns resolve_ec connect_ec = try_calls (resolve_ec ∷ connect_ec ∷ []) zero_status

-- What a resolver gives: an error code and the endpoints, here by their texts.
pub record Resolved : Type 0 where
  pub ec : ErrorCode
  pub endpoints : List Bytes

-- A line that is printed: an endpoint, or an error.
pub data Line : Type 0 where
  endpoint : Bytes → Line
  error : ErrorCode → Line

abbrev pub print_all : List Bytes → List Line
print_all [] = []
print_all (e ∷ endpoints) = endpoint e ∷ print_all endpoints

-- dns_resolve.cpp prints the first endpoint; `none` where it reads through the end of the range.
abbrev pub first_line : List Bytes → Option (List Line)
first_line [] = none
first_line (e ∷ endpoints) = some (endpoint e ∷ [])

unfoldable pub dns_resolve : Resolved → Option (List Line) × Exit
dns_resolve r =
    if is_error r.ec
    then (some (error r.ec ∷ []), value r.ec)
    else (first_line r.endpoints, zero_status)

-- dns_resolve_udp.cpp prints all of them.
unfoldable pub dns_resolve_udp : Resolved → List Line × Exit
dns_resolve_udp r =
    if is_error r.ec then (error r.ec ∷ [], value r.ec) else (print_all r.endpoints, zero_status)

-- The loop of dns_resolve_iteration.cpp tests the code in each round.
abbrev pub iterate : ErrorCode → List Bytes → List Line
iterate ec [] = []
iterate ec (e ∷ endpoints) = (if is_error ec then error ec else endpoint e) ∷ iterate ec endpoints

unfoldable pub dns_resolve_iteration : Resolved → List Line × Exit
dns_resolve_iteration r = (iterate r.ec r.endpoints, zero_status)
