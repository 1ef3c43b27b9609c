-- ===== src/Programs/Transfers.antt =====
-- The main functions of 02_io_operations. Each connects, and then moves its data.
use boost_asio_cpp_network_p.Common.{List, []}
use boost_asio_cpp_network_p.Transfer.{
  Answer, Written, finished, failed, waiting, write_loop, write_to_socket, hello,
}
use boost_asio_cpp_network_p.Transfer.{run as run_writes}
use boost_asio_cpp_network_p.Transfer.{outcome as write_outcome}
use boost_asio_cpp_network_p.Transfer.Reading.{
  Chunk, Read, read_from_socket, start_reading, message_size,
}
use boost_asio_cpp_network_p.Transfer.Reading.{run as run_reads}
use boost_asio_cpp_network_p.Transfer.Reading.{outcome as read_outcome}
use boost_asio_cpp_network_p.Programs.{Exit, zero_status, value, blocked, Connecting, connect_then}

-- The end of a blocking loop: what it throws reaches main's handler.
abbrev pub exit_of_written : Written → Exit
exit_of_written (finished out) = zero_status
exit_of_written (failed ec out) = value ec
exit_of_written (waiting out) = blocked

abbrev pub exit_of_read : Read → Exit
exit_of_read (Read.complete message) = zero_status
exit_of_read (Read.failed ec) = value ec
exit_of_read (Read.waiting buf) = blocked

-- The end of io_context::run: the callback prints an error and no more.
abbrev pub exit_of_session : Written → Exit
exit_of_session (waiting out) = blocked
exit_of_session _ = zero_status

abbrev pub exit_of_reading : Read → Exit
exit_of_reading (Read.waiting buf) = blocked
exit_of_reading _ = zero_status

unfoldable pub write_synchronously : Connecting → List Answer → Exit
write_synchronously c answers = connect_then c (exit_of_written (write_loop answers hello 0 []))

unfoldable pub write_asynchronously : Connecting → List Answer → Exit
write_asynchronously c answers =
    connect_then c (exit_of_session (write_outcome (run_writes answers (write_to_socket hello))))

unfoldable pub read_synchronously : Connecting → List Chunk → Exit
read_synchronously c chunks = connect_then c (exit_of_read (read_from_socket chunks))

unfoldable pub read_asynchronously : Connecting → List Chunk → Exit
read_asynchronously c chunks =
    connect_then c (exit_of_reading (read_outcome (run_reads chunks (start_reading message_size))))

-- sendToSocketWithoutRoute of send_synchronously.cpp is the loop of write_synchronously.cpp over
-- send() under message_do_not_route.
unfoldable pub send_to_socket : List Answer → Written
send_to_socket answers = write_loop answers hello 0 []

unfoldable pub send_synchronously : Connecting → List Answer → Exit
send_synchronously c answers = connect_then c (exit_of_written (send_to_socket answers))

-- The callback and writeToSocket of send_asynchronously.cpp are those of write_asynchronously.cpp
-- over async_send under message_do_not_route.
unfoldable pub send_session : List Answer → Written
send_session answers = write_outcome (run_writes answers (write_to_socket hello))

unfoldable pub send_asynchronously : Connecting → List Answer → Exit
send_asynchronously c answers = connect_then c (exit_of_session (send_session answers))

-- readFromSocket of receive_synchronously.cpp is that of read_synchronously.cpp over receive().
unfoldable pub receive_from_socket : List Chunk → Read
receive_from_socket chunks = read_from_socket chunks

unfoldable pub receive_synchronously : Connecting → List Chunk → Exit
receive_synchronously c chunks = connect_then c (exit_of_read (receive_from_socket chunks))

-- The callback and readFromSocket of receive_asynchronously.cpp are those of
-- read_asynchronously.cpp over async_receive.
unfoldable pub receive_session : List Chunk → Read
receive_session chunks = read_outcome (run_reads chunks (start_reading message_size))

unfoldable pub receive_asynchronously : Connecting → List Chunk → Exit
receive_asynchronously c chunks = connect_then c (exit_of_reading (receive_session chunks))
