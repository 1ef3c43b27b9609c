-- ===== src/Programs/Whole.antt =====
-- The examples of 02_io_operations that leave the loop to a free function of the library, write,
-- read or read_until. What such a call ends with is an argument.
use boost_asio_cpp_network_p.Common.{
  ℕ, suc, ◌-◌, List, [], ◌∷◌, ◌++◌, Bytes, length, take, if◌then◌else◌,
}
use boost_asio_cpp_network_p.Asio.{
  ErrorCode, Completion, Result, ok, throws, aborts, ◌>>◌, check, is_error,
}
use boost_asio_cpp_network_p.Cxx.Stream.{fresh, getline}
use boost_asio_cpp_network_p.Transfer.{Answer, hello}
use boost_asio_cpp_network_p.Transfer.Reading.{message_size, zeros, store}
use boost_asio_cpp_network_p.Programs.{
  Exit, zero_status, value, terminated, Connecting, connect_then,
}

-- What reaches main's handler is thrown by the last call.
abbrev pub exit_of_result {ℓ} : {A : Type ℓ} → Result A → Exit
exit_of_result (ok a) = zero_status
exit_of_result (throws ec) = value ec
exit_of_result aborts = terminated

-- write() gives the number of bytes, which is printed.
unfoldable pub write_to_socket_enhanced : Answer → Result ℕ
write_to_socket_enhanced a = check a.ec >> ok a.bytes_transferred

unfoldable pub write_free_synchronously : Connecting → Answer → Exit
write_free_synchronously c a = connect_then c (exit_of_result (write_to_socket_enhanced a))

-- The code calls async_write_some, which writes a part. The session is what is written and the
-- errors that the callback prints.
unfoldable pub write_some_session : Answer → Bytes × List ErrorCode
write_some_session a =
    if is_error a.ec then ([], a.ec ∷ []) else (take a.bytes_transferred hello, [])

unfoldable pub write_free_asynchronously : Connecting → Answer → Exit × (Bytes × List ErrorCode)
write_free_asynchronously c a = (connect_then c zero_status, write_some_session a)

-- std::string::resize.
abbrev pub resize : ℕ → Bytes → Bytes
resize n s = take n s ++ zeros (n - length s)

-- read() fills the buffer from its beginning; one '\0' is added to what came.
unfoldable pub read_from_socket_enhanced : Completion → Result Bytes
read_from_socket_enhanced c =
    check c.ec >> ok (resize (suc (length c.received)) (store 0 c.received (zeros message_size)))

unfoldable pub read_free_synchronously : Connecting → Completion → Exit
read_free_synchronously c r = connect_then c (exit_of_result (read_from_socket_enhanced r))

-- What a callback prints: the data, or an error.
pub data Shown : Type 0 where
  data_read : Bytes → Shown
  error : ErrorCode → Shown

unfoldable pub read_session : Completion → Shown
read_session c =
    if is_error c.ec then Shown.error c.ec else data_read (store 0 c.received (zeros message_size))

unfoldable pub read_free_asynchronously : Connecting → Completion → Exit × Shown
read_free_asynchronously c r = (connect_then c zero_status, read_session r)

-- read_until_synchronously.cpp and read_until_asynchronously.cpp take a line out of the buffer.
unfoldable pub read_from_socket_delim : Completion → Result Bytes
read_from_socket_delim c = check c.ec >> ok (getline 10 [] (fresh c.received)).0

unfoldable pub read_until_synchronously : Connecting → Completion → Exit
read_until_synchronously c r = connect_then c (exit_of_result (read_from_socket_delim r))

unfoldable pub read_until_session : Completion → Shown
read_until_session c =
    if is_error c.ec then Shown.error c.ec else data_read (getline 10 [] (fresh c.received)).0

unfoldable pub read_until_asynchronously : Connecting → Completion → Exit × Shown
read_until_asynchronously c r = (connect_then c zero_status, read_until_session r)
