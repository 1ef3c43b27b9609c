-- ===== src/Shutdown/Code.antt =====
-- communicate of shutdown_send_client.cpp and processRequest of shutdown_send_server.cpp, given how
-- the calls on the socket end.
use boost_asio_cpp_network_p.Common.{ℕ, zero, suc, List, [], ◌∷◌, Bytes, length, if◌then◌else◌}
use boost_asio_cpp_network_p.Asio.{ErrorCode, Result, ok, throws, ◌>>◌, check, is_eof}
use boost_asio_cpp_network_p.Cxx.Stream.{Stream, fresh, getline}

-- request_buf of the client and response_buf of the server.
abbrev pub request : Bytes
request = 0x48 ∷ 0x65 ∷ 0 ∷ 0x6c ∷ 0x6c ∷ 0x6f ∷ []

abbrev pub response : Bytes
response = 0x48 ∷ 0x69 ∷ 0x21 ∷ []

-- The loop that prints what was read, line by line, until getline fails. A round takes a character,
-- or sets eofbit, so two more rounds than there are characters are enough.
unfoldable pub print_lines : ℕ → Stream → List Bytes
print_lines zero is = []
print_lines (suc fuel) is =
    let r = getline 10 [] is in
    let rest = print_lines fuel r.1 in if r.1.failbit then [] else r.0 ∷ rest

unfoldable pub print_message : Bytes → List Bytes
print_message buf = print_lines (suc (suc (length buf))) (fresh buf)

-- What was printed, and how the function ends.
unfoldable pub communicate : ErrorCode → ErrorCode → ErrorCode → Bytes → Result (List Bytes)
communicate write_ec shutdown_ec read_ec response_buf =
    check write_ec
    >> check shutdown_ec
    >> (if is_eof read_ec then ok (print_message response_buf) else throws read_ec)

-- The server prints whatever it has read before it looks at the code.
unfoldable pub process_request :
    ErrorCode → Bytes → ErrorCode → ErrorCode → List Bytes × Result (Unit {0})
process_request read_ec request_buf write_ec shutdown_ec = (
  print_message request_buf,
  if is_eof read_ec then check write_ec >> check shutdown_ec else throws read_ec,
)
