-- ===== src/Programs/Examples.antt =====
-- The programs at concrete results of their calls.
use boost_asio_cpp_network_p.Common.{◌++◌, replicate, arith}
use boost_asio_cpp_network_p.Asio.{ok, arrives}
use boost_asio_cpp_network_p.Transfer.Reading.{Chunk, complete, message_size, read_from_socket}
use boost_asio_cpp_network_p.Programs.Whole.{data_read, read_session, read_from_socket_enhanced}
use boost_asio_cpp_network_p.Programs.Reads.{read_from_socket_alike}
use boost_asio_cpp_network_p.Common.{◌≡◌, refl, List, [], ◌∷◌, codes}
use boost_asio_cpp_network_p.Asio.{success, eof}
use boost_asio_cpp_network_p.Transfer.{Answer, write_loop}
use boost_asio_cpp_network_p.Programs.{zero_status, value, Connecting}
use boost_asio_cpp_network_p.Programs.Transfers.{write_synchronously, write_asynchronously}
use boost_asio_cpp_network_p.Programs.Exits.{write_asynchronously_failed}

abbrev connected : Connecting
connected = record { make_address_ec = success; open_ec = success; connect_ec = success }

abbrev two_pieces : List Answer
two_pieces =
    record { ec = success; bytes_transferred = 4 }
    ∷ record { ec = success; bytes_transferred = 2 }
    ∷ []

abbrev cut_off : List Answer
cut_off =
    record { ec = success; bytes_transferred = 4 } ∷ record { ec = eof; bytes_transferred = 0 } ∷ []

write_asynchronously_failed_example :
    (write_synchronously connected cut_off ≡ value eof)
    × (write_asynchronously connected cut_off ≡ zero_status)
unfolding write_loop
write_asynchronously_failed_example =
    write_asynchronously_failed connected cut_off eof (codes "Hell") (refl, (refl, (refl, tt))) refl

-- Two chunks, and five more that are not looked at.
abbrev chunks : List Chunk
chunks =
    record { ec = success; received = codes "abc" }
    ∷ record { ec = success; received = codes "defg" }
    ∷ replicate 5 (record { ec = eof; received = [] })

read_from_socket_alike_example :
    (7 ≡ message_size)
    × (read_from_socket chunks ≡ complete (codes "abcdefg"))
    × (read_session (arrives success (codes "abcdefg")) ≡ data_read (codes "abcdefg"))
    × (read_from_socket_enhanced (arrives success (codes "abcdefg"))
        ≡ ok (codes "abcdefg" ++ 0 ∷ []))
read_from_socket_alike_example =
    read_from_socket_alike chunks
      (refl, omega arith, omega arith, (refl, omega arith, omega arith, tt)) (omega arith)
