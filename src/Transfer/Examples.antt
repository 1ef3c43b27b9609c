-- ===== src/Transfer/Examples.antt =====
-- The message of write_synchronously.cpp in pieces.
use boost_asio_cpp_network_p.Common.{◌≡◌, refl, List, [], ◌∷◌, codes, arith}
use boost_asio_cpp_network_p.Asio.{success, eof}
use boost_asio_cpp_network_p.Transfer.{
  Answer, finished, write_loop, run, write_to_socket, outcome, hello,
}
use boost_asio_cpp_network_p.Transfer.Completeness.{run-write_to_socket, write_loop_finishes}
use boost_asio_cpp_network_p.Common.{replicate}
use boost_asio_cpp_network_p.Transfer.Reading.{Chunk, read_loop, start_reading, zeros}
use boost_asio_cpp_network_p.Transfer.Reading.{run as run_reads}
use boost_asio_cpp_network_p.Transfer.Reading.{outcome as read_outcome}
use boost_asio_cpp_network_p.Transfer.Reading.Received.{run-start_reading}

abbrev pieces : List Answer
pieces =
    record { ec = success; bytes_transferred = 4 }
    ∷ record { ec = success; bytes_transferred = 2 }
    ∷ record { ec = eof; bytes_transferred = 0 }
    ∷ record { ec = eof; bytes_transferred = 0 }
    ∷ record { ec = eof; bytes_transferred = 0 }
    ∷ record { ec = eof; bytes_transferred = 0 }
    ∷ []

run-write_to_socket_example :
    outcome (run pieces (write_to_socket hello)) ≡ write_loop pieces hello 0 []
run-write_to_socket_example = run-write_to_socket pieces 72 (codes "ello\n")

write_loop_finishes_example : write_loop pieces hello 0 [] ≡ finished hello
write_loop_finishes_example =
    write_loop_finishes pieces hello
      (refl, omega arith, omega arith, (refl, omega arith, omega arith, tt)) (omega arith)

-- Two chunks, and five more that are not looked at.
abbrev chunks : List Chunk
chunks =
    record { ec = success; received = codes "abc" }
    ∷ record { ec = success; received = codes "defg" }
    ∷ replicate 5 (record { ec = eof; received = [] })

run-start_reading_example :
    read_outcome (run_reads chunks (start_reading 7)) ≡ read_loop chunks 7 (zeros 7) 0
run-start_reading_example = run-start_reading chunks 6
