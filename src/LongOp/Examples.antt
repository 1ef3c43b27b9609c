-- ===== src/LongOp/Examples.antt =====
-- Requests for three seconds, for more seconds than an int holds, and for something else.
use boost_asio_cpp_network_p.Common.{◌≡◌, refl, codes, find_text}
use boost_asio_cpp_network_p.Cxx.Signed.{pos, from_chars_int}
use boost_asio_cpp_network_p.Cxx.Stream.{getline}
use boost_asio_cpp_network_p.Cxx.Charconv.{from_chars}
use boost_asio_cpp_network_p.LongOp.{process_buffer, emulate, done}

process_digits : process_buffer (codes "EMULATE_LONG_COMP_OP 10s\n") ≡ done (pos 10)
unfolding process_buffer emulate find_text getline from_chars_int from_chars
process_digits = refl
