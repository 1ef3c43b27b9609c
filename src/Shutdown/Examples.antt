-- ===== src/Shutdown/Examples.antt =====
-- A run of the two programs to their ends.
use boost_asio_cpp_network_p.Common.{◌≤◌, ◌⊎◌, ◌≡◌, refl, true, false, [], ◌∷◌}
use boost_asio_cpp_network_p.Asio.{success, eof, ok}
use boost_asio_cpp_network_p.Shutdown.Code.{request, response, communicate, process_request}
use boost_asio_cpp_network_p.Shutdown.Network.{
  ClientPc, ServerPc, System, Step, start, client_writes, client_shuts, client_reads, client_ends,
  server_reads, server_has_read, server_answers, server_closes, Reach, here, next,
}
use boost_asio_cpp_network_p.Shutdown.Progress.{IsOver, Reach_delivers, Reach_finishes}

abbrev shut_down : System
shut_down = record {
  client = ClientPc.reading;
  server = ServerPc.receiving;
  request_way = record { bytes = request; is_shut = true };
  response_way = record { bytes = []; is_shut = false };
  request_buf = [];
  response_buf = [];
}

abbrev over : System
over = record {
  client = ClientPc.ended;
  server = ServerPc.finished;
  request_way = record { bytes = []; is_shut = true };
  response_way = record { bytes = []; is_shut = true };
  request_buf = request;
  response_buf = response;
}

reaches_shut_down : Reach start shut_down
reaches_shut_down = next (next here (client_writes refl)) (client_shuts refl)

reaches_over : Reach start over
reaches_over =
    let read_1 = next reaches_shut_down (server_reads 0x48 _ refl refl) in
    let read_2 = next read_1 (server_reads 0x65 _ refl refl) in
    let read_3 = next read_2 (server_reads 0 _ refl refl) in
    let read_4 = next read_3 (server_reads 0x6c _ refl refl) in
    let read_5 = next read_4 (server_reads 0x6c _ refl refl) in
    let read_6 = next read_5 (server_reads 0x6f _ refl refl) in
    let answered = next (next read_6 (server_has_read refl refl refl)) (server_answers refl) in
    let closed = next answered (server_closes refl) in
    let got_1 = next closed (client_reads 0x48 _ refl refl) in
    let got_2 = next got_1 (client_reads 0x69 _ refl refl) in
    let got_3 = next got_2 (client_reads 0x21 _ refl refl) in
    next got_3 (client_ends refl refl refl)

Reach_finishes_example : (2 ≤ 15) × (IsOver shut_down ⊎ ((t : System) × Step shut_down t))
unfolding reaches_shut_down
Reach_finishes_example = Reach_finishes reaches_shut_down

Reach_delivers_example :
    (ServerPc.finished ≡ ServerPc.finished)
    × (communicate success success eof response ≡ ok (response ∷ []))
    × (process_request eof request success success ≡ (request ∷ [], ok tt))
Reach_delivers_example = Reach_delivers reaches_over refl
