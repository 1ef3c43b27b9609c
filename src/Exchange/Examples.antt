-- ===== src/Exchange/Examples.antt =====
-- The exchange of one small file.
use mathlib.Core.List.{flatten}
use boost_asio_cpp_network_p.Common.{
  ◌≡◌, refl, true, false, none, some, List, [], ◌∷◌, ◌++◌, Bytes, codes, arith, beq,
}
use boost_asio_cpp_network_p.Asio.{arrives, success, eof, ok}
use boost_asio_cpp_network_p.Cxx.Charconv.{digits}
use boost_asio_cpp_network_p.HttpText.{print_status_line, print_request_line}
use boost_asio_cpp_network_p.HttpClient.Request.{HttpRequest, read_status_line, request_text, crlf}
use boost_asio_cpp_network_p.HttpClient.Response.{new_response}
use boost_asio_cpp_network_p.HttpClient.Machine.{completes}
use boost_asio_cpp_network_p.HttpClient.Machine.{run as run_client}
use boost_asio_cpp_network_p.HttpClient.Delivery.{awaits, delivered}
use boost_asio_cpp_network_p.HttpServer.Files.{FileSystem, locate}
use boost_asio_cpp_network_p.HttpServer.Service.{start_handling}
use boost_asio_cpp_network_p.HttpServer.Machine.{run as run_server}
use boost_asio_cpp_network_p.HttpServer.Responses.{Answers, arrivals}
use boost_asio_cpp_network_p.Exchange.{length_header, exchange_file}

abbrev disk : FileSystem
disk = record {
  is_regular_file = λ path. beq path (codes "/w/a");
  exists = λ path. false;
  list_directory = λ path. some [];
  read = λ path. some (codes "hello");
}

abbrev asked : HttpRequest
asked = record {
  port = 80;
  host = codes "h";
  uri = codes "/a";
  id = 1;
  has_callback = true;
  request_buf = [];
  response = new_response;
  was_cancelled = false;
  pending = some (read_status_line crlf);
  calls = [];
  cancel_calls = [];
}

abbrev front : Bytes
front = codes "content-length: "

exchange_file_example :
    (buffers : List Bytes) × (request_text (codes "/a") (codes "h")
      ≡ print_request_line (codes "/a") (codes "HOST: h\r\n\r\n"))
    × Answers
        (run_server disk []
          (arrivals (codes "/a") (codes "HOST: h\r\n") (codes "\r\n"))
          (start_handling (codes "/w")))
        buffers
    × (flatten buffers
        ≡ print_status_line 200 (codes "OK ") front
          ++ ((digits 5 ++ codes "\r\n\r\nhe") ++ codes "llo"))
    × (run_client
          (completes (arrives success (print_status_line 200 (codes "OK ") front))
            ∷ completes (arrives success (digits 5 ++ codes "\r\n\r\nhe"))
            ∷ completes (arrives eof (codes "llo"))
            ∷ [])
          (awaits (read_status_line crlf) new_response asked)
        ≡ ok (record asked {
          pending = none;
          was_cancelled = false;
          response = delivered 200 (codes "OK ") (length_header 5) (codes "hello");
          calls =
              (success, delivered 200 (codes "OK ") (length_header 5) (codes "hello"))
              ∷ asked.calls;
        }))
exchange_file_example =
    exchange_file disk [] (codes "/w") (codes "/a") (codes "h") (codes "/w/a") (codes "hello") asked
      (codes "HOST: h\r\n") (codes "\r\n") front (digits 5 ++ codes "\r\n\r\nhe") (codes "he")
      (codes "llo") (cc) (ground arith) (ground arith) (unfold locate in refl) refl (omega arith)
      refl (unfold digits in refl) refl
