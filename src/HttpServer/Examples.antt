-- ===== src/HttpServer/Examples.antt =====
-- The theorems on http_server.cpp at concrete requests, and runs of its functions.
use boost_asio_cpp_network_p.Common.{List}
use boost_asio_cpp_network_p.Asio.{Completion}
use boost_asio_cpp_network_p.Common.{
  ◌≤◌, ◌≡◌, refl, true, none, some, [], ◌∷◌, ◌++◌, Bytes, codes, beq, if◌then◌else◌,
}
use boost_asio_cpp_network_p.Asio.{arrives, success, eof, Result}
use boost_asio_cpp_network_p.HttpText.{print_request_line}
use boost_asio_cpp_network_p.HttpServer.Files.{Entry, FileSystem, locate, missing, locate_missing}
use boost_asio_cpp_network_p.HttpServer.Service.{Service, start_handling, crlf, on_request_received}
use boost_asio_cpp_network_p.HttpServer.Machine.{run, complete, dispatch}
use boost_asio_cpp_network_p.HttpServer.Lifecycle.{Fits, rank, run_responses}
use boost_asio_cpp_network_p.HttpServer.Responses.{arrivals}

abbrev entry : Entry
entry = record { path = codes "/w/index.html"; filename = codes "index.html"; is_regular = true }

-- "/w/a" holds `content`, "/w/b" cannot be opened.
abbrev disk : Bytes → FileSystem
disk content = record {
  is_regular_file = λ path. if beq path (codes "/w/a") then true else beq path (codes "/w/b");
  exists = λ path. beq path (codes "/w/index.html");
  list_directory = λ path. some (entry ∷ []);
  read = λ path. if beq path (codes "/w/a") then some content else none;
}

abbrev small : FileSystem
small = disk (codes "hi")

abbrev junk : Bytes
junk = 0 ∷ 0 ∷ 0 ∷ 0 ∷ 0 ∷ []

abbrev root : Bytes
root = codes "/w"

locate_missing_example : locate small root (codes "/zz") ≡ missing
locate_missing_example = locate_missing small root (codes "/zz") refl refl refl

-- A request for a method that is not there, and a write that fails.
abbrev puts : List Completion
puts = arrives success (codes "PUT / HTTP/1.1\r\n") ∷ arrives eof [] ∷ []

abbrev dropped : Service
dropped = record {
  resource_root = root;
  request = [];
  request_headers = [];
  requested_resource = [];
  resource_buffer = [];
  response_status_code = 200;
  response_headers = crlf ++ crlf;
  response_status_line = [];
  pending = none;
  responses = [];
  errors = eof ∷ [];
}

run_responses_example : Fits dropped.pending dropped.responses × (rank dropped.pending ≤ 2)
run_responses_example =
    run_responses small junk root (arrives eof [] ∷ []) dropped (λ path. cc)
      (unfold run complete dispatch on_request_received start_handling in refl)

abbrev asking : Service
asking = record dropped { request = print_request_line (codes "/a") (codes "x") }

abbrev telling : Service
telling = record dropped { request = codes "HOST: h\r\n\r\n" }

abbrev served : FileSystem → Bytes → Result Service
served fs uri =
    run fs junk (arrivals uri (codes "HOST: h\r\n") (codes "\r\n")) (start_handling root)
