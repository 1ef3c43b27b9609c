-- ===== src/HttpServer/Machine.antt =====
-- The life of one Service: the completions of its operations, in their order.
use boost_asio_cpp_network_p.Common.{none, some, List, [], ◌∷◌, ◌++◌, Bytes}
use boost_asio_cpp_network_p.Asio.{Completion, Result, ok, ◌>>=◌}
use boost_asio_cpp_network_p.HttpServer.Files.{FileSystem}
use boost_asio_cpp_network_p.HttpServer.Service.{
  Service, Operation, read_request_line, read_headers, write_response, on_request_received,
  on_headers_received, on_response_sent,
}

module _ (fs : FileSystem) (unspecified : Bytes) where
  -- The handler that the operation was started with. A read with a delimiter that ends with success
  -- has put it into the buffer: where that matters it is a hypothesis, HttpText.Holds.
  unfoldable pub dispatch : Operation → Completion → Service → Result Service
  dispatch (read_request_line delim) c s =
      on_request_received c.shutdown_ec c.ec c.bytes_transferred s
  dispatch (read_headers delim) c s =
      on_headers_received fs unspecified c.shutdown_ec c.ec c.bytes_transferred s
  dispatch (write_response buffers) c s = ok (on_response_sent c.ec c.bytes_transferred s)

  unfoldable pub complete : Completion → Service → Result Service
  complete c s = elim s.pending [
    | none ↦ ok s
    | some op ↦ dispatch op c (record s { pending = none; request = s.request ++ c.received })
  ]

  unfoldable pub run : List Completion → Service → Result Service
  run [] s = ok s
  run (c ∷ cs) s = complete c s >>= λ t. run cs t
