-- ===== src/HttpServer/Answering.antt =====
-- What the server promises a client: the answer to a request, as a function of what is in the file
-- system, and that the handlers give it.
use mathlib.Core.List.{flatten}
use boost_asio_cpp_network_p.Common.{
  ◌≡◌, Option, none, some, List, ◌++◌, Bytes, codes, length, leb, if◌then◌else◌,
}
use boost_asio_cpp_network_p.Asio.{Result, aborts}
use boost_asio_cpp_network_p.Cxx.Charconv.{digits}
use boost_asio_cpp_network_p.HttpServer.Files.{
  FileSystem, Located, file, missing, unlistable, locate,
}
use boost_asio_cpp_network_p.HttpServer.Service.{Service}
use boost_asio_cpp_network_p.HttpServer.Responses.{Answers}

-- What there is for a URI: a file with a content, or one that cannot be opened; nothing; or a
-- directory that cannot be listed.
pub data Resource : Type 0 where
  content : Bytes → Resource
  unreadable nothing unlisted : Resource

abbrev pub opened : Option Bytes → Resource
opened none = unreadable
opened (some text) = content text

abbrev pub look : FileSystem → Located → Resource
look fs unlistable = unlisted
look fs missing = nothing
look fs (file path) = opened (fs.read path)

abbrev pub resource : FileSystem → Bytes → Bytes → Resource
resource fs root uri = look fs (locate fs root uri)

-- The bytes of the response, or none where the program ends.
abbrev pub answer : Bytes → Resource → Option Bytes
answer unspecified (content text) = some (
    if leb 100000 (length text)
    then codes "HTTP/1.1 500 Server Error \r\ncontent-length: "
      ++ (unspecified ++ (codes "\r\n\r\n" ++ text))
    else codes "HTTP/1.1 200 OK \r\ncontent-length: "
      ++ (digits (length text) ++ (codes "\r\n\r\n" ++ text)))
answer unspecified unreadable = some (codes "HTTP/1.1 500 Server Error \r\n\r\n\r\n")
answer unspecified nothing = some (codes "HTTP/1.1 404 Not Found \r\n\r\n\r\n")
answer unspecified unlisted = none

-- The run ended with one response, whose buffers are these bytes; or it ended the program.
abbrev pub Gives : Result Service → Option Bytes → Type 0
Gives m none = m ≡ aborts
Gives m (some text) = (buffers : List Bytes) × Answers m buffers × (flatten buffers ≡ text)
