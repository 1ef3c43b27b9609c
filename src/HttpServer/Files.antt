-- ===== src/HttpServer/Files.antt =====
-- The file system that the server reads, and the choice of the file that answers a request.
use boost_asio_cpp_network_p.Common.{
  Bool, true, false, ◌&&◌, Option, none, some, List, [], ◌∷◌, ◌++◌, ◌≡◌, refl, All, Bytes, codes,
  ◌==◌, if◌then◌else◌, starts_with,
}

pub record Entry : Type 0 where
  pub path : Bytes
  pub filename : Bytes
  pub is_regular : Bool

-- std::filesystem and std::ifstream at the time of the request. `list_directory` is none where the
-- iterator throws, `read` where the file cannot be opened.
pub record FileSystem : Type 0 where
  pub is_regular_file : Bytes → Bool
  pub exists : Bytes → Bool
  pub list_directory : Bytes → Option (List Entry)
  pub read : Bytes → Option Bytes

-- `find_first_not_of("/") == npos`.
abbrev pub only_slashes : Bytes → Bool
only_slashes [] = true
only_slashes (c ∷ s) = (c == b'/') && only_slashes s

-- The loop over the directory: the last regular file whose name begins with "index".
unfoldable pub index_path : List Entry → Bytes → Bytes
index_path [] found = found
index_path (e ∷ es) found =
    index_path es (if e.is_regular && starts_with (codes "index") e.filename then e.path else found)

-- What the request for `requested` below `root` names.
pub data Located : Type 0 where
  file : Bytes → Located
  missing unlistable : Located

abbrev pub if_exists : FileSystem → Bytes → Located
if_exists fs path = if fs.exists path then file path else missing

unfoldable pub locate : FileSystem → Bytes → Bytes → Located
locate fs root requested =
    if fs.is_regular_file (root ++ requested)
    then file (root ++ requested)
    else if only_slashes requested
    then elim (fs.list_directory root) [
      | none ↦ unlistable
      | some entries ↦ if_exists fs (index_path entries [])
    ]
    else if_exists fs []

-- A regular file whose name begins with "index".
abbrev pub is_index : Entry → Bool
is_index e = e.is_regular && starts_with (codes "index") e.filename

abbrev pub NoIndex : List Entry → Type 0
NoIndex = All (λ e. is_index e ≡ false)

index_path_none : (es : List Entry) (found : Bytes) → NoIndex es → index_path es found ≡ found
unfolding index_path
index_path_none [] found h = refl
index_path_none (e ∷ es) found h = rw h.0 (index_path_none es found h.1)

index_path_last :
    (front back : List Entry) (e : Entry) (found : Bytes)
    → is_index e ≡ true
    → NoIndex back
    → index_path (front ++ e ∷ back) found ≡ e.path
unfolding index_path
index_path_last [] back e found i h = rw (i, index_path) (index_path_none back e.path h)
index_path_last (x ∷ front) back e found i h =
    index_path_last front back e (if is_index x then x.path else found) i h

-- A request for slashes alone, or for nothing, where that is no regular file, is answered by the
-- last regular file of the root whose name begins with "index", if that still exists.
pub locate_index :
    (fs : FileSystem) (root requested : Bytes) (front back : List Entry) (e : Entry)
    → fs.is_regular_file (root ++ requested) ≡ false
    → only_slashes requested ≡ true
    → fs.list_directory root ≡ some (front ++ e ∷ back)
    → is_index e ≡ true
    → NoIndex back
    → fs.exists e.path ≡ true
    → locate fs root requested ≡ file e.path
unfolding locate
locate_index fs root requested front back e r o l i h x =
    rw (r, o, l, locate) (rw (index_path_last front back e [] i h, x))

-- Any other request that names no regular file finds none, as long as the empty path does not exist.
pub locate_missing :
    (fs : FileSystem) (root requested : Bytes)
    → fs.is_regular_file (root ++ requested) ≡ false
    → only_slashes requested ≡ false
    → fs.exists [] ≡ false
    → locate fs root requested ≡ missing
unfolding locate
locate_missing fs root requested r o x = rw (r, o, x)
