-- ===== src/AsyncTcpClient/Registry/Maps.antt =====
-- Lookups in the map of active sessions and in the store of sessions.
use boost_asio_cpp_network_p.Common.{
  ℕ, zero, suc, ◌≡◌, refl, false, Option, none, some, List, [], ◌∷◌, ◌++◌, length, ◌==◌,
  if◌then◌else◌, arith,
}
use boost_asio_cpp_network_p.AsyncTcpClient.{
  Session, Active, insert, erase, find, change_at, session_at,
}

pub find-erase :
    (id j : ℕ) (active : Active)
    → find id (erase j active) ≡ (if j == id then none else find id active)
find-erase id j [] = ground arith
find-erase id j (entry ∷ active) = ground (arith, find-erase id j active)

pub find-insert :
    (id j h : ℕ) (active : Active)
    → find id (insert j h active) ≡ (if j == id then some h else find id active)
find-insert id j h active = ground (arith, find-erase id j active)

pub session_at-append :
    (h : ℕ) (sessions : List Session) (s : Session)
    → session_at h (sessions ++ (s ∷ []))
      ≡ (if h == length sessions then some s else session_at h sessions)
session_at-append zero [] s = refl
session_at-append (suc h) [] s = ground arith
session_at-append zero (x ∷ sessions) s = ground arith
session_at-append (suc h) (x ∷ sessions) s = ground (arith, session_at-append h sessions s)

abbrev pub change_found : (Session → Session) → Option Session → Option Session
change_found f none = none
change_found f (some s) = some (f s)

pub session_at-change_at :
    (f : Session → Session) (h n : ℕ) (sessions : List Session)
    → session_at h (change_at f n sessions)
      ≡ (if h == n then change_found f (session_at h sessions) else session_at h sessions)
session_at-change_at f h n [] = ground arith
session_at-change_at f zero zero (s ∷ sessions) = refl
session_at-change_at f (suc h) zero (s ∷ sessions) = ground arith
session_at-change_at f zero (suc n) (s ∷ sessions) = ground arith
session_at-change_at f (suc h) (suc n) (s ∷ sessions) =
    ground (arith, session_at-change_at f h n sessions)

-- A session that is found stands below the end.
pub session_at_below :
    (h : ℕ) (sessions : List Session) (s : Session)
    → session_at h sessions ≡ some s
    → (h == length sessions) ≡ false
session_at_below h [] s e = cc
session_at_below zero (x ∷ sessions) s e = ground arith
session_at_below (suc h) (x ∷ sessions) s e = ground (arith, session_at_below h sessions s e)
