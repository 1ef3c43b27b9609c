-- ===== src/Waits/Ends.antt =====
-- How the two timers end.
use boost_asio_cpp_network_p.Common.{
  ℕ, suc, ◌+◌, ◌≤◌, ◌<◌, leb, ◌==◌, ◌≡◌, refl, sym, ap, ◌∙◌, subst, ◌⊎◌, inl, inr, Bool, true,
  false, List, [], ◌∷◌, ◌++◌, Bool-cases, arith, if◌then◌else◌,
}
use boost_asio_cpp_network_p.Asio.{ErrorCode, success, operation_aborted}
use boost_asio_cpp_network_p.Waits.{Wait, ended, handled, end_with, cancel, Printed}
use boost_asio_cpp_network_p.Waits.Timers.{
  Timers, describe, start, expire, elapse, call_first, call_second, Event, elapses, calls_first,
  calls_second, step, run,
}

-- How often the handler of a wait has been called.
abbrev pub calls : Wait → ℕ
calls (handled ec) = 1
calls _ = 0

abbrev pub lines_of : ℕ → List (ℕ × Printed) → ℕ
lines_of n [] = 0
lines_of n (line ∷ printed) =
    let rest = lines_of n printed in if line.0 == n then suc rest else rest

-- The first timer expires after two seconds.
abbrev pub IsFirst : ℕ → Wait → Type 0
IsFirst now Wait.pending = now < 2
IsFirst now (ended ec) = (ec ≡ success) × (2 ≤ now)
IsFirst now (handled ec) = (ec ≡ success) × (2 ≤ now)

-- The second one expires after five, or is cancelled by the first one's handler.
abbrev pub Reason : ℕ → Wait → ErrorCode → Type 0
Reason now first ec = ((ec ≡ success) × (5 ≤ now)) ⊎ ((ec ≡ operation_aborted) × (calls first ≡ 1))

abbrev pub IsSecond : ℕ → Wait → Wait → Type 0
IsSecond now first Wait.pending = (now < 5) × (calls first ≡ 0)
IsSecond now first (ended ec) = Reason now first ec
IsSecond now first (handled ec) = Reason now first ec

pub record IsTimed (t : Timers) : Type 0 where
  pub first : IsFirst t.now t.t1
  pub second : IsSecond t.now t.t1 t.t2
  pub first_lines : lines_of 1 t.printed ≡ calls t.t1
  pub second_lines : lines_of 2 t.printed ≡ calls t.t2

lines_of-append :
    (n k : ℕ) (p : Printed) (printed : List (ℕ × Printed))
    → lines_of n (printed ++ ((k, p) ∷ []))
      ≡ (if k == n then suc (lines_of n printed) else lines_of n printed)
lines_of-append n k p [] = refl
lines_of-append n k p (line ∷ printed) = ground (arith, lines_of-append n k p printed)

start-IsTimed : IsTimed start
unfolding start
start-IsTimed = record {
  first = omega arith;
  second = (omega arith, refl);
  first_lines = refl;
  second_lines = refl;
}

expire-calls : (over : Bool) (w : Wait) → calls (expire over w) ≡ calls w
unfolding end_with
expire-calls false w = refl
expire-calls true Wait.pending = refl
expire-calls true (ended ec) = refl
expire-calls true (handled ec) = refl

expire-IsFirst :
    (now n : ℕ) (w : Wait) → IsFirst now w → IsFirst (now + n) (expire (leb 2 (now + n)) w)
unfolding end_with
expire-IsFirst now n Wait.pending h = elim (Bool-cases (leb 2 (now + n))) [
  | inl e ↦ rw e (refl, ground arith)
  | inr e ↦ rw e (ground arith)
]
expire-IsFirst now n (ended ec) h = elim (Bool-cases (leb 2 (now + n))) [
  | inl e ↦ rw e (h.0, omega (arith, h.1))
  | inr e ↦ rw e (h.0, omega (arith, h.1))
]
expire-IsFirst now n (handled ec) h = elim (Bool-cases (leb 2 (now + n))) [
  | inl e ↦ rw e (h.0, omega (arith, h.1))
  | inr e ↦ rw e (h.0, omega (arith, h.1))
]

later-Reason :
    (now n : ℕ) (first next : Wait) (ec : ErrorCode)
    → calls next ≡ calls first
    → Reason now first ec
    → Reason (now + n) next ec
later-Reason now n first next ec e (inl h) = inl (h.0, omega (arith, h.1))
later-Reason now n first next ec e (inr h) = inr (h.0, e ∙ h.1)

elapse-IsSecond :
    (now n : ℕ) (first next w : Wait)
    → calls next ≡ calls first
    → IsSecond now first w
    → IsSecond (now + n) next (expire (leb 5 (now + n)) w)
unfolding end_with
elapse-IsSecond now n first next Wait.pending e h = elim (Bool-cases (leb 5 (now + n))) [
  | inl k ↦ rw k (inl (refl, ground arith))
  | inr k ↦ rw k (ground arith, e ∙ h.1)
]
elapse-IsSecond now n first next (ended ec) e h = elim (Bool-cases (leb 5 (now + n))) [
  | inl k ↦ rw k (later-Reason now n first next ec e h)
  | inr k ↦ rw k (later-Reason now n first next ec e h)
]
elapse-IsSecond now n first next (handled ec) e h = elim (Bool-cases (leb 5 (now + n))) [
  | inl k ↦ rw k (later-Reason now n first next ec e h)
  | inr k ↦ rw k (later-Reason now n first next ec e h)
]

elapse-IsTimed : (n : ℕ) (t : Timers) → IsTimed t → IsTimed (elapse n t)
unfolding elapse
elapse-IsTimed n t h =
    let over = leb 2 (t.now + n) in
    record {
      first = expire-IsFirst t.now n t.t1 h.first;
      second =
          elapse-IsSecond t.now n t.t1 (expire over t.t1) t.t2 (expire-calls over t.t1) h.second;
      first_lines = h.first_lines ∙ sym (expire-calls over t.t1);
      second_lines = h.second_lines ∙ sym (expire-calls (leb 5 (t.now + n)) t.t2);
    }

cancel-calls : (w : Wait) → calls (cancel w) ≡ calls w
unfolding cancel end_with
cancel-calls Wait.pending = refl
cancel-calls (ended ec) = refl
cancel-calls (handled ec) = refl

called-Reason :
    (now : ℕ) (first : Wait) (ec code : ErrorCode)
    → Reason now first ec
    → Reason now (handled code) ec
called-Reason now first ec code (inl h) = inl h
called-Reason now first ec code (inr h) = inr (h.0, refl)

cancel-IsSecond :
    (now : ℕ) (first w : Wait) (code : ErrorCode)
    → IsSecond now first w
    → IsSecond now (handled code) (cancel w)
unfolding cancel end_with
cancel-IsSecond now first Wait.pending code h = inr (refl, refl)
cancel-IsSecond now first (ended ec) code h = called-Reason now first ec code h
cancel-IsSecond now first (handled ec) code h = called-Reason now first ec code h

call_first-IsTimed : (w : Wait) (t : Timers) → t.t1 ≡ w → IsTimed t → IsTimed (call_first w t)
unfolding call_first
call_first-IsTimed Wait.pending t e h = h
call_first-IsTimed (handled ec) t e h = h
call_first-IsTimed (ended ec) t e h = record {
  first = subst (IsFirst t.now) e h.first;
  second = cancel-IsSecond t.now t.t1 t.t2 ec h.second;
  first_lines = lines_of-append 1 1 (describe ec) t.printed ∙ ap suc (h.first_lines ∙ ap calls e);
  second_lines =
      lines_of-append 2 1 (describe ec) t.printed ∙ h.second_lines ∙ sym (cancel-calls t.t2);
}

call_second-IsTimed : (w : Wait) (t : Timers) → t.t2 ≡ w → IsTimed t → IsTimed (call_second w t)
unfolding call_second
call_second-IsTimed Wait.pending t e h = h
call_second-IsTimed (handled ec) t e h = h
call_second-IsTimed (ended ec) t e h = record {
  first = h.first;
  second = subst (IsSecond t.now t.t1) e h.second;
  first_lines = lines_of-append 1 2 (describe ec) t.printed ∙ h.first_lines;
  second_lines = lines_of-append 2 2 (describe ec) t.printed ∙ ap suc (h.second_lines ∙ ap calls e);
}

pub step-IsTimed : (e : Event) (t : Timers) → IsTimed t → IsTimed (step e t)
unfolding step
step-IsTimed (elapses n) t h = elapse-IsTimed n t h
step-IsTimed calls_first t h = call_first-IsTimed t.t1 t refl h
step-IsTimed calls_second t h = call_second-IsTimed t.t2 t refl h

from-IsTimed : (es : List Event) (t : Timers) → IsTimed t → IsTimed (run es t)
unfolding run
from-IsTimed [] t h = h
from-IsTimed (e ∷ es) t h = from-IsTimed es (step e t) (step-IsTimed e t h)

-- Whatever the times at which the thread runs: the first timer is never cancelled, and its handler
-- is called when two seconds are over; the second one's is told of an expiry only when five seconds
-- are over, and of a cancellation only when the first one's has been called; and each prints one
-- line when it is called and none before.
pub run-IsTimed : (es : List Event) → IsTimed (run es start)
run-IsTimed es = from-IsTimed es start start-IsTimed
