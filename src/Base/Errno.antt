-- ===== src/Base/Errno.antt =====
-- What an `int` result stands for: a value that is not negative, or `-errno`. The numbers are those
-- of Linux; the code uses each only by its name, but for the status byte of an acknowledgement.
use adaptipc.Base.{ℕ}

pub data Rc : Type 0 where
  done : ℕ → Rc
  fail : ℕ → Rc

abbrev pub eperm : ℕ
eperm = 1

abbrev pub eintr : ℕ
eintr = 4

abbrev pub eio : ℕ
eio = 5

abbrev pub eagain : ℕ
eagain = 11

abbrev pub enomem : ℕ
enomem = 12

abbrev pub einval : ℕ
einval = 22

abbrev pub enametoolong : ℕ
enametoolong = 36

abbrev pub emsgsize : ℕ
emsgsize = 90

abbrev pub econnreset : ℕ
econnreset = 104

abbrev pub enobufs : ℕ
enobufs = 105

abbrev pub etimedout : ℕ
etimedout = 110

abbrev pub econnrefused : ℕ
econnrefused = 111
