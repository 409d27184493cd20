-- ===== src/Status.antt =====
-- status.h: the error codes. A function returns 0, a value, or the negative of one of these.
use Prim.Native.Nat.{ℕ}

abbrev pub eio : ℕ
eio = 1

abbrev pub einvarg : ℕ
einvarg = 2

abbrev pub enomem : ℕ
enomem = 3

abbrev pub ebadpath : ℕ
ebadpath = 4

abbrev pub efsnotus : ℕ
efsnotus = 5

abbrev pub erdonly : ℕ
erdonly = 6

abbrev pub eunimp : ℕ
eunimp = 7

abbrev pub eistkn : ℕ
eistkn = 8
