-- ===== src/Posix/Errno.antt =====
-- What the functions of the POSIX layer return on an error: `-EINVAL` and its kin of
-- src/lib/libposix/include/posix/errno.h. The constants there are negative themselves, so what is
-- returned is the status code.
use cyancore.Common.{Bool, false, ◌==◌}
use cyancore.Common.Int.{ℤ, pos, negsuc}

abbrev pub ok : ℤ
ok = pos 0

abbrev pub minus_einval : ℤ
minus_einval = pos 0x0003

abbrev pub minus_etimedout : ℤ
minus_etimedout = pos 0x0c01

abbrev pub minus_ebusy : ℤ
minus_ebusy = pos 0x0203

abbrev pub minus_eagain : ℤ
minus_eagain = pos 0x0202

abbrev pub minus_enotsup : ℤ
minus_enotsup = pos 0x0002

abbrev pub minus_ebadf : ℤ
minus_ebadf = pos 0x0701

abbrev pub minus_enoent : ℤ
minus_enoent = pos 0x0703

abbrev pub is_ok : ℤ → Bool
is_ok (pos n) = n == 0
is_ok (negsuc n) = false
