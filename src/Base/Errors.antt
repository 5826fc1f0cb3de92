-- ===== src/Base/Errors.antt =====
-- The `int` that the kernel's functions return: zero, or a negative errno.

-- `other` is a code that comes from outside the driver.
pub data Errno : Type 0 where
  einval ebusy enxio eio enodev enomem eperm : Errno
  other : Prim.Native.Nat.ℕ → Errno

pub data Code : Type 0 where
  ok : Code
  err : Errno → Code
