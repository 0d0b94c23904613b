-- ===== src/Posix/Mqueue/Open.antt =====
-- What mq_open of src/lib/libposix/src/posix_mqueue.c returns.
use cyancore.Common.{ℕ, List, Option, none, some, ltb, ◌==◌, ◌≢◌, inl, inr, arith, Bool-cases}
use cyancore.Posix.Errno.{ok}
use cyancore.Posix.Kernel.{Kernel, World, mutex_init}
use cyancore.Posix.Mqueue.{
  Attr, open_queue, utils_strnlen, name_len_max, lock_init, acquire_lock, has_flag, o_creat,
}

module _ (kernel : Kernel) where
  -- mq_open returns no descriptor: it returns an error, or it writes through a null pointer.
  pub open_queue-fails :
      (name : Option (List ℕ)) (oflag : ℕ) (attr : Option Attr) (w : World)
      → (open_queue kernel name oflag attr w).0 ≢ some ok
  unfolding open_queue lock_init acquire_lock
  open_queue-fails none oflag attr w = λ e. ground arith
  open_queue-fails (some name) oflag attr w =
      elim (Bool-cases (ltb (utils_strnlen (some name) name_len_max) name_len_max)) [
        | inr long ↦ rw (long) (λ e. ground arith)
        | inl short ↦ elim (Bool-cases (has_flag oflag o_creat)) [
          | inr exists ↦ rw (short, exists) (λ e. ground arith)
          | inl creat ↦ elim (Bool-cases ((kernel w.count mutex_init).status == 0)) [
            | inl init ↦ elim (Bool-cases ((acquire_lock kernel (lock_init kernel w).1).0)) [
              | inl l ↦ rw (short, creat, init, l) (λ e. ground arith)
              | inr l ↦ rw (short, creat, init, l) (λ e. ground arith)
            ]
            | inr refused ↦ rw (short, creat, refused) (λ e. ground arith)
          ]
        ]
      ]
