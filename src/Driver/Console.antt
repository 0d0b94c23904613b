-- ===== src/Driver/Console.antt =====
-- The standard console and the logger of src/driver/console/stdcon.c, with src/lib/libc/stddev.c, which
-- they register with, and the log in memory, src/driver/console/stdlog_membuf/stdlog_membuf.c. What a
-- console's own functions return is a field of its model; a result is none where the code reads through a
-- null pointer. The locks are not modelled.
pub mod Dump
use cyancore.Common.{
  ℕ, zero, suc, ◌+◌, ◌-◌, ◌*◌, Bool, true, false, ◌&&◌, not, Option, none, some, List, [], ◌∷◌,
  ◌==◌, if◌then◌else◌,
}
use cyancore.Status.{success, error_generic, error_func_inval, error_device_inval}
use cyancore.Driver.{status_or}

-- `console_t`, with the functions that it has: a status for each character that is written, the status
-- and the character of a read.
pub record Console : Type 0 where
  pub write : Option (ℕ → ℕ)
  pub read : Option (ℕ × ℕ)
  pub flush : Option ℕ
  pub payload_size : Option ℕ

-- The entries of `stddev` for stdin, stdout, stderr and stdlog that are set.
pub record Stddev : Type 0 where
  pub input : Bool
  pub output : Bool
  pub error : Bool
  pub log : Bool

-- The Boolean says whether the function that is registered is not null.
pub stdin_register : Bool → Stddev → ℕ × Stddev
stdin_register false d = (error_device_inval, d)
stdin_register true d = (success, record d { input = true })

pub stdout_register : Bool → Stddev → ℕ × Stddev
stdout_register false d = (error_device_inval, d)
stdout_register true d = (success, record d { output = true })

pub stderr_register : Bool → Stddev → ℕ × Stddev
stderr_register false d = (error_device_inval, d)
stderr_register true d = (success, record d { error = true })

pub stdlog_register : Bool → Stddev → ℕ × Stddev
stdlog_register false d = (error_device_inval, d)
stdlog_register true d = (success, record d { log = true })

-- The statics `con` and `console_attached`, or `log` and `logger_attached`.
pub record Attachment : Type 0 where
  pub port : Option Console
  pub attached : Bool

abbrev pub detached : Attachment
detached = record { port = none; attached = false }

pub console_attach_device : ℕ → Option Console → Stddev → ℕ × Attachment × Stddev
unfolding stdin_register stdout_register stderr_register
console_attach_device dev_status none d = (error_device_inval, detached, d)
console_attach_device dev_status (some c) d =
    let (out_status, d₁) = stdout_register true d in
    let (err_status, d₂) = stderr_register true d₁ in
    let (in_status, d₃) = stdin_register true d₂ in
    (
      status_or (status_or (status_or dev_status out_status) err_status) in_status,
      record { port = some c; attached = dev_status == success },
      d₃,
    )

pub console_release_device : ℕ × Attachment
console_release_device = (success, detached)

-- A function of the console that is attached, if it has that function.
abbrev pub call_port : {A : Type 0} → (Console → Option A) → A → Attachment → Option A
call_port f otherwise a =
    if a.attached
    then elim a.port [
      | none ↦ none
      | some c ↦ elim (f c) [ none ↦ some otherwise | some x ↦ some x ]
    ]
    else some otherwise

abbrev pub at_char : ℕ → Option (ℕ → ℕ) → Option ℕ
at_char c none = none
at_char c (some f) = some (f c)

pub console_putc : ℕ → Attachment → Option ℕ
console_putc c a = call_port (λ p. at_char c p.write) error_func_inval a

-- The status, and the character where it is written
pub console_getc : Attachment → Option (ℕ × Option ℕ)
console_getc a =
    call_port (λ p. elim p.read [ none ↦ none | some (status, c) ↦ some (status, some c) ])
      (error_func_inval, none) a

pub console_flush : Attachment → Option ℕ
console_flush a = call_port (λ p. p.flush) error_func_inval a

pub console_get_payload_size : Attachment → Option ℕ
console_get_payload_size a = call_port (λ p. p.payload_size) 0 a

pub logger_attach_device : ℕ → Option Console → Stddev → ℕ × Attachment × Stddev
unfolding stdlog_register
logger_attach_device dev_status none d = (error_device_inval, detached, d)
logger_attach_device dev_status (some c) d =
    let (log_status, d₁) = stdlog_register true d in
    (
      status_or dev_status log_status,
      record { port = some c; attached = dev_status == success },
      d₁,
    )

pub logger_release_device : ℕ × Attachment
logger_release_device = (success, detached)

pub logger_putc : ℕ → Attachment → Option ℕ
logger_putc c a = call_port (λ p. at_char c p.write) error_func_inval a

-- The loop of `logger_dprint` over a device whose `read` gives the status, the character and the new
-- state; the result is what is printed. The loop takes rounds.
unfoldable pub dprint_loop : {S : Type 0} → (S → ℕ × ℕ × S) → ℕ → S → Option (List ℕ × S)
dprint_loop read zero s = none
dprint_loop read (suc rounds) s =
    let (lvar, c, s') = read s in
    let rest = dprint_loop read rounds s' in
    if lvar == 0
    then some (c ∷ [], s')
    else elim rest [ none ↦ none | some (cs, t) ↦ some (c ∷ cs, t) ]

-- The Booleans say whether the file is not null and whether a logger is attached.
unfoldable pub logger_dprint :
    {S : Type 0} → (S → ℕ × ℕ × S) → ℕ → Bool → Bool → S → Option (ℕ × List ℕ × S)
unfolding dprint_loop
logger_dprint read rounds device attached s =
    if device && attached
    then elim (dprint_loop read rounds s) [ none ↦ none | some (cs, t) ↦ some (success, cs, t) ]
    else some (error_device_inval, [], s)

-- The buffer and the static positions of its two functions.
pub record Membuf : Type 0 where
  pub membuf : ℕ → ℕ
  pub pointer : ℕ
  pub pread : ℕ

abbrev pub backspace : ℕ
backspace = 8

-- `MEMBUF_SIZE`, which the build sets, is the first argument.
unfoldable pub membuf_writeb : ℕ → ℕ → Membuf → ℕ × Membuf
membuf_writeb size c m =
    if c == backspace && not (m.pointer == 0)
    then (success, record m { pointer = m.pointer - 1 })
    else let pointer = if m.pointer == size then 0 else m.pointer in
      (
        success,
        record m { membuf = λ i. if i == pointer then c else m.membuf i; pointer = pointer + 1 },
      )

unfoldable pub membuf_read : ℕ → Membuf → ℕ × ℕ × Membuf
membuf_read size m =
    let c = m.membuf m.pread in
    if m.pread + 1 == size
    then (success, c, record m { pread = 0 })
    else (error_generic, c, record m { pread = m.pread + 1 })
