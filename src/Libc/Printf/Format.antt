-- ===== src/Libc/Printf/Format.antt =====
-- The formatted printing of src/lib/libc/printf.c, and the write of src/lib/libccfs/ccpfs.c under it. A
-- device is its number in `stddev`; `files` gives its function `write`, none where that is null, and the
-- output is the list of the calls of `ccpdfs_write`, with the device and the character. USE_FLOAT is on,
-- and `long` has 32 bits. A result is none where the arguments do not fit the format, and where a floating
-- point number is printed, which has no model; the number of its decimals is left out with it.
pub mod Pieces
pub mod Numerals
pub mod Cases
pub mod Steps
pub mod Printed
use cyancore.Common.{
  ℕ, zero, suc, ◌+◌, ◌-◌, ◌*◌, ◌%◌, ◌^◌, Bool, true, false, ◌&&◌, ◌||◌, Option, none, some, List,
  [], ◌∷◌, ◌++◌, leb, ltb, ◌==◌, if◌then◌else◌, length,
}
use cyancore.Common.Int.{ℤ, pos, negsuc, ◌+ℤ◌, ◌-ℤ◌, ◌*ℤ◌, wrap}
use cyancore.Status.{error_file_io}
use cyancore.Libc.Printf.{unumprint}

abbrev pub stdout : ℕ
stdout = 1

abbrev pub stderr : ℕ
stderr = 2

abbrev pub stdlog : ℕ
stdlog = 3

abbrev pub Out : Type 0
Out = List (ℕ × ℕ)

unfoldable pub ccpdfs_write : (files : ℕ → Option (ℕ → ℕ)) (dev c : ℕ) → ℕ
ccpdfs_write files dev c = elim (files dev) [ none ↦ error_file_io | some write ↦ write c ]

-- The calls of `ccpdfs_write` for one character, but for the carriage return
unfoldable pub write_both : (en_stdout : Bool) (dev c : ℕ) → Out
write_both en_stdout dev c = (dev, c) ∷ (if en_stdout then (stdout, c) ∷ [] else [])

-- What `__fputc` writes; it calls itself with the carriage return, after which it does not.
unfoldable pub fputc : (en_stdout : Bool) (dev c : ℕ) → Out
unfolding write_both
fputc en_stdout dev c =
    write_both en_stdout dev c
    ++ (if c == b'\n' && (dev == stdout || dev == stdlog)
        then write_both en_stdout dev b'\r'
        else [])

-- A string is the list of its characters; `__fputs` returns its length.
unfoldable pub fputs : (en_stdout : Bool) (dev : ℕ) → List ℕ → Out
unfolding fputc
fputs en_stdout dev [] = []
fputs en_stdout dev (c ∷ cs) = fputc en_stdout dev c ++ fputs en_stdout dev cs

-- What `va_arg` gives: a number or a string
pub data Arg : Type 0 where
  number : ℤ → Arg
  string : List ℕ → Arg

-- Where `vprintf` is, whose widths stay below 2 ^ 31: in the text, behind a percent sign with `l_ret` and `padn`, in a width, or in a number of decimals
pub data Mode : Type 0 where
  text : Mode
  directive : Mode
  width : Mode
  decimals : Mode

pub record State : Type 0 where
  pub mode : Mode
  pub l_ret : ℕ
  pub padn : ℤ
  pub padc : ℕ
  pub args : List Arg
  pub ret : ℤ
  pub out : Out

pub data StepResult : Type 0 where
  fault : StepResult
  stop : ℤ → Out → StepResult
  go : State → StepResult

-- `get_num_va_args` and `get_unum_va_args`: a value of any of the three types, kept in a `long`
unfoldable pub get_num_va_args : ℤ → ℤ
get_num_va_args z = wrap 32 z

unfoldable pub get_unum_va_args : ℤ → ℕ
get_unum_va_args (pos n) = n % 2 ^ 32
get_unum_va_args (negsuc n) = 2 ^ 32 - 1 - n % 2 ^ 32

-- The character of `%c`, the low byte of its argument
abbrev pub char_of : ℤ → ℕ
char_of z = get_unum_va_args z % 2 ^ 8

unfoldable pub takes_arg : (c : ℕ) → Bool
takes_arg c =
    c == b'i' || c == b'd' || c == b'c' || c == b's' || c == b'p' || c == b'x' || c == b'u'

module _ (files : ℕ → Option (ℕ → ℕ)) (dev : ℕ) (en_stdout : Bool) where
  -- The end of a case: what it prints, what it adds to `ret`, and the next character is text.
  unfoldable pub end_case : (chars : List ℕ) (count : ℤ) (args : List Arg) → State → StepResult
  end_case chars count args s = go (record s {
    mode = text;
    args = args;
    ret = s.ret +ℤ count;
    out = s.out ++ fputs en_stdout dev chars;
  })

  unfoldable pub print_num : ℤ → List Arg → State → StepResult
  print_num (pos n) args s =
      let digits = unumprint (n % 2 ^ 32) 10 s.padc s.padn in
      end_case digits (pos (length digits)) args s
  print_num (negsuc n) args s =
      let digits = unumprint (suc n % 2 ^ 32) 10 s.padc (s.padn -ℤ pos 1) in
      end_case (b'-' ∷ digits) (pos (length digits)) args s

  unfoldable pub print_unum :
      (radix : ℕ) (prefix : List ℕ) (unum : ℕ) → List Arg → State → StepResult
  print_unum radix prefix unum args s =
      let digits = prefix ++ unumprint unum radix s.padc (s.padn -ℤ pos (length prefix)) in
      end_case digits (pos (length digits)) args s

  -- The cases that take an argument
  unfoldable pub convert_arg : (c : ℕ) → State → StepResult
  convert_arg c s = elim s.args [
    | [] ↦ fault
    | string cs ∷ args ↦ if c == b's' then end_case cs (pos (length cs)) args s else fault
    | number z ∷ args ↦
        if c == b'i' || c == b'd'
        then print_num (get_num_va_args z) args s
        else if c == b'c'
        then end_case (char_of z ∷ []) (wrap 32 (pos (ccpdfs_write files dev (char_of z)))) args s
        else if c == b'p'
        then print_unum 16 (b'0' ∷ b'x' ∷ []) (get_unum_va_args z) args s
        else if c == b'x'
        then print_unum 16 [] (get_unum_va_args z) args s
        else if c == b'u'
        then print_unum 10 [] (get_unum_va_args z) args s
        else fault
  ]

  -- The switch behind `loop`; `size_t` has four bytes.
  unfoldable pub convert : (c : ℕ) → State → StepResult
  convert c s =
      if takes_arg c
      then convert_arg c s
      else if c == b'z'
      then go s
      else if c == b'l'
      then go (record s { l_ret = suc s.l_ret })
      else if c == b'0'
      then go (record s { mode = width; padc = b'0'; padn = pos 0 })
      else if c == b'.'
      then go (record s { mode = decimals })
      else if c == b'f'
      then fault
      else if c == b'%'
      then end_case (c ∷ []) (wrap 32 (pos (ccpdfs_write files dev c))) s.args s
      else stop (negsuc 0) s.out

  unfoldable pub step : (c : ℕ) → State → StepResult
  step c s = elim s.mode [
    | text ↦
        if c == b'%'
        then go (record s { mode = directive; l_ret = 0; padn = pos 0 })
        else end_case (c ∷ []) (pos 1) s.args s
    | directive ↦ convert c s
    | width ↦
        if leb b'0' c && leb c b'9'
        then go (record s { padn = s.padn *ℤ pos 10 +ℤ pos (c - b'0') })
        else convert c (record s { mode = directive })
    | decimals ↦
        if leb b'0' c && leb c b'9' then go s else convert c (record s { mode = directive })
  ]

  -- The loop; the format's terminating zero is no directive.
  unfoldable pub vprintf_loop : List ℕ → State → Option (ℤ × Out)
  vprintf_loop [] s = elim s.mode [
    | text ↦ some (s.ret, s.out)
    | directive ↦ some (negsuc 0, s.out)
    | width ↦ some (negsuc 0, s.out)
    | decimals ↦ some (negsuc 0, s.out)
  ]
  vprintf_loop (c ∷ fmt) s = elim (step c s) [
    | fault ↦ none
    | stop ret out ↦ some (ret, out)
    | go s' ↦ vprintf_loop fmt s'
  ]

  abbrev pub start_state : List Arg → State
  start_state args = record {
    mode = text;
    l_ret = 0;
    padn = pos 0;
    padc = 0;
    args = args;
    ret = pos 0;
    out = [];
  }

  unfoldable pub vprintf : (fmt : List ℕ) → List Arg → Option (ℤ × Out)
  vprintf fmt args = vprintf_loop fmt (start_state args)

-- `__printf`, `__eprintf` and `fprintf`
unfoldable pub printf : (files : ℕ → Option (ℕ → ℕ)) → (fmt : List ℕ) → List Arg → Option (ℤ × Out)
printf files fmt args = vprintf files stdout false fmt args

unfoldable pub eprintf : (files : ℕ → Option (ℕ → ℕ)) → (fmt : List ℕ) → List Arg → Option (ℤ × Out)
eprintf files fmt args = vprintf files stderr false fmt args

unfoldable pub fprintf :
    (files : ℕ → Option (ℕ → ℕ)) (dev : ℕ) (en_stdout : Bool) (fmt : List ℕ)
    → List Arg
    → Option (ℤ × Out)
fprintf files dev en_stdout fmt args = vprintf files dev en_stdout fmt args
