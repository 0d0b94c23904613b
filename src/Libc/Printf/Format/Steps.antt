-- ===== src/Libc/Printf/Format/Steps.antt =====
-- What a piece of a format does to the loop, one step after the other.
use cyancore.Common.{
  ℕ, ◌+◌, ◌≡◌, ◌≢◌, refl, ◌∙◌, Bool, true, false, Option, List, [], ◌∷◌, ◌++◌, ne→==,
}
use cyancore.Common.Int.{ℤ, pos, negsuc, ◌+ℤ◌, ◌-ℤ◌}
use cyancore.Libc.Printf.{print_d}
use cyancore.Libc.Printf.Format.{
  Arg, number, stop, Out, fputs, ccpdfs_write, end_case, convert_arg, takes_arg, convert, step,
  vprintf_loop,
}
use cyancore.Libc.Printf.Format.Pieces.{
  Piece, literal, percent, decimal, padded, unsigned, hex, pointer, str, char, IsPiece, format,
  argument,
}
use cyancore.Libc.Printf.Format.Numerals.{printed, counted}
use cyancore.Libc.Printf.Format.Cases.{
  loop-step, in_directive, decimal_step, unum_case, char_case, padded_case, width_case, in_text,
}

module _ (files : ℕ → Option (ℕ → ℕ)) (dev : ℕ) (en_stdout : Bool) where
  -- One piece, in front of the rest of the format
  pub loop-format :
      (p : Piece) (fmt : List ℕ) (l : ℕ) (w : ℤ) (padc : ℕ) (args : List Arg) (ret : ℤ) (out : Out)
      → IsPiece p
      → (l' : ℕ) × (w' : ℤ) × (padc' : ℕ) × (vprintf_loop files dev en_stdout
            (format p fmt)
            (in_text l w padc (argument p args) ret out)
          ≡ vprintf_loop files dev en_stdout fmt (
              in_text l' w' padc' args
                (ret +ℤ counted (ccpdfs_write files dev) p)
                (out ++ fputs en_stdout dev (printed p))))
  unfolding step convert convert_arg takes_arg end_case format argument counted printed IsPiece
      print_d ◌-ℤ◌
  loop-format (literal c) fmt l w padc args ret out h =
      (l, w, padc, loop-step files dev en_stdout c fmt _ _ (rw (ne→== c b'%' h) refl))
  loop-format percent fmt l w padc args ret out h = (
    0,
    pos 0,
    padc,
    loop-step files dev en_stdout _ _ _ _ refl ∙ loop-step files dev en_stdout _ _ _ _ refl,
  )
  loop-format (decimal false z) fmt l w padc args ret out h = (
    0,
    pos 0,
    padc,
    loop-step files dev en_stdout _ _ _ _ refl
        ∙ loop-step files dev en_stdout b'd' fmt _ _
            (decimal_step files dev en_stdout z 0 padc args ret out h),
  )
  loop-format (decimal true z) fmt l w padc args ret out h = (
    1,
    pos 0,
    padc,
    loop-step files dev en_stdout _ _ _ _ refl
        ∙ loop-step files dev en_stdout _ _ _ _ refl
        ∙ loop-step files dev en_stdout b'd' fmt _ _
            (decimal_step files dev en_stdout z 1 padc args ret out h),
  )
  loop-format (padded n z) fmt l w padc args ret out (hn, hz) = (
    0,
    pos n,
    b'0',
    loop-step files dev en_stdout _ _ _ _ refl
        ∙ loop-step files dev en_stdout _ _ _ _ refl
        ∙ loop-step files dev en_stdout (b'0' + n) (b'd' ∷ fmt) _ _
            (width_case files dev en_stdout n (number (pos z) ∷ args) ret out hn)
        ∙ loop-step files dev en_stdout b'd' fmt _ _
            (padded_case files dev en_stdout n z args ret out hz),
  )
  loop-format (unsigned n) fmt l w padc args ret out h = (
    0,
    pos 0,
    padc,
    loop-step files dev en_stdout _ _ _ _ refl
        ∙ loop-step files dev en_stdout b'u' fmt _ _
            (unum_case files dev en_stdout 10 [] n 0 padc args ret out refl h),
  )
  loop-format (hex false n) fmt l w padc args ret out h = (
    0,
    pos 0,
    padc,
    loop-step files dev en_stdout _ _ _ _ refl
        ∙ loop-step files dev en_stdout b'x' fmt _ _
            (unum_case files dev en_stdout 16 [] n 0 padc args ret out refl h),
  )
  loop-format (hex true n) fmt l w padc args ret out h = (
    1,
    pos 0,
    padc,
    loop-step files dev en_stdout _ _ _ _ refl
        ∙ loop-step files dev en_stdout _ _ _ _ refl
        ∙ loop-step files dev en_stdout b'x' fmt _ _
            (unum_case files dev en_stdout 16 [] n 1 padc args ret out refl h),
  )
  loop-format (pointer n) fmt l w padc args ret out h = (
    0,
    pos 0,
    padc,
    loop-step files dev en_stdout _ _ _ _ refl
        ∙ loop-step files dev en_stdout b'p' fmt _ _
            (unum_case files dev en_stdout 16 (b'0' ∷ b'x' ∷ []) n 0 padc args ret out refl h),
  )
  loop-format (str cs) fmt l w padc args ret out h = (
    0,
    pos 0,
    padc,
    loop-step files dev en_stdout _ _ _ _ refl ∙ loop-step files dev en_stdout _ _ _ _ refl,
  )
  loop-format (char c) fmt l w padc args ret out h = (
    0,
    pos 0,
    padc,
    loop-step files dev en_stdout _ _ _ _ refl
        ∙ loop-step files dev en_stdout b'c' fmt _ _
            (char_case files dev en_stdout c 0 padc args ret out h),
  )

  pub directive-stop :
      (c l padc : ℕ) (args : List Arg) (ret : ℤ) (out : Out)
      → takes_arg c ≡ false
      → c ≢ b'z'
      → c ≢ b'l'
      → c ≢ b'0'
      → c ≢ b'.'
      → c ≢ b'f'
      → c ≢ b'%'
      → step files dev en_stdout c (in_directive files dev en_stdout l (pos 0) padc args ret out)
        ≡ stop (negsuc 0) out
  unfolding step convert
  directive-stop c l padc args ret out none_ z long zero_ dot float per =
      rw
        (
          none_,
          ne→== c b'z' z,
          ne→== c b'l' long,
          ne→== c b'0' zero_,
          ne→== c b'.' dot,
          ne→== c b'f' float,
          ne→== c b'%' per,
        )
        refl
