-- ===== src/Libc/Printf/Format/Cases.antt =====
-- What each case of the switch leaves.
use cyancore.Common.{
  ℕ, suc, ◌+◌, ◌-◌, ◌%◌, ◌^◌, ◌<◌, ◌≡◌, refl, sym, ap, ◌∙◌, Bool, false, Option, some, List, [],
  ◌∷◌, ◌++◌, le→leb, length, replicate, arith,
}
use cyancore.Common.Int.{
  ℤ, pos, negsuc, pos_part, ◌+ℤ◌, ◌-ℤ◌, ◌*ℤ◌, InRange, wrap, wrap32-InRange, eq_of_parts, +ℤ_parts,
}
use mathlib.Core.List.{reverse}
use cyancore.Libc.Printf.{fill, max_digits, unumprint, print_d}
use cyancore.Libc.Printf.Format.{
  Arg, number, text, directive, width, State, go, stop, Out, fputs, ccpdfs_write, get_num_va_args,
  get_unum_va_args, end_case, print_num, print_unum, convert_arg, takes_arg, convert, step,
  vprintf_loop,
}
use cyancore.Libc.Printf.Format.Pieces.{decimal}
use cyancore.Libc.Printf.Format.Numerals.{counted}

-- Without a width nothing is padded.
unpadded :
    (u radix padc : ℕ) (w : ℤ)
    → pos_part w ≡ 0
    → unumprint u radix padc w ≡ unumprint u radix 0 (pos 0)
unfolding unumprint
unpadded u radix padc w e =
    let buf = fill max_digits u radix in
    let left : pos_part w - length buf ≡ 0 = omega (arith, e) in
    let right : 0 - length buf ≡ 0 = omega arith in
    ap (λ m. replicate m padc ++ reverse buf) left
    ∙ sym (ap (λ m. replicate m 0 ++ reverse buf) right)

-- A state in the text
abbrev pub in_text : (l : ℕ) (w : ℤ) (padc : ℕ) → List Arg → ℤ → Out → State
in_text l w padc args ret out = record {
  mode = text;
  l_ret = l;
  padn = w;
  padc = padc;
  args = args;
  ret = ret;
  out = out;
}

-- A digit behind the zero is the width.
one_digit : (n : ℕ) → pos 0 *ℤ pos 10 +ℤ pos (b'0' + n - b'0') ≡ pos n
unfolding ◌*ℤ◌
one_digit n = eq_of_parts _ _ (omega (arith, +ℤ_parts (pos 0 *ℤ pos 10) (pos (b'0' + n - b'0'))))

module _ (files : ℕ → Option (ℕ → ℕ)) (dev : ℕ) (en_stdout : Bool) where
  pub loop-step :
      (c : ℕ) (fmt : List ℕ) (s s' : State)
      → step files dev en_stdout c s ≡ go s'
      → vprintf_loop files dev en_stdout (c ∷ fmt) s ≡ vprintf_loop files dev en_stdout fmt s'
  unfolding vprintf_loop
  loop-step c fmt s s' e = rw (vprintf_loop, e) refl

  pub loop-stop :
      (c : ℕ) (fmt : List ℕ) (s : State) (ret : ℤ) (out : Out)
      → step files dev en_stdout c s ≡ stop ret out
      → vprintf_loop files dev en_stdout (c ∷ fmt) s ≡ some (ret, out)
  unfolding vprintf_loop
  loop-stop c fmt s ret out e = rw (vprintf_loop, e) refl

  -- What a case leaves
  abbrev behind : (chars : List ℕ) (count : ℤ) (args : List Arg) → State → State
  behind chars count args s = record s {
    mode = text;
    args = args;
    ret = s.ret +ℤ count;
    out = s.out ++ fputs en_stdout dev chars;
  }

  -- A state behind a percent sign
  abbrev pub in_directive : (l : ℕ) (w : ℤ) (padc : ℕ) → List Arg → ℤ → Out → State
  in_directive l w padc args ret out = record (in_text l w padc args ret out) { mode = directive }

  print_unum-behind :
      (radix : ℕ) (prefix : List ℕ) (u l padc : ℕ) (had args : List Arg) (ret : ℤ) (out : Out)
      → pos_part (pos 0 -ℤ pos (length prefix)) ≡ 0
      → let chars = prefix ++ unumprint u radix 0 (pos 0) in
        let s = in_directive l (pos 0) padc had ret out in
        print_unum files dev en_stdout radix prefix u args s
        ≡ go (behind chars (pos (length chars)) args s)
  unfolding print_unum end_case
  print_unum-behind radix prefix u l padc had args ret out e =
      ap
        (λ d. go (
          behind (prefix ++ d) (pos (length (prefix ++ d))) args
            (in_directive l (pos 0) padc had ret out)))
        (unpadded u radix padc (pos 0 -ℤ pos (length prefix)) e)

  print_num-behind :
      (n l padc : ℕ) (w : ℤ) (had args : List Arg) (ret : ℤ) (out : Out)
      → n < 2 ^ 32
      → let chars = unumprint n 10 padc w in
        let s = in_directive l w padc had ret out in
        print_num files dev en_stdout (pos n) args s ≡ go (behind chars (pos (length chars)) args s)
  unfolding print_num end_case
  print_num-behind n l padc w had args ret out h =
      ap
        (λ v. go (
          behind (unumprint v 10 padc w) (pos (length (unumprint v 10 padc w))) args
            (in_directive l w padc had ret out)))
        (omega (arith, h))

  print_decimal :
      (z : ℤ) (l padc : ℕ) (had args : List Arg) (ret : ℤ) (out : Out)
      → InRange 32 z
      → let s = in_directive l (pos 0) padc had ret out in
        print_num files dev en_stdout z args s
        ≡ go (behind (print_d z) (counted (ccpdfs_write files dev) (decimal false z)) args s)
  unfolding print_num end_case print_d counted ◌-ℤ◌
  print_decimal (pos n) l padc had args ret out h =
      let fits : n % 2 ^ 32 ≡ n = omega (arith, h) in
      ap (λ d. go (behind d (pos (length d)) args (in_directive l (pos 0) padc had ret out)))
        (ap (λ v. unumprint v 10 padc (pos 0)) fits ∙ unpadded n 10 padc (pos 0) refl)
  print_decimal (negsuc n) l padc had args ret out h =
      let s = in_directive l (pos 0) padc had ret out in
      let x = unumprint (suc n % 2 ^ 32) 10 padc (negsuc 0) in
      let fits : suc n % 2 ^ 32 ≡ suc n = omega (arith, h) in
      let e =
        ap (λ v. unumprint v 10 padc (negsuc 0)) fits ∙ unpadded (suc n) 10 padc (negsuc 0) refl in
      ap (λ d. go (behind (b'-' ∷ d) (pos (length x)) args s))
        (e ∙ sym (unpadded (suc n) 10 0 (negsuc 0) refl))
      ∙ ap (λ d. go (behind (print_d (negsuc n)) (pos (length d)) args s)) e

  pub decimal_step :
      (z : ℤ) (l padc : ℕ) (args : List Arg) (ret : ℤ) (out : Out)
      → InRange 32 z
      → let s = in_directive l (pos 0) padc (number z ∷ args) ret out in
        step files dev en_stdout b'd' s
        ≡ go (behind (print_d z) (counted (ccpdfs_write files dev) (decimal false z)) args s)
  unfolding step convert convert_arg takes_arg get_num_va_args
  decimal_step z l padc args ret out h =
      let s = in_directive l (pos 0) padc (number z ∷ args) ret out in
      ap (λ v. print_num files dev en_stdout v args s) (wrap32-InRange z h)
      ∙ print_decimal z l padc (number z ∷ args) args ret out h

  pub unum_case :
      (radix : ℕ) (prefix : List ℕ) (n l padc : ℕ) (args : List Arg) (ret : ℤ) (out : Out)
      → pos_part (pos 0 -ℤ pos (length prefix)) ≡ 0
      → n < 2 ^ 32
      → let chars = prefix ++ unumprint n radix 0 (pos 0) in
        let s = in_directive l (pos 0) padc (number (pos n) ∷ args) ret out in
        print_unum files dev en_stdout radix prefix (get_unum_va_args (pos n)) args s
        ≡ go (behind chars (pos (length chars)) args s)
  unfolding get_unum_va_args
  unum_case radix prefix n l padc args ret out e h =
      let had = number (pos n) ∷ args in
      let fits : n % 2 ^ 32 ≡ n = omega (arith, h) in
      ap
        (λ v.
          print_unum files dev en_stdout radix prefix v args
            (in_directive l (pos 0) padc had ret out))
        fits
      ∙ print_unum-behind radix prefix n l padc had args ret out e

  pub char_case :
      (c l padc : ℕ) (args : List Arg) (ret : ℤ) (out : Out)
      → c < 2 ^ 8
      → let s = in_directive l (pos 0) padc (number (pos c) ∷ args) ret out in
        step files dev en_stdout b'c' s
        ≡ go (behind (c ∷ []) (wrap 32 (pos (ccpdfs_write files dev c))) args s)
  unfolding step convert convert_arg takes_arg end_case get_unum_va_args
  char_case c l padc args ret out h =
      let fits : c % 2 ^ 32 % 2 ^ 8 ≡ c = omega (arith, h) in
      ap
        (λ v. go (
          behind (v ∷ []) (wrap 32 (pos (ccpdfs_write files dev v))) args
            (in_directive l (pos 0) padc (number (pos c) ∷ args) ret out)))
        fits

  -- A state in a width
  abbrev in_width : (n : ℕ) → List Arg → ℤ → Out → State
  in_width n args ret out = record (in_text 0 (pos n) b'0' args ret out) { mode = width }

  pub padded_case :
      (n z : ℕ) (args : List Arg) (ret : ℤ) (out : Out)
      → z < 2 ^ 31
      → let chars = unumprint z 10 b'0' (pos n) in
        step files dev en_stdout b'd' (in_width n (number (pos z) ∷ args) ret out)
        ≡ go (
            behind chars
              (pos (length chars))
              args
              (in_directive 0 (pos n) b'0' (number (pos z) ∷ args) ret out))
  unfolding step convert convert_arg takes_arg get_num_va_args
  padded_case n z args ret out h =
      let had = number (pos z) ∷ args in
      ap (λ v. print_num files dev en_stdout v args (in_directive 0 (pos n) b'0' had ret out))
        (wrap32-InRange (pos z) h)
      ∙ print_num-behind z 0 b'0' (pos n) had args ret out (omega (arith, h))

  pub width_case :
      (n : ℕ) (args : List Arg) (ret : ℤ) (out : Out)
      → n < 10
      → step files dev en_stdout (b'0' + n) (in_width 0 args ret out) ≡ go (in_width n args ret out)
  unfolding step
  width_case n args ret out h =
      rw (le→leb b'0' (b'0' + n) (omega arith), le→leb (b'0' + n) b'9' (omega (arith, h)))
        (ap (λ v. go (record (in_width 0 args ret out) { padn = v })) (one_digit n))
