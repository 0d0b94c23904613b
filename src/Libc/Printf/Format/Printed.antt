-- ===== src/Libc/Printf/Format/Printed.antt =====
-- A format that is made of pieces prints their meanings, whatever the device.
use cyancore.Common.{ℕ, ◌≡◌, ◌≢◌, refl, ap, ◌∙◌, Bool, false, Option, some, List, [], ◌∷◌, ◌++◌}
use cyancore.Common.Int.{ℤ, pos, negsuc, ◌+ℤ◌}
use cyancore.Libc.Printf.Format.{Out, fputs, ccpdfs_write, takes_arg, step, vprintf_loop, vprintf}
use cyancore.Libc.Printf.Format.Pieces.{
  Piece, ArePieces, meaning, weight, format_all, arguments, weights, meanings,
}
use cyancore.Libc.Printf.Format.Numerals.{printed-meaning, counted-weight}
use cyancore.Libc.Printf.Format.Cases.{in_text, loop-step, loop-stop}
use cyancore.Libc.Printf.Format.Steps.{loop-format, directive-stop}

module _ (files : ℕ → Option (ℕ → ℕ)) (dev : ℕ) (en_stdout : Bool) where
  loop-format_all :
      (ps : List Piece) (l : ℕ) (w : ℤ) (padc : ℕ) (ret : ℤ) (out : Out) (fmt : List ℕ)
      → ArePieces ps
      → (l' : ℕ) × (w' : ℤ) × (padc' : ℕ) × (vprintf_loop files dev en_stdout
            (format_all ps fmt)
            (in_text l w padc (arguments ps) ret out)
          ≡ vprintf_loop files dev en_stdout fmt (
              in_text l' w' padc' []
                (weights (ccpdfs_write files dev) ret ps)
                (meanings en_stdout dev out ps)))
  unfolding format_all arguments weights meanings ArePieces
  loop-format_all [] l w padc ret out fmt h = (l, w, padc, refl)
  loop-format_all (p ∷ ps) l w padc ret out fmt (h, hs) =
      let (l1, w1, padc1, e0) =
        loop-format files dev en_stdout p (format_all ps fmt) l w padc (arguments ps) ret out h in
      let e1 =
        e0
        ∙ ap
            (λ (v : ℤ × List ℕ).
              vprintf_loop files dev en_stdout (format_all ps fmt)
                (in_text l1 w1 padc1 (arguments ps) (ret +ℤ v.0) (out ++ fputs en_stdout dev v.1)))
            (λ i. (counted-weight (ccpdfs_write files dev) p i, printed-meaning p i)) in
      let (l2, w2, padc2, e2) =
        loop-format_all ps l1 w1 padc1 (ret +ℤ weight (ccpdfs_write files dev) p)
          (out ++ fputs en_stdout dev (meaning p)) fmt hs in
      (l2, w2, padc2, e1 ∙ e2)

-- A percent sign in front of any character that no case of the switch names, behind such a format, ends the
-- printing: the result is -1, whatever was printed before, and nothing of what follows is printed.
pub vprintf-invalid :
    (files : ℕ → Option (ℕ → ℕ)) (dev : ℕ) (en_stdout : Bool) (ps : List Piece) (c : ℕ)
    (fmt : List ℕ)
    → ArePieces ps
    → takes_arg c ≡ false
    → c ≢ b'z'
    → c ≢ b'l'
    → c ≢ b'0'
    → c ≢ b'.'
    → c ≢ b'f'
    → c ≢ b'%'
    → vprintf files dev en_stdout (format_all ps (b'%' ∷ c ∷ fmt)) (arguments ps)
      ≡ some (negsuc 0, meanings en_stdout dev [] ps)
unfolding vprintf step
vprintf-invalid files dev en_stdout ps c fmt h none_ z long zero_ dot float per =
    let (l, w, padc, e) =
      loop-format_all files dev en_stdout ps 0 (pos 0) 0 (pos 0) [] (b'%' ∷ c ∷ fmt) h in
    let out = meanings en_stdout dev [] ps in
    e
    ∙ loop-step files dev en_stdout b'%' (c ∷ fmt) _ _ refl
    ∙ loop-stop files dev en_stdout c fmt _ (negsuc 0) out
        (directive-stop files dev en_stdout c 0 padc [] _ out none_ z long zero_ dot float per)
