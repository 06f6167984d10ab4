-- ===== src/Printk/Formats.antt =====
-- Formats that lib/printk.c prints to their end.
use oslab.Base.{
  ℕ, ◌%◌, ◌^◌, ◌<◌, ◌≡◌, ◌≢◌, refl, ap, ◌∙◌, Bool, true, false, Option, none, some, List, [], ◌∷◌,
  ◌++◌, ne→==,
}
use oslab.Printk.{
  Arg, word, text, Output, finished, emit, number, then_print, percent, print_d, print_x, directive,
  vfprintf,
}
use oslab.Printk.Digits.{print_d-read_int, print_x-read_hex}

-- A piece of a format: a character that is no `%`, or a directive with its argument.
pub data Piece : Type 0 where
  plain : (c : ℕ) → Piece
  decimal hex char : (n : ℕ) → Piece
  string : (address : ℕ) → List ℕ → Piece
  percent_sign : Piece

-- The text of the format and the arguments that the pieces stand for.
abbrev pub format : List Piece → List ℕ
format [] = []
format (plain c ∷ ps) = c ∷ format ps
format (decimal n ∷ ps) = percent ∷ 100 ∷ format ps
format (hex n ∷ ps) = percent ∷ 120 ∷ format ps
format (char n ∷ ps) = percent ∷ 99 ∷ format ps
format (string a cs ∷ ps) = percent ∷ 115 ∷ format ps
format (percent_sign ∷ ps) = percent ∷ percent ∷ format ps

abbrev pub args_of : List Piece → List Arg
args_of [] = []
args_of (plain c ∷ ps) = args_of ps
args_of (decimal n ∷ ps) = word n ∷ args_of ps
args_of (hex n ∷ ps) = word n ∷ args_of ps
args_of (char n ∷ ps) = word n ∷ args_of ps
args_of (string a cs ∷ ps) = text a cs ∷ args_of ps
args_of (percent_sign ∷ ps) = args_of ps

-- The characters of the pieces one after another.
abbrev chars_or_none : Option (List ℕ) → List ℕ
chars_or_none none = []
chars_or_none (some cs) = cs

abbrev pub printed : List Piece → List ℕ
printed [] = []
printed (plain c ∷ ps) = c ∷ printed ps
printed (decimal n ∷ ps) = chars_or_none (print_d n) ++ printed ps
printed (hex n ∷ ps) = chars_or_none (print_x n) ++ printed ps
printed (char n ∷ ps) = n % 256 ∷ printed ps
printed (string a cs ∷ ps) = cs ++ printed ps
printed (percent_sign ∷ ps) = percent ∷ printed ps

-- A plain character is no `%`, and a number is a 32-bit one.
abbrev pub Sound : List Piece → Type 0
Sound [] = Unit
Sound (plain c ∷ ps) = (c ≢ percent) × Sound ps
Sound (decimal n ∷ ps) = (n < 2 ^ 32) × Sound ps
Sound (hex n ∷ ps) = (n < 2 ^ 32) × Sound ps
Sound (char n ∷ ps) = Sound ps
Sound (string a cs ∷ ps) = Sound ps
Sound (percent_sign ∷ ps) = Sound ps

vfprintf-plain :
    (c : ℕ) (ctl : List ℕ) (args : List Arg)
    → c ≢ percent
    → vfprintf (c ∷ ctl) args ≡ emit (c ∷ []) (vfprintf ctl args)
unfolding vfprintf
vfprintf-plain c [] args ne = rw (ne→== c percent ne) refl
vfprintf-plain c (k ∷ ctl) args ne =
    ap
      (λ (b : Bool). elim b as (λ x. Output) [
        | true ↦ directive k args (vfprintf ctl)
        | false ↦ emit (c ∷ []) (vfprintf (k ∷ ctl) args)
      ])
      (ne→== c percent ne)

vfprintf-directive :
    (kind : ℕ) (ctl : List ℕ) (args : List Arg)
    → vfprintf (percent ∷ kind ∷ ctl) args ≡ directive kind args (vfprintf ctl)
unfolding vfprintf
vfprintf-directive kind ctl args = refl

number-printed :
    (o : Option (List ℕ)) (cs : List ℕ) (next : Output)
    → o ≡ some cs
    → then_print (number o) next ≡ emit (chars_or_none o) next
number-printed none cs next e = cc
number-printed (some ds) cs next e = refl

-- A format of sound pieces with their arguments is printed to its end: no assertion, no read past the
-- arguments, no overflow of the buffer; the output is that of the pieces one after another.
pub vfprintf-printed :
    (ps : List Piece)
    → Sound ps
    → vfprintf (format ps) (args_of ps) ≡ record { chars = printed ps; status = finished }
unfolding directive vfprintf
vfprintf-printed [] s = refl
vfprintf-printed (plain c ∷ ps) (ne, s) =
    vfprintf-plain c (format ps) (args_of ps) ne ∙ ap (emit (c ∷ [])) (vfprintf-printed ps s)
vfprintf-printed (decimal n ∷ ps) (h, s) =
    let (cs, run, value) = print_d-read_int n h in
    vfprintf-directive 100 (format ps) (word n ∷ args_of ps)
    ∙ number-printed (print_d n) cs (vfprintf (format ps) (args_of ps)) run
    ∙ ap (emit (chars_or_none (print_d n))) (vfprintf-printed ps s)
vfprintf-printed (hex n ∷ ps) (h, s) =
    let (cs, run, value, zero_case) = print_x-read_hex n h in
    vfprintf-directive 120 (format ps) (word n ∷ args_of ps)
    ∙ number-printed (print_x n) cs (vfprintf (format ps) (args_of ps)) run
    ∙ ap (emit (chars_or_none (print_x n))) (vfprintf-printed ps s)
vfprintf-printed (char n ∷ ps) s =
    vfprintf-directive 99 (format ps) (word n ∷ args_of ps)
    ∙ ap (emit (n % 256 ∷ [])) (vfprintf-printed ps s)
vfprintf-printed (string a cs ∷ ps) s =
    vfprintf-directive 115 (format ps) (text a cs ∷ args_of ps)
    ∙ ap (emit cs) (vfprintf-printed ps s)
vfprintf-printed (percent_sign ∷ ps) s =
    vfprintf-directive percent (format ps) (args_of ps)
    ∙ ap (emit (percent ∷ [])) (vfprintf-printed ps s)
