-- ===== src/IniEdit/Lines.antt =====
-- Texts of whole lines, for src/kerchunk_ini_edit.c.
use kerchunk.Prelude.{ℕ, ◌≡◌, refl, Bool, true, false, ◌&&◌, ◌==◌, [], ◌∷◌, ◌++◌, arith}
use kerchunk.Text.{Bytes}
use kerchunk.Text.Laws.{Lacks, is_byte}
use kerchunk.IniEdit.{behind, line_ends, is_header_of, padding}

-- What is behind the text stands at the start of a line, where the text does or does not.
abbrev pub Closed : Bool → Bytes → Type 0
Closed start [] = start ≡ true
Closed start (c ∷ s) = Closed (c == b'\n') s

-- No line of the text starts with `[`.
abbrev pub Bare : Bool → Bytes → Type 0
Bare start [] = Unit {0}
Bare start (c ∷ s) = ((start && c == b'[') ≡ false) × Bare (c == b'\n') s

pub Closed-append :
    (start : Bool) (a b : Bytes) → Closed start a → Closed true b → Closed start (a ++ b)
Closed-append start [] b ca cb = ground arith
Closed-append start (c ∷ a) b ca cb = Closed-append (c == b'\n') a b ca cb

-- Padding ends a line.
pub padding-Closed : (start : Bool) (s : Bytes) → Closed start (s ++ padding s)
unfolding padding
padding-Closed start [] = refl
padding-Closed start (c ∷ []) = ground arith
padding-Closed start (c ∷ d ∷ []) = ground arith
padding-Closed start (c ∷ d ∷ e ∷ s) = padding-Closed (c == b'\n') (d ∷ e ∷ s)

-- A header is on one line: whole lines tell whether it stands there, whatever follows them.
behind-append :
    (p a b : Bytes)
    → Lacks (is_byte b'\n') p
    → Closed false a
    → line_ends (behind p (a ++ b)) ≡ line_ends (behind p a)
unfolding behind
behind-append [] [] b l c = cc
behind-append [] (x ∷ a) b l c = refl
behind-append (y ∷ p) [] b l c = cc
behind-append (y ∷ p) (x ∷ []) b l c = ground arith
behind-append (y ∷ p) (x ∷ z ∷ a) b l c = ground (arith, behind-append p (z ∷ a) b l.1 c)

pub Lacks-append : (p : ℕ → Bool) (a b : Bytes) → Lacks p a → Lacks p b → Lacks p (a ++ b)
Lacks-append p [] b la lb = lb
Lacks-append p (c ∷ a) b la lb = (la.0, Lacks-append p a b la.1 lb)

header_text_Lacks :
    (section : Bytes)
    → Lacks (is_byte b'\n') section
    → Lacks (is_byte b'\n') (b'[' ∷ section ++ (b']' ∷ []))
header_text_Lacks section l = (refl, Lacks-append (is_byte b'\n') section (b']' ∷ []) l (refl, tt))

pub is_header_of-append :
    (section : Bytes) (c : ℕ) (a b : Bytes)
    → Lacks (is_byte b'\n') section
    → Closed false (c ∷ a)
    → is_header_of section ((c ∷ a) ++ b) ≡ is_header_of section (c ∷ a)
unfolding is_header_of
is_header_of-append section c a b l closed =
    behind-append (b'[' ∷ section ++ (b']' ∷ [])) (c ∷ a) b (header_text_Lacks section l) closed

-- The same of newlines behind the text.
abbrev pub Newlines : Bytes → Type 0
Newlines [] = Unit {0}
Newlines (c ∷ s) = (c ≡ b'\n') × Newlines s

pub padding-Newlines : (s : Bytes) → Newlines (padding s)
unfolding padding
padding-Newlines [] = (refl, (refl, tt))
padding-Newlines (c ∷ []) = ground arith
padding-Newlines (c ∷ d ∷ []) = ground arith
padding-Newlines (c ∷ d ∷ e ∷ s) = padding-Newlines (d ∷ e ∷ s)

behind-Newlines :
    (p a b : Bytes)
    → Lacks (is_byte b'\n') p
    → Newlines b
    → line_ends (behind p (a ++ b)) ≡ line_ends (behind p a)
unfolding behind
behind-Newlines [] [] [] l n = refl
behind-Newlines [] [] (z ∷ b) l n = ground arith
behind-Newlines [] (x ∷ a) b l n = refl
behind-Newlines (y ∷ p) [] [] l n = refl
behind-Newlines (y ∷ p) [] (z ∷ b) l n = ground arith
behind-Newlines (y ∷ p) (x ∷ a) b l n = ground (arith, behind-Newlines p a b l.1 n)

pub is_header_of-Newlines :
    (section a b : Bytes)
    → Lacks (is_byte b'\n') section
    → Newlines b
    → is_header_of section (a ++ b) ≡ is_header_of section a
unfolding is_header_of
is_header_of-Newlines section a b l n =
    behind-Newlines (b'[' ∷ section ++ (b']' ∷ [])) a b (header_text_Lacks section l) n
