-- ===== src/Text/Laws.antt =====
-- Laws of the text functions.
use kerchunk.Prelude.{ℕ, ◌≡◌, refl, ap, ◌∙◌, Bool, true, false, ◌==◌, some, [], ◌∷◌, ◌++◌, arith}
use kerchunk.Text.{Bytes, same_text, is_space, cut_at, trim_start, trim_end, trim}

pub same_text_self : (s : Bytes) → same_text s s ≡ true
unfolding same_text
same_text_self [] = refl
same_text_self (c ∷ s) = ground (arith, same_text_self s)

pub same_text-eq : (s t : Bytes) → same_text s t ≡ true → s ≡ t
unfolding same_text
same_text-eq [] [] h = refl
same_text-eq [] (d ∷ t) h = cc
same_text-eq (c ∷ s) [] h = cc
same_text-eq (c ∷ s) (d ∷ t) h = ground (arith, same_text-eq s t)

pub same_text_sym : (s t : Bytes) → same_text s t ≡ same_text t s
unfolding same_text
same_text_sym [] [] = refl
same_text_sym [] (d ∷ t) = refl
same_text_sym (c ∷ s) [] = refl
same_text_sym (c ∷ s) (d ∷ t) = ground (arith, same_text_sym s t)

pub same_text_left : (s t u : Bytes) → same_text s t ≡ true → same_text s u ≡ same_text t u
same_text_left s t u h = ap (λ v. same_text v u) (same_text-eq s t h)

-- No byte of a text passes a test.
abbrev pub Lacks : (ℕ → Bool) → Bytes → Type 0
Lacks p [] = Unit {0}
Lacks p (c ∷ s) = (p c ≡ false) × Lacks p s

abbrev pub is_byte : ℕ → ℕ → Bool
is_byte d c = c == d

pub cut_at-append :
    (d : ℕ) (a b : Bytes) → Lacks (is_byte d) a → cut_at d (a ++ (d ∷ b)) ≡ some (a, b)
unfolding cut_at
cut_at-append d [] b n = ground arith
cut_at-append d (c ∷ a) b n = ground (arith, cut_at-append d a b n.1)

-- A text that starts with no space, and one that ends with none.
abbrev pub StartsTight : Bytes → Type 0
StartsTight [] = Unit {0}
StartsTight (c ∷ s) = is_space c ≡ false

abbrev pub EndsTight : Bytes → Type 0
EndsTight [] = Unit {0}
EndsTight (c ∷ []) = is_space c ≡ false
EndsTight (c ∷ d ∷ s) = EndsTight (d ∷ s)

pub trim_start_tight : (s : Bytes) → StartsTight s → trim_start s ≡ s
unfolding trim_start
trim_start_tight [] h = refl
trim_start_tight (c ∷ s) h = ground arith

pub trim_end_tight : (s : Bytes) → EndsTight s → trim_end s ≡ s
unfolding trim_end
trim_end_tight [] h = refl
trim_end_tight (c ∷ []) h = ground arith
trim_end_tight (c ∷ d ∷ s) h = rw (trim_end_tight (d ∷ s) h)

-- Spaces behind a tight end go.
pub trim_end-space : (s : Bytes) (c : ℕ) → is_space c ≡ true → trim_end (s ++ (c ∷ [])) ≡ trim_end s
unfolding trim_end
trim_end-space [] c h = ground arith
trim_end-space (d ∷ s) c h = ground (arith, trim_end-space s c h)

pub EndsTight-append :
    (s : Bytes) (c : ℕ) (t : Bytes) → EndsTight (c ∷ t) → EndsTight (s ++ (c ∷ t))
EndsTight-append [] c t h = h
EndsTight-append (d ∷ []) c t h = h
EndsTight-append (d ∷ e ∷ s) c t h = EndsTight-append (e ∷ s) c t h

pub trim_tight : (s : Bytes) → StartsTight s → EndsTight s → trim s ≡ s
unfolding trim
trim_tight s a b = ap trim_end (trim_start_tight s a) ∙ trim_end_tight s b
