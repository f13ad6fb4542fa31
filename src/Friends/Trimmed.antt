-- ===== src/Friends/Trimmed.antt =====
-- friends/commands.go: what `trimSpace` leaves.
use Prim.Native.Char.{Char, code}
use fngo.Prelude.{
  ◌==◌, string_eq, String, Bool, true, false, ◌≡◌, refl, ap, Bool-cases, inl, inr, eq_iff,
}
use fngo.GoStrings.{trim_left, trim_right, cons_unless}
use fngo.Friends.{trim, is_blank}

-- no blank at the front
abbrev Starts : String → Type 0
Starts String.[] = Unit
Starts (String.◌∷◌ c s) = is_blank (code c) ≡ false

trim_left-Starts : (s : String) → Starts (trim_left is_blank s)
unfolding trim_left
trim_left-Starts String.[] = tt
trim_left-Starts (String.◌∷◌ c s) = elim (Bool-cases (is_blank (code c))) [
  | inl b ↦ rw b (trim_left-Starts s)
  | inr b ↦ rw b b
]

cons_unless-Starts :
    (c : Char) (s : String) → is_blank (code c) ≡ false → Starts (cons_unless is_blank c s)
cons_unless-Starts c String.[] h = rw h h
cons_unless-Starts c (String.◌∷◌ d s) h = h

trim_right-Starts : (s : String) → Starts s → Starts (trim_right is_blank s)
unfolding trim_right
trim_right-Starts String.[] h = tt
trim_right-Starts (String.◌∷◌ c s) h = cons_unless-Starts c (trim_right is_blank s) h

trim_left-eq : (s : String) → Starts s → trim_left is_blank s ≡ s
unfolding trim_left
trim_left-eq String.[] h = refl
trim_left-eq (String.◌∷◌ c s) h = rw h refl

abbrev is_empty : String → Bool
is_empty String.[] = true
is_empty (String.◌∷◌ c s) = false

filled : (c : Char) (s : String) → (String.◌∷◌ c s == "") ≡ false
filled c s = elim (Bool-cases (String.◌∷◌ c s == "")) [
  | inl b ↦ absurd (let e = ap is_empty ((eq_iff (String.◌∷◌ c s) "").0 b) in cc)
  | inr b ↦ b
]

cons_unless-filled :
    (c : Char) (s : String) → is_blank (code c) ≡ false → (cons_unless is_blank c s == "") ≡ false
cons_unless-filled c String.[] h = rw h (filled c String.[])
cons_unless-filled c (String.◌∷◌ d s) h = filled c (String.◌∷◌ d s)

trim_right-filled :
    (s : String) → Starts s → (s == "") ≡ false → (trim_right is_blank s == "") ≡ false
unfolding trim_right
trim_right-filled String.[] h k = k
trim_right-filled (String.◌∷◌ c s) h k = cons_unless-filled c (trim_right is_blank s) h

-- A text that is not blank is not blank once its blanks are trimmed.
pub trim-filled : (s : String) → (trim s == "") ≡ false → (trim (trim s) == "") ≡ false
unfolding trim
trim-filled s h =
    let t = trim_right is_blank (trim_left is_blank s) in
    let starts = trim_right-Starts (trim_left is_blank s) (trim_left-Starts s) in
    rw (trim_left-eq t starts) (trim_right-filled t starts h)
