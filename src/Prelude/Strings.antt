-- ===== src/Prelude/Strings.antt =====
-- C strings as lists of bytes, without the final zero.
use Prim.Native.Nat.{ℕ}
use mathlib.Core.Path.{◌≡◌, refl}
use mathlib.Core.Bool.{Bool, true, false, ◌&&◌}
use mathlib.Core.List.{List, [], ◌∷◌}
use native.Mathlib.Omega.{arith}
use belle_sip.Prelude.Tests.{◌==◌}

abbrev pub String : Type 0
String = List ℕ

-- strcmp(a,b)==0
abbrev pub same_string : String → String → Bool
same_string [] [] = true
same_string [] (y ∷ b) = false
same_string (x ∷ a) [] = false
same_string (x ∷ a) (y ∷ b) = x == y && same_string a b

pub same_string_refl : (a : String) → same_string a a ≡ true
same_string_refl [] = refl
same_string_refl (x ∷ a) = ground (arith, same_string_refl a)

pub same_string-≡ : (a b : String) → same_string a b ≡ true → a ≡ b
same_string-≡ [] [] h = refl
same_string-≡ [] (y ∷ b) h = absurd (ground arith)
same_string-≡ (x ∷ a) [] h = absurd (ground arith)
same_string-≡ (x ∷ a) (y ∷ b) h = ground (arith, same_string-≡ a b)

pub same_string_sym : (a b : String) → same_string a b ≡ same_string b a
same_string_sym [] [] = refl
same_string_sym [] (y ∷ b) = refl
same_string_sym (x ∷ a) [] = refl
same_string_sym (x ∷ a) (y ∷ b) = ground (arith, same_string_sym a b)

-- What one string is the same as, the other is the same as.
pub same_string_transport :
    (a b c : String) → same_string a b ≡ true → same_string a c ≡ same_string b c
same_string_transport a b c h = rw (same_string-≡ a b h) refl
