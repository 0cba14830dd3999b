-- ===== src/Prelude/Texts.antt =====
-- Go's `==` as an interface, and texts. A `Text` is the list of the code points of a Go string
-- that is valid UTF-8, so it can be compared, cut and joined character by character.
use Prim.Native.Nat.{ℕ}
use Prim.Native.Char.{code}
use Prim.Native.String.{String}
use mathlib.Core.Path.{◌≡◌, refl}
use mathlib.Core.Logic.{◌↔◌, ◌≢◌}
use mathlib.Core.Bool.{Bool, true, false, ◌&&◌}
use mathlib.Core.List.{List, [], ◌∷◌}
use native.Mathlib.Omega.{arith}
use docker_coredns_sync.Prelude.Tests.{nat_beq, nat_beq_iff}

-- A key of a Go map, or any other type whose values the program compares.
pub record Eq {ℓ} (K : Type ℓ) : Type ℓ where
  pub beq : K → K → Bool
  pub beq_iff : (i j : K) → (beq i j ≡ true) ↔ (i ≡ j)

infix 50 ◌==◌
module _ {ℓ} {K : Type ℓ} ⦃same : Eq K⦄ where
  abbrev pub ◌==◌ : K → K → Bool
  ◌==◌ = same.beq

module _ {ℓ} {K : Type ℓ} ⦃same : Eq K⦄ where
  pub eq_iff : (i j : K) → ((i == j) ≡ true) ↔ (i ≡ j)
  eq_iff = same.beq_iff

  pub eq_refl : (i : K) → (i == i) ≡ true
  eq_refl i = (same.beq_iff i i).1 refl

  pub eq_ne : (i j : K) → i ≢ j → (i == j) ≡ false
  eq_ne i j h = ground (arith, same.beq_iff i j)

abbrev pub Text : Type 0
Text = List ℕ

abbrev pub codes : String → Text
codes String.[] = []
codes (String.◌∷◌ c s) = code c ∷ codes s

unfoldable pub text_beq : Text → Text → Bool
text_beq [] [] = true
text_beq (c ∷ s) (d ∷ t) = nat_beq c d && text_beq s t
text_beq _ _ = false

pub text_beq_iff : (s t : Text) → (text_beq s t ≡ true) ↔ (s ≡ t)
unfolding text_beq
text_beq_iff [] [] = ground arith
text_beq_iff (c ∷ s) (d ∷ t) = ground (arith, nat_beq_iff c d, text_beq_iff s t)
text_beq_iff [] (d ∷ t) = ground arith
text_beq_iff (c ∷ s) [] = ground arith

instance abbrev pub text_eq : Eq Text
text_eq = record { beq = text_beq; beq_iff = text_beq_iff }

instance abbrev pub nat_eq : Eq ℕ
nat_eq = record { beq = nat_beq; beq_iff = nat_beq_iff }
