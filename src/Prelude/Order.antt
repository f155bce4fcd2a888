-- ===== src/Prelude/Order.antt =====
-- A total preorder given by its Boolean test, in place of the trait `Ord`.
use Prim.Native.Nat.{ℕ}
use mathlib.Core.Path.{◌≡◌}
use mathlib.Core.Bool.{Bool, true, false, not}
use native.Mathlib.Omega.{arith}
use wirefilter.Prelude.Tests.{leb as nat_leb}

pub record Ord {ℓ} (A : Type ℓ) : Type ℓ where
  pub le : A → A → Bool
  pub le_trans : (a b c : A) → le a b ≡ true → le b c ≡ true → le a c ≡ true
  pub le_total : (a b : A) → le a b ≡ false → le b a ≡ true

module _ {ℓ} {A : Type ℓ} ⦃o : Ord A⦄ where
  abbrev pub le? : A → A → Bool
  le? a b = o.le a b

  abbrev pub lt? : A → A → Bool
  lt? a b = not (o.le b a)

pub nat_trans : (a b c : ℕ) → nat_leb a b ≡ true → nat_leb b c ≡ true → nat_leb a c ≡ true
nat_trans a b c h k = ground arith

pub nat_total : (a b : ℕ) → nat_leb a b ≡ false → nat_leb b a ≡ true
nat_total a b h = ground arith

instance abbrev pub nat_ord : Ord ℕ
nat_ord = record { le = nat_leb; le_trans = nat_trans; le_total = nat_total }
