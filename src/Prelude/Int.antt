-- ===== src/Prelude/Int.antt =====
-- Python's integers as far as the program uses them: an order test, equality and the successor.
use contract_management.Prelude.{ℕ, zero, suc, ◌+◌, ◌≡◌, ◌↔◌, Bool, false, arith, leb, nat_eq, Eq}

-- `negsuc n` is -(n + 1).
pub data ℤ : Type 0 where
  pos : ℕ → ℤ
  negsuc : ℕ → ℤ

abbrev pub leb_ℤ : ℤ → ℤ → Bool
leb_ℤ (pos a) (pos b) = leb a b
leb_ℤ (pos a) (negsuc b) = false
leb_ℤ (negsuc a) (pos b) = Bool.true
leb_ℤ (negsuc a) (negsuc b) = leb b a

abbrev pub eq_ℤ : ℤ → ℤ → Bool
eq_ℤ (pos a) (pos b) = nat_eq a b
eq_ℤ (pos a) (negsuc b) = false
eq_ℤ (negsuc a) (pos b) = false
eq_ℤ (negsuc a) (negsuc b) = nat_eq a b

-- n + 1
abbrev pub succ_ℤ : ℤ → ℤ
succ_ℤ (pos n) = pos (n + 1)
succ_ℤ (negsuc zero) = pos 0
succ_ℤ (negsuc (suc n)) = negsuc n

pub eq_ℤ_iff : (a b : ℤ) → (eq_ℤ a b ≡ Bool.true) ↔ (a ≡ b)
eq_ℤ_iff (pos a) (pos b) = ground arith
eq_ℤ_iff (pos a) (negsuc b) = ground arith
eq_ℤ_iff (negsuc a) (pos b) = ground arith
eq_ℤ_iff (negsuc a) (negsuc b) = ground arith

instance abbrev pub ℤ_eq : Eq ℤ
ℤ_eq = record { beq = eq_ℤ; beq_iff = eq_ℤ_iff }

pub leb_ℤ_trans :
    (a b c : ℤ) → leb_ℤ a b ≡ Bool.true → leb_ℤ b c ≡ Bool.true → leb_ℤ a c ≡ Bool.true
leb_ℤ_trans a b c h k = ground arith

pub leb_ℤ_total : (a b : ℤ) → leb_ℤ a b ≡ false → leb_ℤ b a ≡ Bool.true
leb_ℤ_total a b h = ground arith

pub leb_ℤ_antisymm : (a b : ℤ) → leb_ℤ a b ≡ Bool.true → leb_ℤ b a ≡ Bool.true → a ≡ b
leb_ℤ_antisymm a b h k = ground arith

pub leb_ℤ_succ : (a : ℤ) → leb_ℤ (succ_ℤ a) a ≡ false
leb_ℤ_succ (pos n) = ground arith
leb_ℤ_succ (negsuc zero) = ground arith
leb_ℤ_succ (negsuc (suc n)) = ground arith
