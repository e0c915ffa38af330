-- ===== src/Compare/Order.antt =====
-- The order in which deleteSelected of compare/CompareSyncExecutor.cpp takes directories.
use zephyrftp.Base.{◌≡◌, Bool, true, false, List, [], ◌∷◌, All}
use zephyrftp.Base.Text.{Text}
use zephyrftp.Compare.Comparer.{CompareEntry}

-- What std::sort asks of a comparison.
pub record IsStrictWeak (less : CompareEntry → CompareEntry → Bool) : Type 0 where
  pub irreflexive : (a : CompareEntry) → less a a ≡ false
  pub transitive : (a b c : CompareEntry) → less a b ≡ true → less b c ≡ true → less a c ≡ true
  pub negatively : (a b c : CompareEntry) → less a b ≡ false → less b c ≡ false → less a c ≡ false

-- What std::sort leaves: no entry is less than one before it.
abbrev pub IsSorted : (CompareEntry → CompareEntry → Bool) → List CompareEntry → Type 0
IsSorted less [] = Unit
IsSorted less (e ∷ es) = All (λ x. less x e ≡ false) es × IsSorted less es
