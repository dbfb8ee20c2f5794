-- ===== src/Common/Loops.antt =====
-- Counting loops, and arrays as functions from indices.
use vla_cpp.Common.Tests.{◌==◌, if◌then◌else◌}
use Prim.Native.Nat.{ℕ, zero, suc}

-- `for (j = i; j < i + n; ++j)`
unfoldable pub for_range {ℓ} : {S : Type ℓ} → ℕ → ℕ → (ℕ → S → S) → S → S
for_range zero j round state = state
for_range (suc left) j round state = for_range left (suc j) round (round j state)

-- `y[i] = v`
unfoldable pub store {ℓ} : {A : Type ℓ} → ℕ → A → (ℕ → A) → ℕ → A
store i v y k = if k == i then v else y k
