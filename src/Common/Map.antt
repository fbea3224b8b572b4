-- ===== src/Common/Map.antt =====
-- Arrays and tables indexed by number, as functions.
use Prim.Native.Nat.{ℕ}
use blk_switch.Common.Tests.{ltb, ◌==◌, if◌then◌else◌}

-- `a[i] = v`
abbrev pub update {ℓ} : {A : Type ℓ} → (ℕ → A) → ℕ → A → ℕ → A
update f i v j = if i == j then v else f j

-- `for (i = 0; i < n; i++) a[i] = g(i);`
abbrev pub fill {ℓ} : {A : Type ℓ} → (ℕ → A) → ℕ → (ℕ → A) → ℕ → A
fill f n g j = if ltb j n then g j else f j
