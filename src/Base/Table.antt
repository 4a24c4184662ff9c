-- ===== src/Base/Table.antt =====
-- A test of every byte, by evaluation.
use Prim.Native.Nat.{ℕ, zero, suc, ◌<◌}
use mathlib.Core.Path.{◌≡◌}
use mathlib.Core.Bool.{Bool, true, false}
use native.Mathlib.Omega.{arith}
use kama_asyn_log_system_clo.Base.Tests.{if◌then◌else◌}

-- The test passes at every number under the bound.
unfoldable pub passes_under : (ℕ → Bool) → ℕ → Bool
passes_under test zero = true
passes_under test (suc last) = if test last then passes_under test last else false

pub passes_under_lem :
    (test : ℕ → Bool) (bound byte : ℕ)
    → byte < bound
    → passes_under test bound ≡ true
    → test byte ≡ true
unfolding passes_under
passes_under_lem test zero byte inside passed = absurd (omega arith)
passes_under_lem test (suc last) byte inside passed =
    ground (arith, passes_under_lem test last byte)
