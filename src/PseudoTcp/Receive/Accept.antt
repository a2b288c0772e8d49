-- ===== src/PseudoTcp/Receive/Accept.antt =====
-- agent/pseudotcp.c: segments of a stream, however they arrive, are put together to the stream.
use libnice.Base.{ℕ, zero, suc, ◌+◌, List, [], ◌∷◌}

-- The `k` bytes of a stream from byte `i` on
unfoldable pub stretch : (ℕ → ℕ) → ℕ → ℕ → List ℕ
stretch σ i zero = []
stretch σ i (suc k) = σ i ∷ stretch σ (i + 1) k
