-- ===== src/Node/Window.antt =====
-- `inV` and the watermarks.
use trebiz.Prelude.{ℕ, ◌+◌, ◌^◌, ◌≤◌, ◌<◌, ◌≡◌, ◌↔◌, true, arith}
use trebiz.Node.Env.{Env}
use trebiz.Node.Cert.{in_watermarks}

-- Where the high watermark does not pass the largest `uint32`, a `uint32` lies in the window of a node
-- exactly if it is above the low watermark and not above the high one.
pub in_watermarks_iff :
    (e : Env) (h sn : ℕ)
    → h + e.log_k < 2 ^ 32
    → sn < 2 ^ 32
    → (in_watermarks e h sn ≡ true) ↔ ((h < sn) × (sn ≤ h + e.log_k))
unfolding in_watermarks
in_watermarks_iff e h sn room word = (λ t. ground arith, λ t. ground arith)
