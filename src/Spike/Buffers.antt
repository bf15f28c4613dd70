-- ===== src/Spike/Buffers.antt =====
-- The bounded buffers of the spike detector: the ring of samples before an event, `decimate` and
-- `appendCapped`.
use cost_optimization.Prelude.{
  ℕ, zero, suc, ◌+◌, ◌-◌, ◌/◌, ◌||◌, Option, some, List, [], ◌∷◌, ◌++◌, length, get_elem?, drop,
  leb, ltb, if◌then◌else◌, ◌>>=◌,
}
use cost_optimization.Float64.{Float64, ◌*F◌, ◌/F◌, of_nat}
use cost_optimization.Model.{MetricPoint}
use cost_optimization.Spike.{RingBuf}

-- `push`: what no longer fits is dropped at the front.
unfoldable pub push : {F : Type 0} → RingBuf F → MetricPoint F → RingBuf F
push r p =
    let pts = r.pts ++ p ∷ [] in
    record r { pts = if ltb r.cap (length pts) then drop (length pts - r.cap) pts else pts }

-- The step is a float64 and the samples are of any type.
module _ {F A : Type 0} ⦃f : Float64 F⦄ where
  -- `s[int(float64(i)*step)]` for the n rounds from i on.
  unfoldable pub pick_from : List A → F → ℕ → ℕ → Option (List A)
  pick_from s step i zero = some []
  pick_from s step i (suc n) = do
    p ← get_elem? s (f.trunc (of_nat i *F step))
    rest ← pick_from s step (i + 1) n
    some (p ∷ rest)

module _ {F : Type 0} ⦃f : Float64 F⦄ where
  unfoldable pub decimate : List (MetricPoint F) → ℕ → Option (List (MetricPoint F))
  unfolding pick_from
  decimate s target =
      if leb (length s) target || leb target 0
      then some s
      else pick_from s (of_nat {F = F} (length s) /F of_nat target) 0 target

  unfoldable pub append_capped :
      List (MetricPoint F) → MetricPoint F → ℕ → Option (List (MetricPoint F))
  append_capped s p cap = do
    kept ← if leb cap (length s) then decimate s (cap / 2) else some s
    some (kept ++ p ∷ [])
