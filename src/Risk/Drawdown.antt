-- ===== src/Risk/Drawdown.antt =====
-- `DrawdownTracker` of backend/risk-engine/src/aqros_risk_engine/domain/models.py.
use aqros.Shared.{All, Any, ◌≡◌, refl, ◌⊎◌, Bool, false, List, [], ◌∷◌, arith, if◌then◌else◌, inl}
use aqros.Shared.Int.{ℤ, pos, ◌-ℤ◌, ◌≤ℤ◌, ltb_ℤ}
use aqros.Risk.Numbers.{Numbers, IsOrder, zero_f, hundred}

module _ (N : Numbers) where
  open N use {Float, mul, ratio, lt}

  pub record DrawdownTracker : Type 0 where
    pub peak_equity : ℤ
    pub current_drawdown_pct : Float
    pub max_drawdown_pct : Float

  -- The drawdown of an equity below a peak, in percent.
  unfoldable pub drawdown_pct : ℤ → ℤ → Float
  drawdown_pct peak equity =
      if ltb_ℤ (pos 0) peak then mul (ratio (peak -ℤ equity) peak) (hundred N) else zero_f N

  unfoldable pub update : ℤ → DrawdownTracker → DrawdownTracker
  update current_equity d =
      let peak = if ltb_ℤ d.peak_equity current_equity then current_equity else d.peak_equity in
      let now = drawdown_pct peak current_equity in
      record {
        peak_equity = peak;
        current_drawdown_pct = now;
        max_drawdown_pct = if lt d.max_drawdown_pct now then now else d.max_drawdown_pct;
      }

  unfoldable pub is_drawdown_exceeded : Float → DrawdownTracker → Bool
  is_drawdown_exceeded limit_pct d = lt limit_pct d.current_drawdown_pct

  -- The updates for a series of equities, the oldest first.
  unfoldable pub update_all : List ℤ → DrawdownTracker → DrawdownTracker
  update_all [] d = d
  update_all (e ∷ es) d = update_all es (update e d)

  -- The drawdowns that the updates compute on the way.
  abbrev pub drawdowns : ℤ → List ℤ → List Float
  drawdowns peak [] = []
  drawdowns peak (e ∷ es) =
      let peak' = if ltb_ℤ peak e then e else peak in drawdown_pct peak' e ∷ drawdowns peak' es

  -- A peak is an upper bound of the first peak and the equities, and one of them.
  abbrev pub IsPeak : ℤ → List ℤ → ℤ → Type 0
  IsPeak start es peak =
      (start ≤ℤ peak) × All (λ e. e ≤ℤ peak) es × ((peak ≡ start) ⊎ Any (λ e. peak ≡ e) es)

  -- After any series of updates the tracked peak is the greatest of the first peak and the equities.
  pub update_all-IsPeak :
      (es : List ℤ) (d : DrawdownTracker) → IsPeak d.peak_equity es (update_all es d).peak_equity
  unfolding update_all update
  update_all-IsPeak [] d = (omega arith, tt, inl refl)
  update_all-IsPeak (e ∷ es) d = ground (arith, update_all-IsPeak es (update e d))

  module _ (order : IsOrder N) where
    max_drawdown_grows :
        (es : List ℤ) (d : DrawdownTracker)
        → lt (update_all es d).max_drawdown_pct d.max_drawdown_pct ≡ false
    unfolding update_all update
    max_drawdown_grows [] d = order.irrefl d.max_drawdown_pct
    max_drawdown_grows (e ∷ es) d =
        order.trans _ (update e d).max_drawdown_pct _ (max_drawdown_grows es (update e d))
          (grind (arith, order.irrefl, order.asym))

    max-not_below-current :
        (e : ℤ) (d : DrawdownTracker)
        → lt (update e d).max_drawdown_pct (update e d).current_drawdown_pct ≡ false
    unfolding update
    max-not_below-current e d = grind (arith, order.irrefl, order.asym)

    -- If the comparison of floats is an order, then the largest drawdown that is kept over a
    -- series of updates is not below any drawdown on the way.
    pub max_drawdown_covers :
        (es : List ℤ) (d : DrawdownTracker)
        → All (λ x. lt (update_all es d).max_drawdown_pct x ≡ false) (drawdowns d.peak_equity es)
    unfolding update_all update
    max_drawdown_covers [] d = tt
    max_drawdown_covers (e ∷ es) d = (
      order.trans _ (update e d).max_drawdown_pct _ (max_drawdown_grows es (update e d))
          (max-not_below-current e d),
      max_drawdown_covers es (update e d),
    )
