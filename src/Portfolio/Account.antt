-- ===== src/Portfolio/Account.antt =====
-- `Portfolio` of backend/portfolio/src/aqros_portfolio/domain/models.py. The percentages for display,
-- which are floats, are not modelled. A position belongs to one portfolio, so that it is a value here.
use aqros.Shared.{ℕ, String, Option, none, some, [], ◌∷◌, if◌then◌else◌}
use aqros.Shared.Int.{ℤ, pos, ◌+ℤ◌, ◌-ℤ◌, ltb_ℤ}
use aqros.Shared.Dict.{Dict, lookup, insert}
use aqros.Shared.Action.{Outcome, done, raised}
use aqros.Portfolio.Cash.{CashBalance, CashError, available, deposit, reserve, release}
use aqros.Portfolio.Position.{
  Position, PositionError, TradeDirection, long, short, market_value, unrealized_pnl, is_open,
  close, update_price, modify_quantity,
}

pub data PortfolioStatus : Type 0 where
  active frozen closed : PortfolioStatus

module _ (Float : Type 0) where
  pub record Portfolio : Type 0 where
    pub portfolio_id : String
    pub name : String
    pub status : PortfolioStatus
    pub cash : CashBalance
    pub positions : Dict (Position Float)
    pub total_fees : ℤ
    pub total_pnl_realized : ℤ
    pub daily_pnl : ℤ
    pub peak_equity : ℤ
    pub created_at : Option ℕ
    pub updated_at : Option ℕ
    pub correlation_id : String

  -- The sum of a measure over the open positions.
  unfoldable pub sum_open : (Position Float → ℤ) → Dict (Position Float) → ℤ
  sum_open measure [] = pos 0
  sum_open measure ((k, p) ∷ d) =
      (if is_open Float p then measure p else pos 0) +ℤ sum_open measure d

  abbrev pub market_value_of : Portfolio → ℤ
  market_value_of a = sum_open (λ p. market_value Float p) a.positions

  unfoldable pub total_equity : Portfolio → ℤ
  total_equity a = available a.cash +ℤ market_value_of a

  abbrev signed : TradeDirection → ℤ → ℤ
  signed long v = v
  signed short v = pos 0 -ℤ v

  unfoldable pub net_exposure : Portfolio → ℤ
  net_exposure a = sum_open (λ p. signed p.direction (market_value Float p)) a.positions

  unfoldable pub unrealized_pnl_of : Portfolio → ℤ
  unrealized_pnl_of a = sum_open (λ p. unrealized_pnl Float p) a.positions

  unfoldable pub total_pnl_of : Portfolio → ℤ
  total_pnl_of a = a.total_pnl_realized +ℤ unrealized_pnl_of a

  abbrev with_position : String → Position Float → Portfolio → Portfolio
  with_position k p a = record a { positions = insert k p a.positions }

  abbrev changed :
      String
      → Portfolio
      → Outcome PositionError (Position Float) (Position Float)
      → Outcome PositionError Portfolio Portfolio
  changed k a (done p) = done (with_position k p a)
  changed k a (raised e p) = raised e (with_position k p a)

  abbrev add_to :
      Option (Position Float)
      → Position Float
      → Portfolio
      → Outcome PositionError Portfolio Portfolio
  add_to none p a = done (with_position p.symbol p a)
  add_to (some old) p a =
      if is_open Float old
      then changed p.symbol a
          (modify_quantity Float (old.quantity +ℤ p.quantity) p.avg_entry_price old)
      else done (with_position p.symbol p a)

  unfoldable pub add_position :
      Position Float → Portfolio → Outcome PositionError Portfolio Portfolio
  add_position p a = add_to (lookup p.symbol a.positions) p a

  -- `if now: self.updated_at = now`
  abbrev touched : Option ℕ → Option ℕ → Option ℕ
  touched none before = before
  touched (some now) before = some now

  -- The changes of `close_position` for an open position.
  abbrev settle_closed : String → Option ℕ → Position Float → Portfolio → Portfolio
  settle_closed k now p a = record a {
    positions = insert k p a.positions;
    total_pnl_realized = a.total_pnl_realized +ℤ p.realized_pnl;
    daily_pnl = a.daily_pnl +ℤ p.realized_pnl;
    cash = deposit (market_value Float p) a.cash;
    updated_at = touched now a.updated_at;
  }

  abbrev close_found :
      String
      → ℤ
      → Option ℕ
      → Option (Position Float)
      → Portfolio
      → Option (Position Float) × Portfolio
  close_found k price now none a = (none, a)
  close_found k price now (some p) a =
      if is_open Float p
      then (let p' = close Float price now p in (some p', settle_closed k now p' a))
      else (none, a)

  unfoldable pub close_position :
      String → ℤ → Option ℕ → Portfolio → Option (Position Float) × Portfolio
  close_position symbol close_price now a =
      close_found symbol close_price now (lookup symbol a.positions) a

  unfoldable pub update_cash : ℤ → Portfolio → Portfolio
  update_cash amount a = record a { cash = deposit amount a.cash }

  abbrev with_cash :
      Outcome CashError CashBalance CashBalance → Portfolio → Outcome CashError Portfolio Portfolio
  with_cash (done c) a = done (record a { cash = c })
  with_cash (raised e c) a = raised e a

  unfoldable pub reserve_cash : ℤ → Portfolio → Outcome CashError Portfolio Portfolio
  reserve_cash amount a = with_cash (reserve amount a.cash) a

  unfoldable pub release_cash : ℤ → Portfolio → Portfolio
  release_cash amount a = record a { cash = release amount a.cash }

  unfoldable pub update_peak_equity : Portfolio → Portfolio
  update_peak_equity a =
      let current = total_equity a in
      if ltb_ℤ a.peak_equity current then record a { peak_equity = current } else a

  abbrev repriced :
      String → ℤ → Option (Position Float) → Dict (Position Float) → Dict (Position Float)
  repriced k price none d = d
  repriced k price (some p) d =
      if is_open Float p then insert k (update_price Float price p) d else d

  -- The loop over the prices.
  unfoldable pub reprice : Dict ℤ → Dict (Position Float) → Dict (Position Float)
  reprice [] d = d
  reprice ((k, price) ∷ prices) d = reprice prices (repriced k price (lookup k d) d)

  unfoldable pub revalue_positions : Dict ℤ → Portfolio → Portfolio
  revalue_positions prices a =
      let a' = record a { positions = reprice prices a.positions } in
      update_peak_equity
        (record a' { daily_pnl = total_equity a' -ℤ total_equity a +ℤ a.daily_pnl })
