-- ===== src/Portfolio/Tests.antt =====
-- The theorems on the portfolio (backend/portfolio) at concrete balances and positions.
use aqros.Shared.{ℕ, ◌≡◌, refl, none, [], ◌∷◌}
use aqros.Shared.Int.{pos, ◌+ℤ◌, ◌*ℤ◌}
use aqros.Shared.Dict.{lookup}
use aqros.Portfolio.Cash.{CashBalance}
use aqros.Portfolio.Position.{Position, open_, short, market_value, is_open}
use aqros.Portfolio.Account.{Portfolio, active, total_equity, close_position}
use aqros.Portfolio.Closing.{close_position-total_equity}

abbrev balance : CashBalance
balance = record { total = pos 100; reserved = pos 20 }

-- Ten units sold short at 5, now at 4.
abbrev sold : Position ℕ
sold = record {
  position_id = "x1";
  portfolio_id = "p1";
  symbol = "ACME";
  direction = short;
  quantity = pos 10;
  avg_entry_price = pos 5;
  current_price = pos 4;
  stop_loss = none;
  take_profit = none;
  status = open_;
  sector = none;
  beta = 1;
  volatility = 0;
  avg_daily_volume = 0;
  realized_pnl = pos 0;
  fees_paid = pos 0;
  opened_at = none;
  closed_at = none;
  correlation_id = "";
}

abbrev account : Portfolio ℕ
account = record {
  portfolio_id = "p1";
  name = "main";
  status = active;
  cash = balance;
  positions = ("ACME", sold) ∷ [];
  total_fees = pos 0;
  total_pnl_realized = pos 0;
  daily_pnl = pos 0;
  peak_equity = pos 0;
  created_at = none;
  updated_at = none;
  correlation_id = "";
}

close_position-total_equity_example :
    total_equity ℕ (close_position ℕ "ACME" (pos 3) none account).1 +ℤ market_value ℕ sold
    ≡ total_equity ℕ account +ℤ pos 10 *ℤ pos 3
unfolding lookup is_open
close_position-total_equity_example =
    close_position-total_equity ℕ "ACME" (pos 3) none sold account refl refl
