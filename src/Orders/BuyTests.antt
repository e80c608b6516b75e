-- ===== src/Orders/BuyTests.antt =====
-- Buying a concrete auction now.
use sneakerbid.Base.{◌≡◌, refl}
use sneakerbid.Store.Rows.{Order, Db}
use sneakerbid.Store.Tx.{ok, err, Error}
use sneakerbid.Store.Client.{auction_check}
use sneakerbid.Samples.{db}
use sneakerbid.Orders.{buy_now_tx, new_order}
use sneakerbid.Orders.Buying.{buy_now_tx-buy_now_tx}

abbrev order : Order
order = new_order 30 10 2 900 1000

abbrev bought : Db
bought = elim (buy_now_tx 30 10 900 2 1000 db) [ ok (_, d) ↦ d | err _ ↦ db ]

buy_now_tx-buy_now_tx_example : buy_now_tx 31 10 900 3 1001 bought ≡ err Error.already_sold
unfolding buy_now_tx auction_check
buy_now_tx-buy_now_tx_example =
    buy_now_tx-buy_now_tx 30 31 10 900 900 2 3 1000 1001 order db bought refl
