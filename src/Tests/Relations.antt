-- ===== src/Tests/Relations.antt =====
-- The foreign keys of the shop after a day of orders.
use making_soa_homework.Base.{refl, arith}
use making_soa_homework.Base.Table.{find}
use making_soa_homework.Market.Orders.Requests.{serve}
use making_soa_homework.Market.Orders.ForeignKeys.{References}
use making_soa_homework.Market.Orders.References.{serve-References}
use making_soa_homework.Market.Orders.Times.{InTime, serve-InTime}
use making_soa_homework.Tests.Samples.{shop}
use making_soa_homework.Tests.Orders.{day}

serve-References_example : References (serve day shop)
unfolding find
serve-References_example =
    serve-References day shop (refl, (refl, (refl, tt)))
      (record { orders = tt; operations = tt; sellers = (refl, (refl, tt)) })

serve-InTime_example : InTime 300001000 (serve day shop)
serve-InTime_example =
    serve-InTime day 0 shop (omega arith, (omega arith, (omega arith, tt))) (tt, tt)
