-- ===== src/Drivers/Spi/Tests.antt =====
-- The selects and a message of the SPI controller at concrete values.
use losangeles_lakers.Base.{◌≡◌, refl, true, some, [], ◌∷◌, ok, arith}
use losangeles_lakers.Drivers.Spi.{softcs, txfifo, cs_value, xfer}
use losangeles_lakers.Drivers.Spi.Transfer.{Echo, IsEcho, xfer-exchange}

abbrev slow : Echo
slow = record { empty = 1 ∷ 3 ∷ []; there = 2; answer = 0x15a }

slow-IsEcho : IsEcho slow
slow-IsEcho = record { waits = (refl, (refl, tt)); over = refl }

xfer-exchange_example :
    xfer 1
      (record {
        length = 2;
        send_buf = some (7 ∷ 8 ∷ 9 ∷ []);
        recv_buf = some (0 ∷ 0 ∷ 4 ∷ []);
        cs_take = true;
        cs_release = true;
      })
      (record { soft_cs = 0; replies = 1 ∷ 3 ∷ 2 ∷ 0x15a ∷ 1 ∷ 3 ∷ 2 ∷ 0x15a ∷ [] })
    ≡ ok (
      (2, some (0x5a ∷ 0x5a ∷ 4 ∷ [])),
      softcs 2 ∷ txfifo 7 ∷ txfifo 8 ∷ softcs 0x22 ∷ [],
      record { soft_cs = 0x22; replies = [] },
    )
unfolding cs_value
xfer-exchange_example =
    xfer-exchange 1 (slow ∷ slow ∷ []) (some (7 ∷ 8 ∷ 9 ∷ [])) (0 ∷ 0 ∷ []) (4 ∷ []) 0 []
      (omega arith) (omega arith) refl (slow-IsEcho, (slow-IsEcho, tt))
