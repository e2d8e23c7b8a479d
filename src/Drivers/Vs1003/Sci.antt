-- ===== src/Drivers/Vs1003/Sci.antt =====
-- The registers of the codec in ls2kdev_record/applications/vs1003/vs1003.h.
use losangeles_lakers.Base.{ℕ}

abbrev pub mode : ℕ
mode = 0x0

abbrev pub bass : ℕ
bass = 0x2

abbrev pub clockf : ℕ
clockf = 0x3

abbrev pub audata : ℕ
audata = 0x5

abbrev pub hdat0 : ℕ
hdat0 = 0x8

abbrev pub hdat1 : ℕ
hdat1 = 0x9

abbrev pub vol : ℕ
vol = 0xb

abbrev pub aictrl0 : ℕ
aictrl0 = 0xc

abbrev pub aictrl1 : ℕ
aictrl1 = 0xd
