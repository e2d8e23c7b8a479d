-- ===== src/Drivers/Port/Replies.antt =====
-- Concrete replies of a device.
use losangeles_lakers.Base.{refl, true, false, [], ◌∷◌}
use losangeles_lakers.Drivers.Port.{no_tip, not_busy, acked}
use losangeles_lakers.Drivers.Port.Turns.{Turn, IsTurn, IsAnswer, Stop, IsStop}

-- One status on the wire, then the byte is acknowledged, or is not.
abbrev pub taken : Turn
taken = record { busy = 0x2 ∷ []; done = 0; ack = 0 }

abbrev pub refused : Turn
refused = record { busy = []; done = 0; ack = 0x80 }

-- A stop at the second attempt.
abbrev pub stopped : Stop
stopped = record { again = (0, 0x40) ∷ []; first = 0; last = 0 }

pub taken-IsAnswer : IsAnswer true taken
unfolding no_tip acked
taken-IsAnswer = record { turn = record { waits = (refl, tt); over = refl }; bit = refl }

pub refused-IsAnswer : IsAnswer false refused
unfolding no_tip acked
refused-IsAnswer = record { turn = record { waits = tt; over = refl }; bit = refl }

pub stopped-IsStop : IsStop stopped
unfolding not_busy
stopped-IsStop = record { waits = (refl, tt); over = refl }

-- A turn that gives the byte 0x5a.
abbrev pub given : Turn
given = record { busy = 0x2 ∷ []; done = 0; ack = 0x5a }

pub given-IsTurn : IsTurn given
unfolding no_tip
given-IsTurn = record { waits = (refl, tt); over = refl }
