-- ===== src/Drivers/Vs1003/Tests.antt =====
-- Runs of the codec's driver, and the theorems about it at concrete calls.
use losangeles_lakers.Base.{
  ℕ, zero, suc, ◌≡◌, refl, false, some, List, [], ◌∷◌, replicate, All, Result, ok, fault, stuck,
  arith,
}
use losangeles_lakers.Base.Io.{◌>>◌}
use losangeles_lakers.Drivers.Spi.{
  SpiEvent, Bus, spi_set_cs, spi_set_csn, cs_value, spi_init, spi_write_for_response, wait_echo,
}
use losangeles_lakers.Drivers.Vs1003.{
  x_cs, x_dcs, await_loop, await_data_request, control_mode_on, control_mode_off, data_mode_on,
  data_mode_off, read_register, write_register, send_chunk, send_loop, sdi_send_buffer,
  vs1003_record_mode_init, vs1003_set_volume,
}
use losangeles_lakers.Base.Int.{pos}
use losangeles_lakers.Drivers.Vs1003.Record.{
  vs1003_record, record_loop, record_round, drain, read_words,
}
use losangeles_lakers.Drivers.Vs1003.Record.Taken.{IsRecording, vs1003_record-taken}
use losangeles_lakers.Drivers.Vs1003.{vs1003_reset}
use losangeles_lakers.Drivers.Vs1003.Line.{is_active, watch_all}
use losangeles_lakers.Drivers.Vs1003.Calls.{
  Call, read, volume, send, record_, run_start, run_call, run_calls,
}
use losangeles_lakers.Drivers.Vs1003.Bytes.{sent}
use losangeles_lakers.Drivers.Vs1003.Told.{run_calls-told}
use losangeles_lakers.Drivers.Vs1003.Ends.{IsReady}
use losangeles_lakers.Drivers.Vs1003.Ready.{run_calls-ends}
use losangeles_lakers.Drivers.Vs1003.Sessions.{run_calls-protocol}

abbrev two_bytes : List Call
two_bytes = volume 0x20 ∷ read 8 ∷ send (0x55 ∷ 0xaa ∷ 0x77 ∷ []) 2 ∷ []

-- A codec that is always ready.
abbrev quick : Bus
quick = record { soft_cs = 0; replies = replicate 100 2 }

abbrev events_of : {A : Type 0} → Result (A × List SpiEvent × Bus) → List SpiEvent
events_of (ok (a, es, w)) = es
events_of (fault e) = []
events_of stuck = []

abbrev bus_of : {A : Type 0} → Result (A × List SpiEvent × Bus) → Bus
bus_of (ok (a, es, w)) = w
bus_of (fault e) = quick
bus_of stuck = quick

run_calls-protocol_example :
    (room' : ℕ) × (watch_all
        (events_of ((run_start record_ >> run_calls two_bytes) quick))
        (some (record { selects = 0; room = 0 }))
      ≡ some (record {
        selects = (bus_of ((run_start record_ >> run_calls two_bytes) quick)).soft_cs;
        room = room';
      }))
    × (is_active x_cs (bus_of ((run_start record_ >> run_calls two_bytes) quick)).soft_cs ≡ false)
    × (is_active x_dcs (bus_of ((run_start record_ >> run_calls two_bytes) quick)).soft_cs ≡ false)
unfolding run_start run_calls run_call vs1003_record_mode_init vs1003_set_volume sdi_send_buffer
    send_loop send_chunk read_register write_register control_mode_on control_mode_off data_mode_on
    data_mode_off await_data_request await_loop spi_init spi_set_cs spi_set_csn cs_value
    spi_write_for_response wait_echo
run_calls-protocol_example =
    run_calls-protocol record_ two_bytes quick
      (bus_of ((run_start record_ >> run_calls two_bytes) quick)) 0
      (events_of ((run_start record_ >> run_calls two_bytes) quick)) refl

run_calls-told_example :
    sent (events_of (run_calls two_bytes quick))
    ≡ 2 ∷ 11 ∷ 0x20 ∷ 0x20 ∷ 3 ∷ 8 ∷ 0xff ∷ 0xff ∷ 0x55 ∷ 0xaa ∷ []
unfolding run_calls run_call vs1003_set_volume sdi_send_buffer send_loop send_chunk read_register
    write_register control_mode_on control_mode_off data_mode_on data_mode_off await_data_request
    await_loop spi_set_cs spi_set_csn cs_value spi_write_for_response wait_echo
run_calls-told_example =
    run_calls-told two_bytes quick (bus_of (run_calls two_bytes quick))
      (events_of (run_calls two_bytes quick)) (omega arith, (tt, (tt, tt))) refl

twos-IsReady : (n : ℕ) → All IsReady (replicate n 2)
twos-IsReady zero = tt
twos-IsReady (suc n) = ((refl, refl), twos-IsReady n)

run_calls-ends_example :
    (es : List SpiEvent) × (w' : Bus) × (run_calls two_bytes quick ≡ ok (tt, es, w'))
run_calls-ends_example =
    run_calls-ends two_bytes quick (tt, (tt, (omega arith, tt))) (twos-IsReady 100) (omega arith)

-- A codec that always tells 514 words, of which a round takes two batches.
abbrev full : Bus
full = record { soft_cs = 0xff; replies = replicate 4700 2 }

abbrev file_of : Result (List ℕ × List SpiEvent × Bus) → List ℕ
file_of (ok (a, es, w)) = a
file_of (fault e) = []
file_of stuck = []

vs1003_record-taken_example :
    (n : ℕ) × (pos 2 ≡ pos n) × IsRecording n (file_of (vs1003_record 1 (pos 2) full))
unfolding vs1003_record record_loop record_round drain read_words vs1003_record_mode_init
    vs1003_reset read_register write_register control_mode_on control_mode_off await_data_request
    await_loop spi_init spi_set_cs spi_set_csn cs_value spi_write_for_response wait_echo
vs1003_record-taken_example =
    vs1003_record-taken 1 (pos 2) full (bus_of (vs1003_record 1 (pos 2) full))
      (events_of (vs1003_record 1 (pos 2) full)) (file_of (vs1003_record 1 (pos 2) full))
      (omega arith) refl
