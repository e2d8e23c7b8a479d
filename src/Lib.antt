-- ===== src/Lib.antt =====
-- A model of the Morse player and recorder for the Loongson 2K1000 board, and of their drivers.
--
-- The repository holds two applications for the RT-Thread system. The player, ls2kdev_play,
-- translates a text into an array of sound codes and plays them through a pulse-width timer. The
-- recorder, ls2kdev_record, divides a recorded file into frames, decides from the energy of each
-- frame where marks and gaps are, writes their codes to an array, and translates them back to a
-- text. Below both lie the drivers of the board.
--
-- Morse/Code models ls2kdev_play/applications/morse_code.h and the symbol values of
--   ls2kdev_record/applications/morse/morse_code.h: each table is a list of its cells, without what
--   lies behind it in memory.
-- Morse/Encode models `translate` of ls2kdev_play/applications/morse_encode.c: `Encoder` is the
--   global array, its index and the console; Encode/Cases holds the cases of the switch. The memory
--   behind each table is a parameter, since the compiler lays it out, and the theorems assume that a
--   zero cell lies somewhere behind each (`EndsTables`); what lies before it is copied too.
--   Encode/Spec describes the codes of a text and the cells that are copied for it, Encode/Correct
--   compares them with the code, and Encode/Built is the layout of the object file in
--   ls2kdev_play/build/applications.
-- Morse/Decode models `inverse_translate` of
--   ls2kdev_record/applications/morse/morse_decode.c: `decode_loop` is the loop over the array,
--   `scan` the inner loop that collects a group, and Decode/Match the chains of tests that write
--   the character. Decode/Groups runs the loop over one group.
-- Morse/Judge models the decision loops of `morse_process_once_thread` and
--   `morse_process_test_thread` in the same file, which differ in the limits that they test.
--   Judge/Signal describes a keyed signal and its codes, Judge/Rounds runs the loop over frames and
--   bursts, and Judge/Correct compares the two.
-- Morse/RoundTrip puts the parts together: RoundTrip/Received describes what is heard for each
--   character, RoundTrip/Hearing goes from the sound to the text.
-- Morse/Process models the two threads of the same file from the recording to the display: the
--   division into frames, the energies, the decision and the translation. Process/Windows describes
--   the frames, Process/Heard what the threads show.
-- Morse/Sound models ls2kdev_play/applications/sound.c as the calls it makes of the timer, and
--   Morse/Play the commands `morse_play_once` and `morse_play_test` of
--   ls2kdev_play/applications/morse_encode.c. Play/Rhythm describes what the calls sound, and
--   Play/Once compares it with what is copied for the text. The number that an argument spells is an
--   argument of the model, not below zero; the line read from the console is given too.
-- Drivers/Pwm models the timers, drivers/drv_pwm.c of both applications; Pwm/Line describes their
--   outputs.
-- Drivers/Interrupt models drivers/interrupt.c of both applications: `Interrupts` is the table of
--   handlers, the registers of the two controllers and the unmasked lines. A handler is a value,
--   and its call an entry of a list. The service loop takes fuel. `__rt_ffs` is a parameter that
--   finds the lowest digit of a word of 32 digits (`FindsFirst`). Interrupt/Dispatch is about
--   one and several pending interrupts, Interrupt/Modes about the trigger modes.
-- Drivers/Gpio models ls2kdev_record/drivers/drv_gpio.c: the registers, and the table of the pin
--   interrupts, whose callbacks are values that are called. Gpio/Pins is about the registers,
--   Gpio/Callbacks about the interrupts. The loop of the handler takes 32 as fuel, since its value
--   has 32 digits.
-- Drivers/Port models the registers of the I2C controller, and Drivers/Eeprom
--   ls2kdev_record/drivers/eeprom.c: what is written is recorded, and the values of the registers
--   that are read are given as a list, of which every poll takes one. An action that has used up
--   the list is `stuck`: it still waits. Port/Turns describes the replies of a device,
--   Eeprom/Exchange and Eeprom/Pages what is exchanged with it, Eeprom/Hex the numbers and the
--   command that are given as text.
-- Drivers/I2c models ls2kdev_record/drivers/drv_i2c.c on the same registers: I2c/Lost is about a chip
--   that does not answer, I2c/Answered about one that does.
-- Drivers/Spi models ls2kdev_record/drivers/drv_spi.c: a `Bus` is the register of the chip selects
--   with the replies to come, of the other registers and of the pins, and an event is a register
--   that is written, a call of the pin functions or a delay. Spi/Select is about the selects,
--   Spi/Transfer about a message.
-- Drivers/Vs1003 models ls2kdev_record/applications/vs1003/vs1003.c above it. Vs1003/Calls is any
--   sequence of its operations. Vs1003/Line is a watcher over the events, and Vs1003/Steps,
--   Vs1003/Protocol and Vs1003/Sessions show that it never objects. Vs1003/Bytes, Vs1003/Sent and
--   Vs1003/Told are about the bytes that are sent, Vs1003/Ends and Vs1003/Ready about the end of
--   the loops. `send_loop` takes the number of the bytes as fuel, since a round sends one at least.
-- Drivers/Vs1003/Record models the command `vs1003_record` of
--   ls2kdev_record/applications/vs1003/vs1003_example.c, whose rounds are an argument, since it need
--   not end; its inner loop takes the number that the codec tells as fuel, of which a round takes
--   256. Record/Taken is about the file.
-- Drivers/Ads1118 models ls2kdev_record/applications/ads1118/ads1118.c on the bus of Drivers/Spi;
--   its loop takes two rounds at most. Ads1118/Value is about a read.
-- Drivers/Clock models drivers/clk.c of both applications; Clock/Rates is about the rates.
-- Drivers/Rtc models the clock, ls2kdev_record/drivers/drv_rtc.c, which is also the player's;
--   `mktime` and `localtime` are parameters. The members of `struct tm` are not below zero, except
--   the month.
-- Base holds the shared helpers. An access outside an array is `fault`, and a variable that is read
-- before it is written is an argument. The loops are recursion on the remaining rounds or cells.
-- `decode_loop`, whose index jumps, takes fuel: one more than the 200 values below its bound, and
-- each round raises the index; running out would be `stuck`, and the theorems give `ok`. Base/Io
-- is the actions on device registers.
--
-- Drivers/Ethernet models the queue of frames to send of drivers/net/synopGMAC_Dev.c, with its
--   pointers to descriptors as indexes: Ethernet/Fifo describes it as a queue of frames, and the
--   modules below it compare the two. Ethernet/Send models `rt_eth_tx` of drivers/net/synopGMAC.c;
--   its loop has one round more than the ring has descriptors, which is enough. Send/Report
--   describes what it counts and which memory it gives back. Ethernet/Receive
--   models the queue of received frames, the loop of `eth_init` that fills it, `rt_eth_rx` and the
--   recovery in `eth_rx_irq`; the parameter `map_single` is `plat_dma_map_single`, whose work is
--   done by a function of the board that can be replaced. Ethernet/Link models the function that a
--   timer calls to watch the cable.
-- Drivers/Uart models drivers/drv_uart.c of the recorder, of which the player has one port; Uart/Lines
--   takes a text from one port to another, and the interrupts of the ports through the dispatch of
--   Drivers/Interrupt.
--
-- Not modelled: the files, threads and consoles of the operating system; the start of the board
-- (drivers/board.c); of the codec the thread that records without an end and the commands that
-- filter in floating point; the converter's millivolts; the registers of the network controller
-- and its physical link; and the copies of other projects (the web server and client, the network
-- utilities, kiss_fft, adpcm-xq, the PCI code).
pub mod Base
pub mod Drivers
pub mod Morse
