-- ===== src/Lib.antt =====
-- A robot looks for an access point by its signal, drives up to it, and fetches a file from the
-- beacon beside it over Bluetooth. This library models that program's decisions, in most parts without
-- its floating-point numbers, and proves what they promise.
--
-- Parts, and how they interact:
-- * ble_transfer/transfer_protocol.h (Wire): messages, little-endian numbers and the CRC-32 that
--   both sides of the transfer use. A `uint8_t *` with an offset is a list and an offset.
-- * getting_there/packed_bits.h (PackedBits): fields of a status word, an array of packed fields,
--   and the coding of signal strengths.
-- * ble_transfer_powerbank/beacon_server.c (Beacon): the beacon. `att_write_callback` is `att_write`
--   with one function for each case of its switch; `packet_handler` keeps its name. Calls of BTstack
--   and of the buzzer are the list `effects`.
-- * getting_there/payload_client.c (Client): the robot's side. Client holds the types, the state and
--   the ends of an attempt; Client/Transfer `handle_notification` and what it calls; Client/Gatt
--   `gatt_handler`; Client/Proximity the check of the distance by advertisements; Client/Radio
--   `hci_handler`, the callbacks queued by the main loop, and the settings; Client/Attempt
--   `run_attempt`, a round of its loop being `round`. The packed status word is taken apart into
--   fields, which Client/StatusWord relates to the word.
--   Client/Sound, Messages, Callbacks and Events are about one invariant and each callback, and
--   Client/Reach about every sequence of them; Client/Median is about the filter of the readings,
--   Client/Outcomes and Client/Deadline about how an attempt ends.
-- * getting_there/faults.c (Faults): the mask of fault conditions, which the client raises and clears.
-- * getting_there/report_store.c (Journal): the report of a run in flash, over the interface `Device`
--   with the law `KeepsPages` on whole pages; getting_there/report_flash.c (Journal/Flash) fills it,
--   over the SDK's flash functions and their documented behaviour, `ChangesInside`.
-- * getting_there/run_report.c (RunReport): the text on its way to the journal and to USB.
-- * getting_there/line_search.c (LineSearch): comparisons of signal samples at two positions.
-- * getting_there/colour_mat.c and colour_sensor.c (Colour): the zones of the mat and the arrival
--   rule over a run's steps, which are checks and notes of a lighter part of the mat.
-- * common/buzzer.c and getting_there/robot_cues.c (Buzzer): patterns of notes, with the alarms that are
--   scheduled for them.
-- * getting_there/wifi_sampler.c (Sampler): the scans for the access point's signal, their records, and
--   the filter over five of them. Sampler has the state and the filter, Sampler/Operations the functions.
--   What is asked of the SDK, of motion.c and of run_report.c is answered by a `Radio` over any type of
--   worlds; the results of a scan come with the answers to the sleep and to the question whether the
--   scan is on. Views, Sampling and Sequence are about what each part does to the scans, Numbering about
--   a quiesce and a sample, Filter about the filter.
-- * getting_there/motion.c (Motion): the stop latch and the motors; Motion/Gyro has the readings of the gyro
--   and their recovery, Motion/Drive the straight drive, Motion/Turn turns, calibration and start-up. The
--   registers of the IMU, the clock and the buttons are answered by a `Board`, and C's float is any type
--   with the operations of `Floats`. Triple has the rules for what an action does to the pins, Wheels,
--   Driving and Turning what each function does, Safety every sequence of operations; Latch and Stop are
--   about the stop latch.
-- * getting_there/getting_there.c (Run): the approach to the beacon. Run/Payload has the checks between
--   blocks and the payload attempts, Run/Travel the travel budget, the powered block and the return,
--   Run/Mat the colour scan and the steering on the mat, Run/Follow the way along a heading and back from
--   a decline, Run/Approach the trial of directions and `approach_beacon`. The other parts are asked
--   through a `Robot` over any type of worlds, which for instance Client and Sampler could fill. Run/Triple,
--   Frame, Still, Budget, Returns and Lines are about the budget, Run/Reserve about a whole approach.
-- Common has the lists, tests, words and signed integers that all share, Bits the laws of C's bitwise
-- operations.
--
-- State is a record and an operation a function to the new state. A callback of BTstack runs to its
-- end before the next one, so a run is a list of callbacks (`Event` for the beacon, `Callback` for the
-- client), and the client's `Step` adds the main loop's own changes between them. What a callback asks
-- of the world is given with it: `World` has the clock, the stop button and whether BTstack takes each
-- request. An invalid connection handle is `none`. `int` is `Common.Int.ℤ`; unsigned types are ℕ with
-- their wrap-around written out, by `u8`, `u16`, `u32` or `% 2 ^ w` for a bit-field.
--
-- In Run an action is a function of the `Run` that may end it, by `End`: C's `return false` through all
-- callers. Sampler's actions return, and `Outcome` says how. A heading is a C float in both, kept as its
-- bits and only passed on, save for the additions that the `Robot` is asked for.
--
-- Loops are structural recursions on the number of rounds or on the list. These have fuel:
-- `append_loop` is given the length of the text, and every round takes at least a byte of it;
-- `rounds` runs through the turns that it is given, since the loop of `run_attempt` ends by the clock;
-- `approach_loop` and `follow_loop` have a round for each millisecond of the travel budget and one more,
-- `return_loop` one for each of its way, and every round uses some of it (`End.no_fuel` is what they would
-- end with);
-- `drive_loop` of Run, `quiesce_loop` of Sampler and the loops of Motion wait for the world, for as many
-- polls as the `Robot`, the `Radio` or the `Board` gives, and end with `End.unending_drive`, `Outcome.unending` and `none` after
-- them, which are no results of the program. So does the normalisation of an angle, whose loops C's
-- infinity does not leave.
--
-- The SDK, BTstack and lwIP are not modelled: their constants are parameters (`notification`,
-- `service_data`), their answers inputs, their calls a list. Prints are left out, `report_format`
-- apart. Not modelled: the registers of the IMU, the I2C of the colour sensor and the direction that it
-- estimates, which are mostly floats; the start-up of getting_there.c, its `colour_scan_run` and its
-- completion sound; the calibration tool; the bench power load and the access points. Failures that
-- `run_can_continue` notes while the sampler or the motors ask it belong to the answers of the world.
pub mod Common
pub mod Bits
pub mod Wire
pub mod PackedBits
pub mod Beacon
pub mod Faults
pub mod Client
pub mod Journal
pub mod LineSearch
pub mod RunReport
pub mod Buzzer
pub mod Colour
pub mod Run
pub mod Sampler
pub mod Motion
