-- ===== src/Lib.antt =====
-- HIDShift turns two small boards into a USB-to-BLE and USB-to-USB bridge for keyboards and mice.
-- This library models the parts of src/ that decide what the boards do and that need no hardware,
-- and proves the properties listed at the end. Everything is executable; numbers are naturals, and
-- where the source counts in u8, u16, u32 or u64 the definitions write the wrap or the saturation out.
--
-- The parts and their files:
--
--   Prelude         tests, lists, results, saturating sums, little-endian words, writes into byte
--                   arrays, signed integers and the width of an exclusive or, which all share.
--                   `Result E A` is the source's `Result`, with `>>=` for `?`; a method that changes
--                   its object returns the new one beside its answer.
--   Routing         src/routing.rs. `HostRouter` is a list of slots and an active index. Inv runs
--                   sequences of calls; Cycle describes the selecting calls.
--   Checksum        src/checksum.rs, bit by bit: CRC-16/CCITT-FALSE and CRC-32/IEEE.
--   TargetControl   src/target_control.rs: the debouncer, the switch with its three lengths of
--                   press, and the recovery button. The proofs follow lists of samples, the newest
--                   first (`button_after`, `switch_after`, `recovery_after`).
--   OutputTarget    src/output_target.rs and the host slots of src/ids.rs: validation, the next ready
--                   computer (a scan of the four other places), and the selected target with its
--                   availability and its transition counter, which wraps at 32 bits.
--   MouseAccumulator  src/mouse_accumulator.rs: signed axes with the saturation at i32, the parts that
--                   a report takes, and for each host the movement that waits. Conserve keeps books
--                   of what was accepted and taken; Drain takes until nothing waits.
--   Settings        src/settings.rs: the shortcut in its packed form, the two records of settings and
--                   their defaults.
--   InputProfile    src/domain/input_profile.rs: the registry of the input devices that were seen, at
--                   most eight. Registry says when profiles differ, Keys what the changes of the list
--                   keep, Places and Free how a profile is found and a place given, Observe and
--                   Outcome what the calls do.
--   OutputTarget/Stored  src/output_target.rs: what is stored of the target and of a mirrored device.
--   Storage         src/storage.rs, what the host board keeps in flash:
--     Codec, HostCodec, PresentationCodec  the fields of the image, with their round trips.
--     Image         the image of 1024 bytes and its checksum: `encode_storage_image` and
--                   `decode_storage_image`. Places, Write, Checked and Records prepare RoundTrip;
--                   Decoded says what any image that decodes gives.
--     Slots         the two slots in turn: `persist_storage_state` and the choice of the newest.
--     Flash         `NorFlashStorageBackend`, a slot as a journal of four records in flash. The driver
--                   is a parameter; `IsNorFlash` in Scan is what is documented of it, with reads
--                   that have to be aligned to its read size. Layout gets from
--                   `validate_for_flash` that they are. Journal, Landing and Reboot follow a write to
--                   the next start; Torn is about a record that was written in part.
--     Persistence   when a snapshot is written and when a write is tried again, the policy of the
--                   storage task, and in Completion what the task tells after a write.
--     Durable       the image, the slots and the flash together.
--   Interchip       src/interchip/, the link between the two boards:
--     Cell          cell.rs: the 128-byte cell, `encode` and `decode`; Checks says what `decode`
--                   has tested, Codec and Canonical are the two round trips.
--     Record        record.rs: the records in a cell's payload, the encoder and the reader.
--     Sequence      reliable.rs: the 16-bit sequence numbers, which skip zero.
--     Sender        reliable.rs: `ReliableSender`, its window of four and its retransmission.
--     Receiver      reliable.rs: `ReliableReceiver`.
--     Link          no code of its own: a sender and a receiver over a wire that loses, repeats,
--                   delays and reorders cells, as a step relation. It is where the two meet. Sends,
--                   Receives and Safety carry the invariant; Resend, Progress and Drain follow the
--                   cells that `poll_retransmit` sends again.
--     Delivery      reliable.rs: `ReliableDeliveryQueue`, what is replayed after a session reset.
--     RateBudget    rate_budget.rs: `FixedIntervalBudget`.
--     Recovery      recovery.rs: the host's recovery of a silent link and the device's watchdog.
--     Handshake     handshake.rs: the READY line, one transfer for each arming.
--     Fragment      control_fragment.rs and the control messages of message.rs: cutting, wire form
--                   and assembly, and the wire form of a whole message. Requests and responses
--                   differ in one field, the type `T` there.
--
-- How they meet: a payload is a list of records (Record), put into a cell with the next sequence
-- number (Sender), encoded with a checksum (Cell, Checksum), exchanged when READY allows it
-- (Handshake), decoded, judged by the receiver (Receiver) and acknowledged in the cells that go
-- back. Control messages are cut to fit a record (Fragment). Recovery and Delivery act when a
-- session breaks. On the host board a change of the settings, the bonds or the devices is staged
-- (Persistence), written as an image (Image) to the slot that does not hold the newest state (Slots),
-- as the next record of that slot's journal (Flash), and read back at the next start (Durable).
--
-- Bounds and fuel: a record reader is run for one call more than its record count; the loop of
-- `retry_after_session_reset` takes one entry off the queue a round, so its length is enough; a
-- control message of 256 bytes takes three fragments of 86. The wire of Link may hold back a cell
-- while up to `max_age` (60000) others are sent: beyond that, 16-bit sequence numbers come round
-- again. Byte arrays of fixed size are lists of that length; a copy out of range, which panics, is
-- an outer `none` where it is not excluded by a guard just before it. In Storage a routine that fills
-- a range of the image is the bytes of that range, and a slice that is shorter reads as zeros there:
-- every place is within the 1024 bytes, which the header's check sees to. The sums of flash offsets
-- are u32 in the source and do not wrap within a layout that `validate_for_flash` accepted. The
-- feature dual-s3-wired is on.
--
-- Not modelled: the firmware's drivers, tasks and timers, USB and BLE themselves, the vendored
-- stacks, the desktop and web tools, and the end-to-end runners, which are hardware or glue; and of
-- src/ the bridge, the runtime, the mirror, the report formats, the table of setting descriptors,
-- and of the input devices the hashes of an identity, the transform of a frame and the capture of the
-- shortcut. Derived traits, `Default` and getters that return a field have no definition.
pub mod Checksum
pub mod InputProfile
pub mod Interchip
pub mod MouseAccumulator
pub mod OutputTarget
pub mod Prelude
pub mod Routing
pub mod Settings
pub mod Storage
pub mod TargetControl
