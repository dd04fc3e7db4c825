-- ===== src/Lib.antt =====
-- zephyr_goodies: storage areas and the record store on them.
--
-- A storage area (subsys/storage/storage_area/storage_area.c) gives readers and writers of byte
-- vectors one interface over RAM, EEPROM, flash and disks. A storage area store
-- (subsys/storage/storage_area/storage_area_store.c) keeps records in the sectors of an area, as a
-- circular log: a record is a header with a magic byte, a wrap count and a size, its data and a
-- CRC32. The store calls the area, which checks its arguments and calls the driver.
--
-- Base, with its children Tests, Lists and Bytes, holds what the modules share: Boolean tests and
-- their lemmas, lists with lengths in the native numbers, and byte memories with slice and splice.
-- Size is 32-bit arithmetic with its wrap-around, and the alignment macros (SAS_ALIGNUP,
-- SAS_ALIGNDOWN); Size/Mask and Size/Align relate the masks to division. Errno are the return
-- codes.
--
-- Area models storage_area.c: readv is storage_area_readv, and so on. Its state type is a
-- parameter, the driver a record of functions (struct storage_area_api). Area/Checks are the
-- argument checks. Medium is the specification of an area: inside its size it is a byte memory.
-- Writer is the loop that gathers buffers to whole write units, which the four drivers have in
-- common, and Reader the read and erase loops that some share. Ram, Eeprom, Flash and Disk model
-- storage_area_ram.c, storage_area_eeprom.c, storage_area_flash.c and storage_area_disk.c; sa_readv
-- stands for sa_ram_readv, sa_eeprom_readv, and so on. Ram/Medium, Eeprom/Medium, Flash/Medium and
-- Disk/Medium are the refinements; Disk/Reads is about the read loop over disk sectors. EepromDisk
-- models drivers/disk/eepromdisk.c, a disk on an EEPROM; EepromDisk/Sectors shows that it is a disk
-- as Disk.IsDisk asks for, so that an area can stand on it.
--
-- Defines models the macros of include/zephyr/storage/storage_area that define areas and stores,
-- with what they assert when they are built.
--
-- Store models storage_area_store.c, on any area; World is the device with *store->data. By child:
-- Store/Sectors sector_advance and sector_reverse; Store/Check store_record_valid; Store/Walk
-- store_record_next_in_sector; Store/Write store_writev; Store/Advance store_advance_simple and
-- what it calls; Store/Read the calls that read records; Store/Mount mounting, unmounting and
-- wiping; Store/Update storage_area_record_update; Store/Compact store_move_record and
-- store_advance; Store/Recover store_recover and storage_area_store_mount; Store/Calls the calls
-- that check that the store is mounted, with Store/Calls/ReadOnly and Store/Calls/Unmounted.
-- Store/Layout says when a store lies in its area, and Store/Log is the specification of a write
-- sector: the list of the data of its records, in the order of their writes; Store/Log/Append is
-- about writes to it, Store/Write/Full about one that fills the sector, Store/Advance/Fresh about
-- the step to the next sector, Store/Read/Ends about the walk over all sectors, Store/Read/Part
-- about reads of a part of a record, Store/Write/Ends about writes on any driver,
-- Store/Mount/Position about a restart, Store/Update/Changed and Store/Update/InUnit about an
-- update, and Store/Compact/Copy, Store/Compact/Run and Store/Compact/Moved about a record that is
-- moved, Store/Compact/Sector about the records of a sector, and
-- Store/Compact/Whole about a compaction from its start to its end. All these are one thread's calls.
-- Store/Threads adds the semaphore of CONFIG_STORAGE_AREA_STORE_SEMAPHORE and threads that make
-- calls in steps: a call checks the store, takes the semaphore, works on the state that it then finds, stores what comes of it, and gives the
-- semaphore. Work is not atomic in this: had two threads the semaphore, one would lose what the other
-- stored. Store/Threads/Mode is about what no call changes, Store/Threads/Serial about the order that
-- an interleaving amounts to, Store/Threads/Ends about the ends of the calls, Store/Threads/Known
-- about what is known of each call, and Store/Threads/Progress about waiting. Store/Advance/Ends is
-- about advances on any driver; Area/Returns, Ram/Returns and Writer/Returns say that the calls of
-- the RAM driver return.
--
-- Settings models subsys/settings/settings_storage_area_store.c: a setting is a record with a byte
-- for the size of its name, the name and the value. Settings/Search is about its loops over the
-- records, Settings/Save about what a save leaves behind, Settings/Duplicate about the comparison
-- of a value with a record. SharedInfo models drivers/shared_info/shared_info.c with the calls of
-- include/zephyr/drivers/shared_info.h, and SharedInfo/Region relates its two calls. Circular
-- models samples/subsys/storage_area_store/storage_area_store_cb/src/main.c, which uses a store as
-- a circular buffer; Circular/Produce is about single writes and advances of such a store, and
-- Circular/Threads about several
-- threads that write to such a store. Littlefs models
-- samples/subsys/fs/littlefs-eeprom/src/main.c, a program on Zephyr's file systems, whose calls are
-- in Littlefs/Calls: Littlefs/Pattern are the bytes of its test file, Littlefs/Balance counts what
-- it opens and closes, Littlefs/Laws says what a file system does that no call fails on, and
-- Littlefs/Files and Littlefs/Boots what the files hold then after a number of runs. Tests applies the
-- theorems at a RAM area with a store on it, and at small devices.
--
-- size_t, sa_off_t and off_t are 32 bits wide, with wrap-around written out. A struct on the heap
-- is a record, an iovec the list of its buffers, or of their lengths for a read; a pointer that may
-- be NULL is an Option or a flag of Handle. A read that fails returns no bytes that a caller may
-- look at. Calls of Zephyr (CRC32, byte order, EEPROM, flash and disk drivers, semaphores, file systems) are
-- parameters, with what they document as the records of laws IsPlatform, IsEeprom, IsFlash, IsDisk,
-- IsKernel and IsFs. The set
-- handler of Zephyr's settings subsystem is a parameter too.
--
-- Loops run on fuel and return out_of_fuel, which is no code of the program, where it ends: the
-- walk gets a round for each byte of the area and two more, the checksum loop one for each byte of
-- the record, each with one more for the exit. Each round of these loops goes on by a byte at least.
-- The write loop gets 2^32 + 1 rounds. With a record that is not longer than a sector its rounds stay
-- in the sector; a longer one, which store_writev does not refuse, is tried at places of 32 bits up
-- to the exit, and where none of them meets it the program goes on for ever. storage_area_record_next gets a round for each sector and one more.
-- The retry of store_advance, for a record that finds no room in the sector it is moved to, has no
-- bound in the program: where no sector takes the record, it goes on for ever. The model tries each
-- sector and the first one again, sector_cnt + 1 rounds; in Store/Compact/Whole the first round is
-- enough, since the wanted records fit, and Store/Threads/Progress leaves such compactions out.
-- The loops of the settings backend get (sector_cnt + 1) * (area size + 2) rounds: each record that
-- the walk finds stands further on in its sector, or in a later one. The loops of the two samples
-- take their rounds as an argument; the listing of a directory ends when they are as many as it has
-- entries, and one more.
--
-- The producer and the consumer of the circular buffer sample are modelled and have no result of
-- their own: the sample's flash is erased before it is written, and the results on logs are about
-- devices that can be overwritten.
--
-- Not modelled: threads that mount, unmount, wipe or update records while others use the store,
-- logging and what the samples print, 64-bit offsets, the tables and the registration of drivers and
-- backends with Zephyr, the system call handlers of the shared info driver
-- (drivers/shared_info/shared_info_handlers.c), which check the caller's memory with macros of the
-- kernel, and the tests.
pub mod Base
pub mod Size
pub mod Errno
pub mod Area
pub mod Writer
pub mod Reader
pub mod Medium
pub mod Ram
pub mod Eeprom
pub mod Flash
pub mod Disk
pub mod EepromDisk
pub mod SharedInfo
pub mod Store
pub mod Defines
pub mod Settings
pub mod Circular
pub mod Littlefs
pub mod Tests
