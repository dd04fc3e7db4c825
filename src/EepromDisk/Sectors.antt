-- ===== src/EepromDisk/Sectors.antt =====
-- An EEPROM disk keeps what disk access documents.
use zephyr_goodies.Base.{ℕ, ◌+◌, ◌*◌, ◌≤◌, ◌<◌, ◌≡◌, refl, ap, ◌∙◌, false, Memory, arith}
use zephyr_goodies.Errno.{ok}
use zephyr_goodies.Size.{size_mod, size_add, size_mul, IsPow2}
use zephyr_goodies.Size.Align.{pow2_bounds}
use zephyr_goodies.Medium.{mul_mono}
use zephyr_goodies.Ram.Medium.{region, slice-region, splice-region}
use zephyr_goodies.Eeprom.{EepromDevice}
use zephyr_goodies.Eeprom.Medium.{IsEeprom}
use zephyr_goodies.Disk.{IsDisk}
use zephyr_goodies.EepromDisk.{
  Config, lba_to_address, outside_disk, access_init, access_read, access_write, access_ioctl,
  stored, eeprom_disk,
}

module _ {S : Type 0} (device : EepromDevice S) (config : Config) (view : S → Memory)
    (Inv : S → Type 0) (size : ℕ) (laws : IsEeprom device view Inv size)
    (unit : IsPow2 config.sector_size) (writable : config.eeprom_ro ≡ false)
    (placed : config.eeprom_off + config.sector_count * config.sector_size ≤ size) where
  abbrev ss : ℕ
  ss = config.sector_size

  many : config.sector_count < size_mod
  many = grind (arith, laws.small, placed, pow2_bounds ss unit)

  inside_lem :
      (sector count : ℕ)
      → sector + count ≤ config.sector_count
      → outside_disk config sector count ≡ false
  unfolding outside_disk
  inside_lem sector count h = ground (arith, many)

  -- The address of a sector does not wrap.
  address_lem :
      (sector : ℕ)
      → sector ≤ config.sector_count
      → size_add config.eeprom_off (lba_to_address config sector) ≡ config.eeprom_off + sector * ss
  unfolding lba_to_address
  address_lem sector h = omega (arith, mul_mono sector config.sector_count ss h, laws.small)

  -- A disk that lies inside its EEPROM and is not read-only, on an EEPROM that keeps what its driver
  -- documents, is a byte memory that is read and written by sectors, of the size that it reports.
  pub EepromDisk-IsDisk :
      IsDisk
        (eeprom_disk device config)
        (λ s. region config.eeprom_off (view s))
        Inv
        config.sector_count
        ss
  unfolding eeprom_disk access_init access_read access_write access_ioctl stored
  EepromDisk-IsDisk = record {
    ready = λ s i. refl;
    counts = λ s i. refl;
    sizes = λ s i. refl;
    small = omega (arith, laws.small);
    unit = unit;
    reads = λ sector count s i h.
        let inside = mul_mono (sector + count) config.sector_count ss h in
        let len : size_mul count ss ≡ count * ss = omega (arith, inside, laws.small) in
        rw (inside_lem sector count h, address_lem sector (omega arith), len)
          (laws.reads (config.eeprom_off + sector * ss) (count * ss) s i (omega (arith, inside))
            ∙ ap (λ l. (ok, l))
                (slice-region config.eeprom_off (view s) (sector * ss) (count * ss)));
    writes = λ bytes sector count s i n h.
        let inside = mul_mono (sector + count) config.sector_count ss h in
        let w =
          laws.writes (config.eeprom_off + sector * ss) bytes s i (omega (arith, inside, n)) in
        rw (inside_lem sector count h, address_lem sector (omega arith), writable)
          (
            w.0,
            ap (region config.eeprom_off) (w.1)
                ∙ splice-region config.eeprom_off (view s) (sector * ss) bytes,
            w.2,
          );
  }
