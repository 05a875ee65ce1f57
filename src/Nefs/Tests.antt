-- ===== src/Nefs/Tests.antt =====
-- A disk for the tests: a sector holds one structure, or bytes.
pub mod Runs
use nekrnl.Prelude.{
  ℕ, zero, suc, ◌+◌, ◌≤◌, ◌<◌, ◌≡◌, ◌⊎◌, inl, inr, refl, sym, ap, ◌∙◌, Bool, true, false, ltb, ◌==◌,
  if◌then◌else◌, ==_iff, Bool-cases, arith, lt→ltb, [], ◌∷◌,
}
use nekrnl.Drive.{Drive, Device, epm_drive, success}
use nekrnl.Drive.Layout.{Codec}
use nekrnl.Drive.Memory.{one_sector, two_sectors}
use nekrnl.Nefs.{Catalog, Fork, Root, Disk, blank_catalog, blank_fork, blank_root}

pub data Sector : Type 0 where
  root_sector : Root → Sector
  fork_sector : Fork → Sector
  catalog_sector : Catalog → Sector
  catalog_tail : Sector
  byte_sector : (ℕ → ℕ) → Sector

abbrev pub as_root : Sector → Root
as_root (root_sector r) = r
as_root (fork_sector f) = blank_root
as_root (catalog_sector c) = blank_root
as_root catalog_tail = blank_root
as_root (byte_sector b) = blank_root

abbrev pub as_fork : Sector → Fork
as_fork (root_sector r) = blank_fork
as_fork (fork_sector f) = f
as_fork (catalog_sector c) = blank_fork
as_fork catalog_tail = blank_fork
as_fork (byte_sector b) = blank_fork

abbrev pub as_catalog : Sector → Catalog
as_catalog (root_sector r) = blank_catalog
as_catalog (fork_sector f) = blank_catalog
as_catalog (catalog_sector c) = c
as_catalog catalog_tail = blank_catalog
as_catalog (byte_sector b) = blank_catalog

abbrev pub as_bytes : Sector → ℕ → ℕ
as_bytes (root_sector r) i = 0
as_bytes (fork_sector f) i = 0
as_bytes (catalog_sector c) i = 0
as_bytes catalog_tail i = 0
as_bytes (byte_sector b) i = b i

abbrev pub catalog_codec : Codec Sector Catalog
catalog_codec = two_sectors as_catalog catalog_sector catalog_tail (λ c. refl)

abbrev pub root_codec : Codec Sector Root
root_codec = one_sector as_root root_sector (λ r. refl)

abbrev pub fork_codec : Codec Sector Fork
fork_codec = one_sector as_fork fork_sector (λ f. refl)

abbrev pub put_front : ℕ → (ℕ → ℕ) → Sector → Sector
put_front n buf s = byte_sector (λ i. if ltb i n then buf i else as_bytes s i)

pub byte-put_front :
    (n i : ℕ) (buf : ℕ → ℕ) (s : Sector) → i < n → n < 513 → as_bytes (put_front n buf s) i ≡ buf i
byte-put_front n i buf s h small = rw (lt→ltb _ _ h) refl

abbrev pub sample : Disk Sector
sample = record {
  root = root_codec;
  catalog = catalog_codec;
  fork = fork_codec;
  root_width = refl;
  catalog_width = refl;
  fork_width = refl;
  byte = as_bytes;
  put_bytes = put_front;
  byte-put_bytes = byte-put_front;
}
