-- ===== src/Nefs/Found.antt =====
-- A catalog that `CreateCatalog` of private/minkernel/src/FS/NeFS+FileSystemParser.cpp places, and
-- the search of `FindCatalog`.
use nekrnl.Prelude.{ℕ, zero, suc, ◌+◌, ◌≡◌, false}
use nekrnl.Drive.{Drive, Device}
use nekrnl.Nefs.{Name, Disk, matches}
use nekrnl.Nefs.Place.{catalog_at, Places, vacant, full}

module _ {S : Type 0} (dev : Device) (fs : Disk S) where
  -- Each catalog before the place has another name and points to the next place.
  unfoldable pub AllLinked :
      (m : ℕ → S) (path : Name) (stop k cursor at : ℕ)
      → Places dev fs m path 2 stop k cursor at
      → Type 0
  AllLinked m path stop zero cursor at (vacant inside clear) = cursor ≡ at
  AllLinked m path stop (suc k) cursor at (full inside made other p) =
      ((catalog_at dev fs m cursor).next_sibling ≡ cursor + 2)
      × (matches path (catalog_at dev fs m cursor).name ≡ false)
      × AllLinked m path stop k (cursor + 2) at p
