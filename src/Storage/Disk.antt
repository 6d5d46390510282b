-- ===== src/Storage/Disk.antt =====
-- storage/src/disk.rs: the disks that a host offers. Whether a path exists, and floating-point numbers, are
-- parameters. Sums of `u64` wrap.
pub mod Laws
use dest.Base.{
  ℕ, ◌+◌, ◌%◌, ◌^◌, Bool, true, false, Option, none, some, List, [], ◌∷◌, ◌++◌, leb, ◌==◌,
  if◌then◌else◌,
}
use dest.Base.Text.{Text, bytes_eq}

pub data DiskType : Type 0 where
  hdd ssd nvme unknown : DiskType

-- `f64`: decimal literals, as digits and places, conversion and division.
pub record F64 : Type 1 where
  pub Float : Type 0
  pub dec : ℕ → ℕ → Float
  pub from_u64 : ℕ → Float
  pub div : Float → Float → Float

module _ ⦃f : F64⦄ where
  abbrev pub multiplier : DiskType → f.Float
  multiplier DiskType.hdd = f.dec 10 1
  multiplier DiskType.ssd = f.dec 15 1
  multiplier DiskType.nvme = f.dec 20 1
  multiplier DiskType.unknown = f.dec 10 1

pub record DiskInfo : Type 0 where
  pub path : Text
  pub disk_type : DiskType
  pub total_bytes : ℕ
  pub available_bytes : ℕ
  pub used_bytes : ℕ

module _ ⦃f : F64⦄ where
  abbrev pub utilization : DiskInfo → f.Float
  utilization d =
      if d.total_bytes == 0
      then f.dec 0 1
      else f.div (f.from_u64 d.used_bytes) (f.from_u64 d.total_bytes)

abbrev pub has_space : ℕ → DiskInfo → Bool
has_space required_bytes d = leb required_bytes d.available_bytes

pub record DiskManager : Type 0 where
  pub storage_paths : List DiskInfo

-- `DiskManager::new`
unfoldable pub new : DiskManager
new = record { storage_paths = [] }

-- A placeholder, whatever the path.
abbrev pub detect_disk_type : Text → DiskType
detect_disk_type path = DiskType.hdd

-- `probe_disk`, where `exists` answers `Path::exists`; `none` is the error. The size is a placeholder.
pub probe_disk : Bool → Text → Option DiskInfo
probe_disk false path = none
probe_disk true path = some (record {
  path = path;
  disk_type = detect_disk_type path;
  total_bytes = 1_099_511_627_776;
  available_bytes = 1_099_511_627_776;
  used_bytes = 0;
})

abbrev pub push_info : Option DiskInfo → DiskManager → DiskManager × Bool
push_info none m = (m, false)
push_info (some info) m = (record m { storage_paths = m.storage_paths ++ (info ∷ []) }, true)

-- `false` is the error.
pub add_storage_path : Bool → Text → DiskManager → DiskManager × Bool
add_storage_path exists path m = push_info (probe_disk exists path) m

-- `sum()`, from the left.
abbrev pub sum_available : ℕ → List DiskInfo → ℕ
sum_available total [] = total
sum_available total (d ∷ ds) = sum_available ((total + d.available_bytes) % 2 ^ 64) ds

abbrev pub sum_used : ℕ → List DiskInfo → ℕ
sum_used total [] = total
sum_used total (d ∷ ds) = sum_used ((total + d.used_bytes) % 2 ^ 64) ds

pub total_available : DiskManager → ℕ
total_available m = sum_available 0 m.storage_paths

pub total_used : DiskManager → ℕ
total_used m = sum_used 0 m.storage_paths

abbrev pub find_disk : Text → List DiskInfo → Option DiskInfo
find_disk path [] = none
find_disk path (d ∷ ds) = if bytes_eq d.path path then some d else find_disk path ds

pub get_disk_info : Text → DiskManager → Option DiskInfo
get_disk_info path m = find_disk path m.storage_paths

abbrev pub list_disks : DiskManager → List DiskInfo
list_disks m = m.storage_paths
