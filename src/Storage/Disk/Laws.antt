-- ===== src/Storage/Disk/Laws.antt =====
-- What the disk manager knows after some paths were added.
use dest.Base.{
  ℕ, ◌+◌, ◌*◌, ◌%◌, ◌^◌, ◌<◌, Bool, true, false, ◌||◌, none, some, List, [], ◌∷◌, ◌++◌, length,
  if◌then◌else◌, ◌≡◌, refl, sym, ap, ◌∙◌, arith, Bool-cases, inl, inr,
}
use mathlib.Core.List.{append_assoc, append-nil}
use dest.Base.Text.{Text, bytes_eq, bytes_eq_iff}
use dest.Storage.Disk.{
  DiskInfo, DiskManager, DiskType, new, probe_disk, add_storage_path, sum_available,
  total_available, find_disk, get_disk_info,
}

-- Paths, each with whether it exists when it is added.
pub run : List (Text × Bool) → DiskManager → DiskManager
run [] m = m
run ((path, exists) ∷ paths) m = run paths (add_storage_path exists path m).0

-- The paths that existed.
pub kept : List (Text × Bool) → List Text
kept [] = []
kept ((path, true) ∷ paths) = path ∷ kept paths
kept ((path, false) ∷ paths) = kept paths

abbrev disk : Text → DiskInfo
disk path = record {
  path = path;
  disk_type = DiskType.hdd;
  total_bytes = 1_099_511_627_776;
  available_bytes = 1_099_511_627_776;
  used_bytes = 0;
}

abbrev disks : List Text → List DiskInfo
disks [] = []
disks (path ∷ paths) = disk path ∷ disks paths

run-disks :
    (paths : List (Text × Bool)) (m : DiskManager)
    → (run paths m).storage_paths ≡ m.storage_paths ++ disks (kept paths)
unfolding run kept add_storage_path probe_disk
run-disks [] m = sym (append-nil m.storage_paths)
run-disks ((path, true) ∷ paths) m =
    run-disks paths (add_storage_path true path m).0
    ∙ append_assoc m.storage_paths (disk path ∷ []) (disks (kept paths))
run-disks ((path, false) ∷ paths) m = run-disks paths m

sum_available-disks :
    (total : ℕ) (paths : List Text)
    → total < 2 ^ 64
    → sum_available total (disks paths) ≡ (total + 1_099_511_627_776 * length paths) % 2 ^ 64
sum_available-disks total [] h = omega (arith, h)
sum_available-disks total (p ∷ ps) h =
    sum_available-disks ((total + 1_099_511_627_776) % 2 ^ 64) ps (omega arith) ∙ omega arith

-- The space available after adding paths to a new manager is a terabyte for each path that existed,
-- with repetitions, modulo 2 ^ 64.
pub total_available-run :
    (paths : List (Text × Bool))
    → total_available (run paths new) ≡ (1_099_511_627_776 * length (kept paths)) % 2 ^ 64
unfolding total_available new
total_available-run paths =
    ap (sum_available 0) (run-disks paths new)
    ∙ (sum_available-disks 0 (kept paths) (omega arith) ∙ omega arith)

pub member_text : Text → List Text → Bool
member_text p [] = false
member_text p (q ∷ qs) = bytes_eq q p || member_text p qs

find_disk-disks :
    (path : Text) (paths : List Text)
    → find_disk path (disks paths) ≡ (if member_text path paths then some (disk path) else none)
unfolding member_text
find_disk-disks path [] = refl
find_disk-disks path (q ∷ qs) = elim (Bool-cases (bytes_eq q path)) [
  | inl same ↦ rw (same, (bytes_eq_iff q path).0 same) refl
  | inr other ↦ rw (other) (find_disk-disks path qs)
]

-- A new manager to which paths were added knows a path exactly where it was added while it existed, and
-- then as a hard disk of a terabyte with nothing used.
pub get_disk_info-run :
    (paths : List (Text × Bool)) (path : Text)
    → get_disk_info path (run paths new) ≡ (
        if member_text path (kept paths)
        then some (record {
          path = path;
          disk_type = DiskType.hdd;
          total_bytes = 1_099_511_627_776;
          available_bytes = 1_099_511_627_776;
          used_bytes = 0;
        })
        else none)
unfolding get_disk_info new
get_disk_info-run paths path =
    ap (find_disk path) (run-disks paths new) ∙ find_disk-disks path (kept paths)
